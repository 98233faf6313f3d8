-- ===== src/TimeWait/Data/Backoff.antt =====
-- `ShouldSendResponse` of quic_time_wait_list_manager.cc: the exponential back-off.
use native.Mathlib.Nat.{pow-suc}
use cmuquic.Prelude.{
  ℕ, zero, suc, ◌+◌, ◌-◌, ◌*◌, ◌/◌, ◌%◌, ◌^◌, ◌≤◌, ◌<◌, bit_and, ◌≡◌, refl, ◌↔◌, true, arith,
  ==_iff, ◌⊎◌, inl, inr, ◌∙◌,
}
use cmuquic.Prelude.Bits.{bit_and_step}
use cmuquic.TimeWait.Data.{should_send_response}

abbrev pub IsPowerOfTwo : ℕ → Type 0
IsPowerOfTwo n = (k : ℕ) × (n ≡ 2 ^ k)

bit_and_self_fuel : (f n : ℕ) → n ≤ f → bit_and n n ≡ n
bit_and_self_fuel f zero h = refl
bit_and_self_fuel zero (suc n) h = absurd (omega arith)
bit_and_self_fuel (suc f) (suc n) h =
    omega (arith, bit_and_step (suc n) (suc n), bit_and_self_fuel f (suc n / 2) (omega arith))

bit_and_self : (n : ℕ) → bit_and n n ≡ n
bit_and_self n = bit_and_self_fuel n n (omega arith)

parity : (n : ℕ) → (n % 2 ≡ 0) ⊎ (n % 2 ≡ 1)
parity n = omega arith

-- n & (n - 1), one binary digit down: an even n halves, an odd n keeps all but its last digit.
and_pred_even : (n : ℕ) → 0 < n → n % 2 ≡ 0 → bit_and n (n - 1) ≡ 2 * bit_and (n / 2) (n / 2 - 1)
and_pred_even n h e =
    let low : (n - 1) / 2 ≡ n / 2 - 1 = omega arith in
    rw (← low) (omega (arith, bit_and_step n (n - 1)))

and_pred_odd : (n : ℕ) → n % 2 ≡ 1 → bit_and n (n - 1) ≡ 2 * (n / 2)
and_pred_odd n e =
    let low : (n - 1) / 2 ≡ n / 2 = omega arith in
    let half : bit_and (n / 2) ((n - 1) / 2) ≡ n / 2 = rw low (bit_and_self (n / 2)) in
    omega (arith, bit_and_step n (n - 1), half)

double : (m n : ℕ) → n ≡ 2 * m → IsPowerOfTwo m → IsPowerOfTwo n
double m n e (k, p) = (suc k, omega (arith, pow-suc 2 k))

power_of_and_pred : (f n : ℕ) → n ≤ f → 0 < n → bit_and n (n - 1) ≡ 0 → IsPowerOfTwo n
power_of_and_pred zero n h p e = absurd (omega arith)
power_of_and_pred (suc f) n h p e = elim (parity n) [
  | inl even ↦ double (n / 2) n (omega arith) (
      power_of_and_pred f (n / 2) (omega arith) (omega arith)
        (omega (arith, and_pred_even n p even)))
  | inr odd ↦ (0, omega (arith, and_pred_odd n odd))
]

and_pred_of_power : (k : ℕ) → (0 < 2 ^ k) × (bit_and (2 ^ k) (2 ^ k - 1) ≡ 0)
and_pred_of_power zero = (omega arith, refl)
and_pred_of_power (suc k) =
    let (p, e) = and_pred_of_power k in
    let d : 2 ^ suc k ≡ 2 * 2 ^ k = omega (arith, pow-suc 2 k) in
    let half : 2 * 2 ^ k / 2 ≡ 2 ^ k = omega arith in
    rw d
      (omega arith, and_pred_even (2 * 2 ^ k) (omega arith) (omega arith) ∙ rw half (omega arith))

pred_mod : (n : ℕ) → 0 < n → n < 2 ^ 32 → (n + 2 ^ 32 - 1) % 2 ^ 32 ≡ n - 1
pred_mod n p h = omega arith

-- For every count from 1 to 2^32 - 1, read as the bit pattern of the int, an answer is sent exactly
-- if the count is a power of two.
pub should_send_response-IsPowerOfTwo :
    (n : ℕ) → 0 < n → n < 2 ^ 32 → (should_send_response n ≡ true) ↔ IsPowerOfTwo n
unfolding should_send_response
should_send_response-IsPowerOfTwo n p h = rw (pred_mod n p h) (
  (λ e. power_of_and_pred n n (omega arith) p ((==_iff _ 0).0 e)),
  (λ (k, e). (==_iff _ 0).1 (rw e (and_pred_of_power k).1)),
)
