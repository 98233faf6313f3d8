-- ===== src/Prelude/Bits.antt =====
-- Bitwise "and" on native numbers: its lowest binary digit.
use Prim.Native.Nat.{ℕ, zero, suc, ◌+◌, ◌*◌, ◌/◌, ◌%◌, ◌≤◌, min, bit_and, digits, bit_and-bitwise}
use mathlib.Core.Path.{◌≡◌, refl, ◌∙◌, sym}
use native.Mathlib.Omega.{arith}

-- The digit-wise minimum of x and y, with room for r digits of x.
abbrev minima : ℕ → ℕ → ℕ → ℕ
minima = digits (λ y. zero) min

minima_nothing : (r y : ℕ) → minima r 0 y ≡ 0
minima_nothing zero y = refl
minima_nothing (suc r) y = refl

-- Room beyond the digits of x is not used.
minima_room : (x y r s : ℕ) → x ≤ r → x ≤ s → minima r x y ≡ minima s x y
minima_room zero y r s fits fits' = minima_nothing r y ∙ sym (minima_nothing s y)
minima_room (suc x) y (suc r) (suc s) fits fits' =
    let half : suc x / 2 ≤ x = omega arith in
    omega (arith, minima_room (suc x / 2) (y / 2) r s (omega arith) (omega arith))
minima_room (suc x) y zero s fits fits' = absurd (omega arith)
minima_room (suc x) y (suc r) zero fits fits' = absurd (omega arith)

pub bit_and_step : (x y : ℕ) → bit_and x y ≡ bit_and (x / 2) (y / 2) * 2 + min (x % 2) (y % 2)
bit_and_step zero y =
    let empty : (z : ℕ) → bit_and 0 z ≡ 0 = bit_and-bitwise 0 in
    omega (arith, empty y, empty (y / 2))
bit_and_step (suc x) y =
    let half = suc x / 2 in
    let whole = bit_and-bitwise (suc x) y in
    let rest = bit_and-bitwise half (y / 2) in
    omega (arith, whole, rest, minima_room half (y / 2) x half (omega arith) (omega arith))
