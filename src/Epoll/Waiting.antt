-- ===== src/Epoll/Waiting.antt =====
-- epoll_server.cc: how long the server waits for events. Times are in microseconds.
use cmuquic.Prelude.{
  ℕ, ◌-◌, ◌*◌, ◌/◌, ◌%◌, ◌^◌, ◌≤◌, ◌≡◌, Bool, true, false, ◌||◌, Option, none, some, ltb, ◌==◌,
  if◌then◌else◌, arith, ◌⊎◌,
}
use cmuquic.Prelude.Int.{ℤ, pos, negsuc, ◌-ℤ◌, ◌≤ℤ◌, ltb_ℤ, pos_part}

-- `std::max` with 0.
abbrev pub or_zero : ℤ → ℤ
or_zero (pos n) = pos n
or_zero (negsuc n) = pos 0

-- An int from the lowest 32 bits.
abbrev pub to_int : ℕ → ℤ
to_int n = let r = n % 2 ^ 32 in if ltb r (2 ^ 31) then pos r else negsuc (2 ^ 32 - 1 - r)

-- The time to wait when the first alarm is some time ahead.
abbrev pub wait_ahead : ℤ → ℤ → ℤ
wait_ahead timeout ahead =
    if ltb_ℤ ahead timeout || ltb_ℤ timeout (pos 0) then or_zero ahead else timeout

-- The time that `WaitForEventsAndExecuteCallbacks` waits, with the time of the first alarm.
unfoldable pub wait_time : ℤ → ℤ → Option ℤ → ℤ
wait_time timeout now none = timeout
wait_time timeout now (some next) = wait_ahead timeout (next -ℤ now)

-- The milliseconds that `WaitForEventsAndCallHandleEvents` gives to `epoll_wait`; `ready` is
-- whether the ready list has entries.
unfoldable pub timeout_in_ms : ℤ → Bool → ℤ
timeout_in_ms (negsuc n) ready = if ready then pos 0 else negsuc 0
timeout_in_ms (pos n) ready =
    if (n == 0) || ready then pos 0 else to_int ((if ltb n 1000 then 1000 else n) / 1000)

-- How a wait relates to the alarm.
abbrev pub IsTimely : ℤ → ℤ → Bool → ℤ → Type 0
IsTimely timeout ahead ready ms =
    (pos 0 ≤ℤ ms)
    × ((pos_part ms ≤ 1) ⊎ (pos (pos_part ms * 1000) ≤ℤ ahead))
    × (ready ≡ true → pos_part ms ≡ 0)
    × (ahead ≤ℤ pos 0 → pos_part ms ≡ 0)
    × (ready ≡ false → ¬ (ahead ≤ℤ pos 0) → ¬ (timeout ≡ pos 0) → 1 ≤ pos_part ms)

timeout_in_ms-wait_ahead :
    (timeout ahead : ℤ) (ready : Bool)
    → ahead ≤ℤ pos (2 ^ 31 * 1000 - 1)
    → timeout ≤ℤ pos (2 ^ 31 * 1000 - 1)
    → IsTimely timeout ahead ready (timeout_in_ms (wait_ahead timeout ahead) ready)
unfolding timeout_in_ms
timeout_in_ms-wait_ahead timeout ahead ready h h' = ground arith

-- With an alarm that is less than 2^31 milliseconds ahead, and a default timeout below that, the server
-- never waits for ever. It waits a millisecond at most or not beyond the alarm; not at all if entries
-- are ready or the alarm is due; and otherwise a millisecond at least, unless the default timeout is 0.
pub timeout_in_ms-wait_time :
    (timeout now next : ℤ) (ready : Bool)
    → (next -ℤ now) ≤ℤ pos (2 ^ 31 * 1000 - 1)
    → timeout ≤ℤ pos (2 ^ 31 * 1000 - 1)
    → IsTimely timeout (next -ℤ now) ready (timeout_in_ms (wait_time timeout now (some next)) ready)
unfolding wait_time
timeout_in_ms-wait_time timeout now next ready h h' =
    timeout_in_ms-wait_ahead timeout (next -ℤ now) ready h h'
