-- ===== src/Alarms/Data/Timers.antt =====
-- The map of alarms in epoll_server.cc: its order, and the place of a new entry.
use cmuquic.Prelude.{
  ℕ, ◌≡◌, refl, true, false, some, List, [], ◌∷◌, ◌==◌, if◌then◌else◌, arith, All,
}
use cmuquic.Prelude.Assoc.{lookup, contains, erase, IsDistinct, All-erase}
use cmuquic.Prelude.Int.{ltb_ℤ}
use cmuquic.Alarms.Data.{Timer, place}

pub contains-place :
    (q p : ℕ) (t : Timer) (m : List (ℕ × Timer))
    → contains p (place q t m) ≡ (if q == p then true else contains p m)
unfolding place contains
contains-place q p t [] = refl
contains-place q p t ((j, u) ∷ m) = ground (arith, contains-place q p t m)

pub place-IsDistinct :
    (q : ℕ) (t : Timer) (m : List (ℕ × Timer))
    → contains q m ≡ false
    → IsDistinct m
    → IsDistinct (place q t m)
unfolding place contains
place-IsDistinct q t [] h d = (refl, tt)
place-IsDistinct q t ((j, u) ∷ m) h d =
    ground (arith, place-IsDistinct q t m, contains-place q j t m)

pub lookup-place :
    (q p : ℕ) (t : Timer) (m : List (ℕ × Timer))
    → contains q m ≡ false
    → lookup p (place q t m) ≡ (if q == p then some t else lookup p m)
unfolding place contains lookup
lookup-place q p t [] h = refl
lookup-place q p t ((j, u) ∷ m) h = ground (arith, lookup-place q p t m)

-- No entry is due before those in front of it.
abbrev pub NotBefore : Timer → ℕ × Timer → Type 0
NotBefore t e = ltb_ℤ e.1.time t.time ≡ false

abbrev pub IsSorted : List (ℕ × Timer) → Type 0
IsSorted [] = Unit {0}
IsSorted ((q, t) ∷ m) = All (NotBefore t) m × IsSorted m

NotBefore-trans :
    (t u : Timer) (m : List (ℕ × Timer))
    → ltb_ℤ u.time t.time ≡ false
    → All (NotBefore u) m
    → All (NotBefore t) m
NotBefore-trans t u [] h a = tt
NotBefore-trans t u ((q, v) ∷ m) h a = (ground (arith, a.0), NotBefore-trans t u m h a.1)

All-place :
    (u : Timer) (q : ℕ) (t : Timer) (m : List (ℕ × Timer))
    → ltb_ℤ t.time u.time ≡ false
    → All (NotBefore u) m
    → All (NotBefore u) (place q t m)
unfolding place
All-place u q t [] h a = (h, tt)
All-place u q t ((p, v) ∷ m) h a = ground (arith, All-place u q t m)

pub place-IsSorted :
    (q : ℕ) (t : Timer) (m : List (ℕ × Timer)) → IsSorted m → IsSorted (place q t m)
unfolding place
place-IsSorted q t [] s = (tt, tt)
place-IsSorted q t ((p, u) ∷ m) s =
    ground (arith, place-IsSorted q t m s.1, All-place u q t m, NotBefore-trans t u m)

pub erase-IsSorted : (q : ℕ) (m : List (ℕ × Timer)) → IsSorted m → IsSorted (erase q m)
unfolding erase
erase-IsSorted q [] s = tt
erase-IsSorted q ((p, u) ∷ m) s =
    ground (arith, erase-IsSorted q m s.1, All-erase (NotBefore u) q m s.0)
