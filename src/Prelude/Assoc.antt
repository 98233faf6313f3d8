-- ===== src/Prelude/Assoc.antt =====
-- Maps with numbers for keys, as association lists in the order of insertion.
use Prim.Native.Nat.{ℕ, ◌+◌, ◌≤◌}
use mathlib.Core.Path.{◌≡◌, refl}
use mathlib.Core.Logic.{◌≢◌, inl, inr}
use mathlib.Core.Bool.{Bool, true, false}
use mathlib.Core.Option.{Option, none, some}
use mathlib.Core.List.{List, [], ◌∷◌, ◌++◌}
use native.Mathlib.Omega.{arith}
use cmuquic.Prelude.Tests.{◌==◌, if◌then◌else◌, Bool-cases}
use cmuquic.Prelude.Lists.{length, All}

module _ {ℓ} {V : Type ℓ} where
  unfoldable pub lookup : ℕ → List (ℕ × V) → Option V
  lookup k [] = none
  lookup k ((j, v) ∷ m) = if j == k then some v else lookup k m

  unfoldable pub contains : ℕ → List (ℕ × V) → Bool
  contains k [] = false
  contains k ((j, v) ∷ m) = if j == k then true else contains k m

  -- Drops the entry of a key.
  unfoldable pub erase : ℕ → List (ℕ × V) → List (ℕ × V)
  erase k [] = []
  erase k ((j, v) ∷ m) = if j == k then m else (j, v) ∷ erase k m

  -- Writes the value of a key that is present, in place.
  unfoldable pub assign : ℕ → V → List (ℕ × V) → List (ℕ × V)
  assign k v [] = []
  assign k v ((j, w) ∷ m) = if j == k then (j, v) ∷ m else (j, w) ∷ assign k v m

  -- No key twice.
  abbrev pub IsDistinct : List (ℕ × V) → Type 0
  IsDistinct [] = Unit {0}
  IsDistinct ((k, v) ∷ m) = (contains k m ≡ false) × IsDistinct m

  pub contains_of_lookup :
      (k : ℕ) (m : List (ℕ × V)) (v : V) → lookup k m ≡ some v → contains k m ≡ true
  unfolding lookup contains
  contains_of_lookup k [] v h = cc
  contains_of_lookup k ((j, w) ∷ m) v h = ground (arith, contains_of_lookup k m v)

  pub lookup_of_contains :
      (k : ℕ) (m : List (ℕ × V)) → contains k m ≡ true → (v : V) × (lookup k m ≡ some v)
  unfolding lookup contains
  lookup_of_contains k [] h = absurd (cc)
  lookup_of_contains k ((j, w) ∷ m) h = elim (Bool-cases (j == k)) [
    | inl hit ↦ (w, rw hit)
    | inr miss ↦ let (v, e) = lookup_of_contains k m (ground arith) in (v, rw miss e)
  ]

  pub contains-none : (k : ℕ) (m : List (ℕ × V)) → lookup k m ≡ none → contains k m ≡ false
  unfolding lookup contains
  contains-none k [] h = refl
  contains-none k ((j, w) ∷ m) h = ground (arith, contains-none k m)

  pub lookup_absent : (k : ℕ) (m : List (ℕ × V)) → contains k m ≡ false → lookup k m ≡ none
  unfolding lookup contains
  lookup_absent k [] h = refl
  lookup_absent k ((j, w) ∷ m) h = ground (arith, lookup_absent k m)

  pub contains-append :
      (k : ℕ) (m n : List (ℕ × V))
      → contains k (m ++ n) ≡ (if contains k m then true else contains k n)
  unfolding contains
  contains-append k [] n = refl
  contains-append k ((j, w) ∷ m) n = ground (arith, contains-append k m n)

  pub lookup-append_absent :
      (k : ℕ) (m n : List (ℕ × V)) → contains k m ≡ false → lookup k (m ++ n) ≡ lookup k n
  unfolding lookup contains
  lookup-append_absent k [] n h = refl
  lookup-append_absent k ((j, w) ∷ m) n h = ground (arith, lookup-append_absent k m n)

  pub contains-erase_self :
      (k : ℕ) (m : List (ℕ × V)) → IsDistinct m → contains k (erase k m) ≡ false
  unfolding contains erase
  contains-erase_self k [] d = refl
  contains-erase_self k ((j, w) ∷ m) d = ground (arith, contains-erase_self k m d.1)

  pub contains-erase_ne :
      (k q : ℕ) (m : List (ℕ × V)) → q ≢ k → contains q (erase k m) ≡ contains q m
  unfolding contains erase
  contains-erase_ne k q [] h = refl
  contains-erase_ne k q ((j, w) ∷ m) h = ground (arith, contains-erase_ne k q m h)

  pub lookup-erase_ne : (k q : ℕ) (m : List (ℕ × V)) → q ≢ k → lookup q (erase k m) ≡ lookup q m
  unfolding lookup erase
  lookup-erase_ne k q [] h = refl
  lookup-erase_ne k q ((j, w) ∷ m) h = ground (arith, lookup-erase_ne k q m h)

  pub contains-erase_le :
      (k q : ℕ) (m : List (ℕ × V)) → contains q m ≡ false → contains q (erase k m) ≡ false
  unfolding contains erase
  contains-erase_le k q [] h = refl
  contains-erase_le k q ((j, w) ∷ m) h = ground (arith, contains-erase_le k q m)

  pub erase-IsDistinct : (k : ℕ) (m : List (ℕ × V)) → IsDistinct m → IsDistinct (erase k m)
  unfolding erase
  erase-IsDistinct k [] d = tt
  erase-IsDistinct k ((j, w) ∷ m) d =
      ground (arith, erase-IsDistinct k m d.1, contains-erase_le k j m d.0)

  pub length-erase :
      (k : ℕ) (m : List (ℕ × V)) → contains k m ≡ true → length (erase k m) + 1 ≡ length m
  unfolding contains erase
  length-erase k [] h = absurd (cc)
  length-erase k ((j, w) ∷ m) h = ground (arith, length-erase k m)

  pub length-erase-le : (k : ℕ) (m : List (ℕ × V)) → length (erase k m) ≤ length m
  unfolding erase
  length-erase-le k [] = omega arith
  length-erase-le k ((j, w) ∷ m) = ground (arith, length-erase-le k m)

  pub snoc-IsDistinct :
      (k : ℕ) (v : V) (m : List (ℕ × V))
      → contains k m ≡ false
      → IsDistinct m
      → IsDistinct (m ++ (k, v) ∷ [])
  unfolding contains
  snoc-IsDistinct k v [] h d = (refl, tt)
  snoc-IsDistinct k v ((j, w) ∷ m) h d =
      ground (arith, snoc-IsDistinct k v m, contains-append j m ((k, v) ∷ []))

  pub contains-assign :
      (k q : ℕ) (v : V) (m : List (ℕ × V)) → contains q (assign k v m) ≡ contains q m
  unfolding contains assign
  contains-assign k q v [] = refl
  contains-assign k q v ((j, w) ∷ m) = ground (arith, contains-assign k q v m)

  pub assign-IsDistinct :
      (k : ℕ) (v : V) (m : List (ℕ × V)) → IsDistinct m → IsDistinct (assign k v m)
  unfolding assign
  assign-IsDistinct k v [] d = tt
  assign-IsDistinct k v ((j, w) ∷ m) d =
      ground (arith, assign-IsDistinct k v m d.1, contains-assign k j v m)

  pub lookup-assign :
      (k q : ℕ) (v : V) (m : List (ℕ × V))
      → contains k m ≡ true
      → lookup q (assign k v m) ≡ (if k == q then some v else lookup q m)
  unfolding lookup assign contains
  lookup-assign k q v [] h = absurd (cc)
  lookup-assign k q v ((j, w) ∷ m) h = ground (arith, lookup-assign k q v m)

  pub lookup-snoc :
      (k q : ℕ) (v : V) (m : List (ℕ × V))
      → contains k m ≡ false
      → lookup q (m ++ (k, v) ∷ []) ≡ (if k == q then some v else lookup q m)
  unfolding lookup contains
  lookup-snoc k q v [] h = refl
  lookup-snoc k q v ((j, w) ∷ m) h = ground (arith, lookup-snoc k q v m)

  pub lookup-erase :
      (k q : ℕ) (m : List (ℕ × V))
      → IsDistinct m
      → lookup q (erase k m) ≡ (if k == q then none else lookup q m)
  unfolding lookup contains erase
  lookup-erase k q [] d = ground arith
  lookup-erase k q ((j, w) ∷ m) d = ground (arith, lookup-erase k q m d.1, lookup_absent k m)

  pub length-assign : (k : ℕ) (v : V) (m : List (ℕ × V)) → length (assign k v m) ≡ length m
  unfolding assign
  length-assign k v [] = refl
  length-assign k v ((j, w) ∷ m) = ground (arith, length-assign k v m)

  pub All-erase {κ} : (P : ℕ × V → Type κ) (k : ℕ) (m : List (ℕ × V)) → All P m → All P (erase k m)
  unfolding erase
  All-erase P k [] a = tt
  All-erase P k ((j, w) ∷ m) a = elim (Bool-cases (j == k)) [
    | inl hit ↦ rw hit a.1
    | inr miss ↦ rw miss (a.0, All-erase P k m a.1)
  ]

  pub All-lookup {κ} :
      (P : ℕ × V → Type κ) (k : ℕ) (m : List (ℕ × V)) (v : V)
      → All P m
      → lookup k m ≡ some v
      → P (k, v)
  unfolding lookup
  All-lookup P k [] v a h = absurd (cc)
  All-lookup P k ((j, w) ∷ m) v a h = elim (Bool-cases (j == k)) [
    | inl hit ↦ let e : ◌≡◌ {A = ℕ × V} (j, w) (k, v) = ground (arith, h) in rw (← e) a.0
    | inr miss ↦ All-lookup P k m v a.1 (rw miss at h)
  ]
