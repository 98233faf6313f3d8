-- ===== src/Alarms/Loop/Cuts.antt =====
-- epoll_server.cc: the iterator of the loop over the alarms, as a cut of their map.
use cmuquic.Prelude.{
  ℕ, ◌+◌, ◌≤◌, ◌≡◌, ◌≢◌, refl, ◌∙◌, ap, sym, false, Option, none, some, List, [], ◌∷◌, ◌++◌, ◌==◌,
  arith, All, All-append, Bool-cases, inl, inr,
}
use mathlib.Core.Path.{subst}
use cmuquic.Prelude.Int.{ltb_ℤ}
use cmuquic.Prelude.Assoc.{lookup, erase}
use cmuquic.Alarms.Data.{Timer, place, first}
use cmuquic.Alarms.Registry.Armed.{is_current}

abbrev pub total : (ℕ × Timer → ℕ) → List (ℕ × Timer) → ℕ
total g [] = 0
total g (e ∷ m) = g e + total g m

found_in :
    (q : ℕ) (passed ahead : List (ℕ × Timer))
    → some q ≡ first ahead
    → lookup q (passed ++ ahead) ≢ none
unfolding first lookup
found_in q [] [] h e = absurd (cc)
found_in q [] ((p, u) ∷ m) h e = ground (arith, h, e)
found_in q (x ∷ passed) ahead h e = ground (arith, e, found_in q passed ahead h)

-- The map in two parts, with the iterator at the second: `P` holds of the entries that were
-- passed, and the entries ahead weigh n at most.
pub record Cut (P : ℕ × Timer → Type 0) (g : ℕ × Timer → ℕ) (i : Option ℕ) (n : ℕ)
    (m : List (ℕ × Timer)) : Type 0 where
  pub passed : List (ℕ × Timer)
  pub ahead : List (ℕ × Timer)
  pub parts : m ≡ passed ++ ahead
  pub at : i ≡ first ahead
  pub done : All P passed
  pub light : total g ahead ≤ n

module _ (P : ℕ × Timer → Type 0) (g : ℕ × Timer → ℕ) where
  Cut-cons :
      (e : ℕ × Timer) (i : Option ℕ) (n : ℕ) (m : List (ℕ × Timer))
      → P e
      → Cut P g i n m
      → Cut P g i n (e ∷ m)
  Cut-cons e i n m p c = record {
    passed = e ∷ c.passed;
    ahead = c.ahead;
    parts = ap (◌∷◌ e) c.parts;
    at = c.at;
    done = (p, c.done);
    light = c.light;
  }

  total-place :
      (q : ℕ) (t : Timer) (m : List (ℕ × Timer)) → total g (place q t m) ≡ total g m + g (q, t)
  unfolding place
  total-place q t [] = omega arith
  total-place q t ((p, u) ∷ m) = ground (arith, total-place q t m)

  total-erase : (q : ℕ) (m : List (ℕ × Timer)) → total g (erase q m) ≤ total g m
  unfolding erase
  total-erase q [] = omega arith
  total-erase q ((p, u) ∷ m) = ground (arith, total-erase q m)

  place_between :
      (q : ℕ) (t : Timer) (passed ahead : List (ℕ × Timer))
      → P (q, t)
      → All P passed
      → Cut P g (first ahead) (total g ahead + g (q, t)) (place q t (passed ++ ahead))
  unfolding place first
  place_between q t [] [] p a = record {
    passed = (q, t) ∷ [];
    ahead = [];
    parts = refl;
    at = refl;
    done = (p, tt);
    light = omega arith;
  }
  place_between q t [] ((h, u) ∷ m) p a = elim (Bool-cases (ltb_ℤ t.time u.time)) [
    | inl sooner ↦ record {
      passed = (q, t) ∷ [];
      ahead = (h, u) ∷ m;
      parts = ground (arith, sooner);
      at = refl;
      done = (p, tt);
      light = omega arith;
    }
    | inr later ↦ record {
      passed = [];
      ahead = (h, u) ∷ place q t m;
      parts = ground (arith, later);
      at = refl;
      done = tt;
      light = omega (arith, total-place q t m);
    }
  ]
  place_between q t (e ∷ passed) ahead p a = elim (Bool-cases (ltb_ℤ t.time e.1.time)) [
    | inl sooner ↦ record {
      passed = (q, t) ∷ e ∷ passed;
      ahead = ahead;
      parts = ground (arith, sooner);
      at = refl;
      done = (p, a);
      light = omega arith;
    }
    | inr later ↦
        subst (Cut P g _ _) (ground (arith, later))
          (Cut-cons e _ _ (place q t (passed ++ ahead)) a.0 (place_between q t passed ahead p a.1))
  ]

  -- A new entry stands among those that were passed, or ahead but not at the front.
  pub place-Cut :
      (i : Option ℕ) (n q : ℕ) (t : Timer) (m : List (ℕ × Timer))
      → Cut P g i n m
      → P (q, t)
      → Cut P g i (n + g (q, t)) (place q t m)
  place-Cut i n q t m c p =
      let d = place_between q t c.passed c.ahead p c.done in
      record {
        passed = d.passed;
        ahead = d.ahead;
        parts = ap (place q t) c.parts ∙ d.parts;
        at = c.at ∙ d.at;
        done = d.done;
        light = omega (arith, c.light, d.light);
      }

  erase_between :
      (q : ℕ) (passed ahead : List (ℕ × Timer))
      → All P passed
      → is_current (first ahead) q ≡ false
      → Cut P g (first ahead) (total g ahead) (erase q (passed ++ ahead))
  unfolding erase first
  erase_between q [] [] a h = record {
    passed = [];
    ahead = [];
    parts = refl;
    at = refl;
    done = tt;
    light = omega arith;
  }
  erase_between q [] ((p, u) ∷ m) a h = record {
    passed = [];
    ahead = (p, u) ∷ erase q m;
    parts = ground (arith, h);
    at = refl;
    done = tt;
    light = omega (arith, total-erase q m);
  }
  erase_between q (e ∷ passed) ahead a h = elim (Bool-cases (e.0 == q)) [
    | inl hit ↦ record {
      passed = passed;
      ahead = ahead;
      parts = ground (arith, hit);
      at = refl;
      done = a.1;
      light = omega arith;
    }
    | inr miss ↦
        subst (Cut P g _ _) (ground (arith, miss))
          (Cut-cons e _ _ (erase q (passed ++ ahead)) a.0 (erase_between q passed ahead a.1 h))
  ]

  -- An entry goes that is not at the iterator.
  pub erase-Cut :
      (i : Option ℕ) (n q : ℕ) (m : List (ℕ × Timer))
      → Cut P g i n m
      → is_current i q ≡ false
      → Cut P g i n (erase q m)
  erase-Cut i n q m c h =
      let d = erase_between q c.passed c.ahead c.done (rw (← c.at) h) in
      record {
        passed = d.passed;
        ahead = d.ahead;
        parts = ap (erase q) c.parts ∙ d.parts;
        at = c.at ∙ d.at;
        done = d.done;
        light = omega (arith, c.light, d.light);
      }

  -- At the end of the map every entry was passed.
  pub end-Cut : (n : ℕ) (m : List (ℕ × Timer)) → Cut P g none n m → All P m
  unfolding first
  end-Cut n m c = subst (All P) (sym c.parts) (ended c.ahead c.at)
    where
      ended : (ahead : List (ℕ × Timer)) → none ≡ first ahead → All P (c.passed ++ ahead)
      ended [] e = All-append P c.passed [] c.done tt
      ended ((p, u) ∷ ahead) h = absurd (cc)

  -- The loop begins at the front.
  pub first-Cut : (m : List (ℕ × Timer)) → Cut P g (first m) (total g m) m
  first-Cut m = record {
    passed = [];
    ahead = m;
    parts = refl;
    at = refl;
    done = tt;
    light = omega arith;
  }

-- The iterator points into the map.
pub contains-Cut :
    (P : ℕ × Timer → Type 0) (g : ℕ × Timer → ℕ) (n q : ℕ) (m : List (ℕ × Timer))
    → Cut P g (some q) n m
    → lookup q m ≢ none
contains-Cut P g n q m c =
    subst (λ x. lookup q x ≢ none) (sym c.parts) (found_in q c.passed c.ahead c.at)

-- The weights may shrink, and the bound may grow.
pub lighter-Cut :
    (P : ℕ × Timer → Type 0) (g h : ℕ × Timer → ℕ) (i : Option ℕ) (n n' : ℕ) (m : List (ℕ × Timer))
    → ((e : ℕ × Timer) → h e ≤ g e)
    → n ≤ n'
    → Cut P g i n m
    → Cut P h i n' m
lighter-Cut P g h i n n' m less le c = record {
  passed = c.passed;
  ahead = c.ahead;
  parts = c.parts;
  at = c.at;
  done = c.done;
  light = omega (arith, le, c.light, total_le c.ahead);
}
  where
    total_le : (xs : List (ℕ × Timer)) → total h xs ≤ total g xs
    total_le [] = omega arith
    total_le (e ∷ xs) = omega (arith, less e, total_le xs)
