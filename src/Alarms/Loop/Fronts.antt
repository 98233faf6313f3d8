-- ===== src/Alarms/Loop/Fronts.antt =====
-- epoll_server.cc: the entry at the iterator of the loop over the alarms.
use cmuquic.Prelude.{
  ℕ, ◌+◌, ◌-◌, ◌≤◌, ◌≡◌, refl, ◌∙◌, ap, sym, false, some, List, [], ◌∷◌, ◌++◌, arith, All,
  All-append,
}
use mathlib.Core.Path.{subst}
use mathlib.Core.List.{append_assoc}
use cmuquic.Prelude.Assoc.{lookup, contains, erase, IsDistinct, contains-append}
use cmuquic.Alarms.Data.{Timer, first, next_of}
use cmuquic.Alarms.Loop.Cuts.{total, Cut}

module _ (P : ℕ × Timer → Type 0) (g : ℕ × Timer → ℕ) where
  -- The iterator moves on from an entry.
  next_between :
      (q : ℕ) (t u : Timer) (passed ahead : List (ℕ × Timer))
      → contains q passed ≡ false
      → (next_of q (passed ++ (q, u) ∷ ahead) ≡ first ahead)
        × (erase q (passed ++ (q, u) ∷ ahead) ≡ passed ++ ahead)
        × (lookup q (passed ++ (q, u) ∷ ahead) ≡ some u)
  unfolding next_of erase contains lookup
  next_between q t u [] ahead h = ground arith
  next_between q t u (e ∷ passed) ahead h = ground (arith, next_between q t u passed ahead)

  contains_front :
      (q : ℕ) (u : Timer) (passed ahead : List (ℕ × Timer))
      → IsDistinct (passed ++ (q, u) ∷ ahead)
      → contains q passed ≡ false
  unfolding contains
  contains_front q u [] ahead d = refl
  contains_front q u (e ∷ passed) ahead d =
      ground
        (arith, contains_front q u passed ahead d.1, contains-append e.0 passed ((q, u) ∷ ahead))

  -- What the parts of a cut say of the entry at the iterator.
  pub record Front (q : ℕ) (t : Timer) (n : ℕ) (m : List (ℕ × Timer)) : Type 0 where
    pub passed : List (ℕ × Timer)
    pub ahead : List (ℕ × Timer)
    pub parts : m ≡ passed ++ (q, t) ∷ ahead
    pub done : All P passed
    pub light : total g ahead + g (q, t) ≤ n
    pub next : next_of q m ≡ first ahead
    pub rest : erase q m ≡ passed ++ ahead

  Front-of :
      (n q : ℕ) (t : Timer) (passed ahead m : List (ℕ × Timer))
      → m ≡ passed ++ ahead
      → some q ≡ first ahead
      → All P passed
      → total g ahead ≤ n
      → IsDistinct m
      → lookup q m ≡ some t
      → Front q t n m
  unfolding first
  Front-of n q t passed [] m parts at a l d found = absurd (cc)
  Front-of n q t passed ((p, u) ∷ ahead) m parts at a l d found =
      let own : p ≡ q = cc in
      let split : m ≡ passed ++ (q, u) ∷ ahead = parts ∙ ap (λ x. passed ++ (x, u) ∷ ahead) own in
      let (next, rest, there) =
        next_between q t u passed ahead
          (contains_front q u passed ahead (subst IsDistinct split d)) in
      let same : u ≡ t = cc (ap (lookup q) split, there, found) in
      subst (λ x. Front q x n m) same
        (record {
          passed = passed;
          ahead = ahead;
          parts = split;
          done = a;
          light = subst (λ x. total g ahead + g (x, u) ≤ n) own (omega (arith, l));
          next = ap (next_of q) split ∙ next;
          rest = ap (erase q) split ∙ rest;
        })

  pub Cut-Front :
      (n q : ℕ) (t : Timer) (m : List (ℕ × Timer))
      → Cut P g (some q) n m
      → IsDistinct m
      → lookup q m ≡ some t
      → Front q t n m
  Cut-Front n q t m c d found =
      Front-of n q t c.passed c.ahead m c.parts c.at c.done c.light d found

  All-snoc : (e : ℕ × Timer) (m : List (ℕ × Timer)) → All P m → P e → All P (m ++ e ∷ [])
  All-snoc e m a p = All-append P m (e ∷ []) a (p, tt)

  -- The entry at the iterator is passed.
  pub skip-Cut :
      (n q : ℕ) (t : Timer) (m : List (ℕ × Timer)) (f : Front q t n m)
      → P (q, t)
      → Cut P g (next_of q m) (n - g (q, t)) m
  skip-Cut n q t m f p = record {
    passed = f.passed ++ (q, t) ∷ [];
    ahead = f.ahead;
    parts = f.parts ∙ sym (append_assoc f.passed ((q, t) ∷ []) f.ahead);
    at = f.next;
    done = All-snoc (q, t) f.passed f.done p;
    light = omega (arith, f.light);
  }

  -- The entry at the iterator goes.
  pub drop-Cut :
      (n q : ℕ) (t : Timer) (m : List (ℕ × Timer)) (f : Front q t n m)
      → Cut P g (next_of q m) (n - g (q, t)) (erase q m)
  drop-Cut n q t m f = record {
    passed = f.passed;
    ahead = f.ahead;
    parts = f.rest;
    at = f.next;
    done = f.done;
    light = omega (arith, f.light);
  }
