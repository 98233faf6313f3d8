-- ===== src/Alarms/Loop/Rounds.antt =====
-- epoll_server.cc: the turns of the loop over the alarms.
use cmuquic.Prelude.{
  ℕ, suc, ◌-◌, ◌≡◌, refl, ◌∙◌, sym, ap, Bool, true, false, not, Option, none, some, List, ◌∷◌,
  if◌then◌else◌, ◌>>=◌, arith, Runs, Runs-if,
}
use mathlib.Core.Path.{subst}
use cmuquic.Prelude.Int.{ℤ, pos, ltb_ℤ}
use cmuquic.Prelude.Assoc.{
  contains, erase, contains_of_lookup, lookup-erase, erase-IsDistinct, contains-erase_le,
}
use cmuquic.Epoll.Data.Ready.{has}
use cmuquic.Alarms.Data.{Timer, next_of, Alarms}
use cmuquic.Alarms.Data.Timers.{erase-IsSorted}
use cmuquic.Alarms.Registry.{register_alarm}
use cmuquic.Alarms.Registry.Armed.{Armed, register_alarm-Runs}
use cmuquic.Alarms.Loop.{finish_firing}
use cmuquic.Alarms.Loop.Cuts.{Cut, place-Cut, lighter-Cut}
use cmuquic.Alarms.Loop.Fronts.{Cut-Front, drop-Cut}
use cmuquic.Alarms.Loop.Firings.{Settled, weight, Ready, Turning}

module _ {W : Type 0} (now : ℤ) (R : ℕ → Bool) where
  -- The loop between its turns.
  pub record Looping (i : Option ℕ) (n : ℕ) (s : Alarms W) : Type 0 where
    pub armed : Armed none s
    pub cut : Cut (Settled now R) (weight now s.skipped) i n s.alarm_map
    -- An alarm is skipped only when it returned a time that is due.
    pub allowed : (a : ℕ) → has a s.skipped ≡ true → R a ≡ true

  pub skipped-Armed :
      (f : Option ℕ) (k : List ℕ) (s : Alarms W) → Armed f s → Armed f (record s { skipped = k })
  skipped-Armed f k s v = record {
    sorted = v.sorted;
    distinct = v.distinct;
    simple = v.simple;
    fresh = v.fresh;
    owned = v.owned;
    valid = v.valid;
    active = v.active;
    known = v.known;
  }

  fired-Armed :
      (q : ℕ) (s : Alarms W)
      → Armed (some q) s
      → Armed none (record s { alarm_map = erase q s.alarm_map })
  fired-Armed q s v = record {
    sorted = erase-IsSorted q s.alarm_map v.sorted;
    distinct = erase-IsDistinct q s.alarm_map v.distinct;
    simple = v.simple;
    fresh = λ p h. ground (arith, contains-erase_le q p s.alarm_map, v.fresh p);
    owned = λ p h. ground (arith, lookup-erase q p s.alarm_map v.distinct, v.owned p);
    valid =
        λ b h. ground (arith, v.valid b, lookup-erase q (s.objects b).token s.alarm_map v.distinct);
    active = λ p h. absurd (cc);
    known = v.known;
  }

  dropped-Looping :
      (q : ℕ) (t : Timer) (n : ℕ) (k k' : List ℕ) (s : Alarms W)
      → Turning now R q t n k s
      → ((a : ℕ) → has a k ≡ true → has a k' ≡ true)
      → ((a : ℕ) → has a k' ≡ true → R a ≡ true)
      → Looping
          (next_of q s.alarm_map)
          (n - weight now k (q, t))
          (record s { alarm_map = erase q s.alarm_map; skipped = k' })
  dropped-Looping q t n k k' s h more sk =
      let g = weight now k in
      let m = n - weight now k (q, t) in
      let f = Cut-Front (Settled now R) g n q t s.alarm_map h.cut h.armed.distinct h.found in
      record {
        armed = skipped-Armed none k' _ (fired-Armed q s h.armed);
        cut =
            lighter-Cut (Settled now R) g (weight now k') _ m m _ (λ e. ground (arith, more e.1.cb))
              (omega arith) (drop-Cut (Settled now R) g n q t s.alarm_map f);
        allowed = sk;
      }

  registered-Looping :
      (i : Option ℕ) (a : ℕ) (v : ℤ) (n : ℕ) (s : Alarms W)
      → Looping i n s
      → (s.objects a).registered ≡ false
      → (if ltb_ℤ now v then true else has a s.skipped) ≡ true
      → Runs (λ s'. Looping i (suc n) s') (register_alarm v a s)
  registered-Looping i a v n s h off p =
      let u : Timer = record { time = v; cb = a } in
      let g = weight now s.skipped in
      let (s', e, d) = register_alarm-Runs none v a s h.armed off in
      let c =
        place-Cut (Settled now R) g i n s.next_token u s.alarm_map h.cut
          (ground (arith, p, h.allowed a)) in
      (
        s',
        e,
        record {
          armed = d.armed;
          cut =
              rw (d.grown, d.same)
                (lighter-Cut (Settled now R) g g i _ (suc n) _ (λ e. omega arith)
                  (ground (arith, p)) c);
          allowed = λ b y. h.allowed b (ap (has b) (sym d.same) ∙ y);
        },
      )

  pub finish_firing-Looping :
      (q : ℕ) (t : Timer) (n : ℕ) (v : ℤ) (k : List ℕ) (s : Alarms W)
      → Turning now R q t n k s
      → Ready now R t.cb v s
      → weight now k (q, t) ≡ 2
      → ((a : ℕ) → has a k ≡ true → R a ≡ true)
      → Runs (λ r. Looping r.0 (n - 1) r.1) (finish_firing now q t.cb v s)
  unfolding finish_firing has
  finish_firing-Looping q t n v k s h p two sk =
      Runs-if _ (not (contains q s.alarm_map)) none _
        (λ gone. absurd (ground (arith, contains_of_lookup q s.alarm_map t h.found)))
        (λ here.
          Runs-if _ (ltb_ℤ (pos 0) v) _ (some _)
            (λ again.
              let k' = if ltb_ℤ now v then s.skipped else t.cb ∷ s.skipped in
              let s' = record s { alarm_map = erase q s.alarm_map; skipped = k' } in
              let l =
                dropped-Looping q t n k k' s h (λ a y. ground (arith, y, h.same))
                  (λ a y. ground (arith, y, h.same, sk a, (p again).1)) in
              let f =
                Cut-Front (Settled now R) (weight now k) n q t s.alarm_map h.cut h.armed.distinct
                  h.found in
              let bound : suc (n - weight now k (q, t)) ≡ n - 1 = omega (arith, two, f.light) in
              let (r, e, l') =
                registered-Looping (next_of q s.alarm_map) t.cb v _ s' l (p again).0
                  (ground arith) in
              (
                (next_of q s.alarm_map, r),
                ap (λ o. o >>= λ r. some (next_of q s.alarm_map, r)) e,
                subst (λ x. Looping (next_of q s.alarm_map) x r) bound l',
              ))
            (λ once.
              let l =
                dropped-Looping q t n k s.skipped s h (λ a y. ap (has a) h.same ∙ y)
                  (λ a y. sk a (ap (has a) (sym h.same) ∙ y)) in
              (
                _,
                refl,
                record {
                  armed = l.armed;
                  cut =
                      lighter-Cut _ (weight now s.skipped) _ _ _ (n - 1) _ (λ e. omega arith)
                        (omega (arith, two)) l.cut;
                  allowed = l.allowed;
                },
              )))
