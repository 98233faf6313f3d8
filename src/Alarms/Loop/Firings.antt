-- ===== src/Alarms/Loop/Firings.antt =====
-- epoll_server.cc: what an alarm may do while it is called, in the loop over the alarms.
use cmuquic.Prelude.{
  ℕ, ◌≡◌, refl, ◌∙◌, sym, ap, Bool, true, false, Option, none, some, List, if◌then◌else◌, arith,
  Runs, Option-cases, inl, inr,
}
use mathlib.Core.Path.{subst}
use cmuquic.Prelude.Int.{ℤ, pos, ltb_ℤ}
use cmuquic.Prelude.Assoc.{lookup, contains_of_lookup, lookup-erase}
use cmuquic.Epoll.Data.Ready.{has, has-delete, delete-IsSimple}
use cmuquic.Alarms.Data.{Timer, on_alarm, Alarms, Firing, returns, sets, cancels}
use cmuquic.Alarms.Data.Timers.{lookup-place}
use cmuquic.Alarms.Registry.{with_world, set_impl, cancel_impl}
use cmuquic.Alarms.Registry.Armed.{
  Armed, register_alarm-Runs, unregister_if_registered-Runs, fresh-absent,
}
use cmuquic.Alarms.Loop.{run_firing, begin_firing}
use cmuquic.Alarms.Loop.Cuts.{Cut, place-Cut, erase-Cut}

-- An entry that the loop may leave: it is later than now, or of an alarm that may return a time
-- that is due.
abbrev pub Settled : ℤ → (ℕ → Bool) → ℕ × Timer → Type 0
Settled now R e = (if ltb_ℤ now e.1.time then true else R e.1.cb) ≡ true

-- The turns that an entry still needs, and one for what it may register.
abbrev pub weight : ℤ → List ℕ → ℕ × Timer → ℕ
weight now skipped e = if ltb_ℤ now e.1.time then 0 else if has e.1.cb skipped then 1 else 2

module _ {W : Type 0} where
  -- What `OnAlarm` of an alarm may do: it sets alarms that are not set, to times later than now, and
  -- returns a time only when its own alarm is not set; that time is due only for an alarm of R.
  abbrev pub IsProper : ℤ → (ℕ → Bool) → ℕ → Firing W → Alarms W → Type 0
  IsProper now R a (returns v w) s =
      ltb_ℤ (pos 0) v ≡ true
      → ((s.objects a).registered ≡ false) × ((if ltb_ℤ now v then true else R a) ≡ true)
  IsProper now R a (sets b time w next) s =
      ((s.objects b).registered ≡ false)
      × (ltb_ℤ now time ≡ true)
      × ((s' : Alarms W)
          → set_impl b time (with_world w s) ≡ some s'
          → IsProper now R a (next s'.world) s')
  IsProper now R a (cancels b w next) s =
      (s' : Alarms W)
      → cancel_impl b (with_world w s) ≡ some s'
      → IsProper now R a (next s'.world) s'

  pub with_world-Armed :
      (f : Option ℕ) (w : W) (s : Alarms W) → Armed f s → Armed f (with_world w s)
  with_world-Armed f w s v = record {
    sorted = v.sorted;
    distinct = v.distinct;
    simple = v.simple;
    fresh = v.fresh;
    owned = v.owned;
    valid = v.valid;
    active = v.active;
    known = v.known;
  }

  -- `OnAlarm` begins.
  pub begin_firing-Armed :
      (q : ℕ) (t : Timer) (s : Alarms W)
      → Armed none s
      → lookup q s.alarm_map ≡ some t
      → Armed (some q) (begin_firing t.cb s)
        × (((begin_firing t.cb s).objects t.cb).registered ≡ false)
  unfolding begin_firing on_alarm
  begin_firing-Armed q t s v found = (
    record {
      sorted = v.sorted;
      distinct = v.distinct;
      simple = delete-IsSimple t.cb s.all_alarms v.simple;
      fresh = v.fresh;
      owned = λ p h. elim (Option-cases (lookup p s.alarm_map)) [
        | inl missing ↦ rw missing refl
        | inr (u, there) ↦ rw there (ground (arith, found, there, v.owned q, v.owned p))
      ];
      valid = λ b h. ground (arith, found, v.owned q, v.valid b);
      active = λ p h. ground (arith, contains_of_lookup q s.alarm_map t found);
      known = λ b. ground (arith, v.known b, has-delete t.cb b s.all_alarms v.simple);
    },
    ground arith,
  )

module _ {W : Type 0} (now : ℤ) (R : ℕ → Bool) where
  -- The state while the entry q, which is t, fires and n turns are left.
  pub record Turning (q : ℕ) (t : Timer) (n : ℕ) (k : List ℕ) (s : Alarms W) : Type 0 where
    pub armed : Armed (some q) s
    pub cut : Cut (Settled now R) (weight now k) (some q) n s.alarm_map
    pub found : lookup q s.alarm_map ≡ some t
    pub same : s.skipped ≡ k

  abbrev pub Ready : ℕ → ℤ → Alarms W → Type 0
  Ready a v s =
      ltb_ℤ (pos 0) v ≡ true
      → ((s.objects a).registered ≡ false) × ((if ltb_ℤ now v then true else R a) ≡ true)

  with_world-Turning :
      (w : W) (q : ℕ) (t : Timer) (n : ℕ) (k : List ℕ) (s : Alarms W)
      → Turning q t n k s
      → Turning q t n k (with_world w s)
  with_world-Turning w q t n k s v = record {
    armed = with_world-Armed (some q) w s v.armed;
    cut = v.cut;
    found = v.found;
    same = v.same;
  }

  set_impl-Turning :
      (b : ℕ) (time : ℤ) (q : ℕ) (t : Timer) (n : ℕ) (k : List ℕ) (s : Alarms W)
      → Turning q t n k s
      → (s.objects b).registered ≡ false
      → ltb_ℤ now time ≡ true
      → Runs (Turning q t n k) (set_impl b time s)
  unfolding set_impl
  set_impl-Turning b time q t n k s v off late =
      let u : Timer = record { time = time; cb = b } in
      let (s', e, d) = register_alarm-Runs (some q) time b s v.armed off in
      let absent = fresh-absent (some q) s v.armed in
      let c =
        place-Cut (Settled now R) (weight now k) (some q) n s.next_token u s.alarm_map v.cut
          (ground (arith, late)) in
      let free : weight now k (s.next_token, u) ≡ 0 = ground (arith, late) in
      (
        s',
        e,
        record {
          armed = d.armed;
          cut =
              subst (λ x. Cut (Settled now R) (weight now k) (some q) x s'.alarm_map)
                (omega (arith, free))
                (subst (Cut (Settled now R) (weight now k) (some q) _) (sym d.grown) c);
          found =
              rw (d.grown, lookup-place s.next_token q u s.alarm_map absent)
                (ground (arith, absent, v.found, v.armed.active q));
          same = d.same ∙ v.same;
        },
      )

  cancel_impl-Turning :
      (b : ℕ) (q : ℕ) (t : Timer) (n : ℕ) (k : List ℕ) (s : Alarms W)
      → Turning q t n k s
      → Runs (Turning q t n k) (cancel_impl b s)
  unfolding cancel_impl
  cancel_impl-Turning b q t n k s v =
      let (s', e, d) = unregister_if_registered-Runs (some q) b s v.armed in
      (
        s',
        e,
        elim d.shrunk [
          | inl whole ↦ record {
            armed = d.armed;
            cut = subst (Cut (Settled now R) (weight now k) (some q) n) (sym whole) v.cut;
            found = ap (lookup q) whole ∙ v.found;
            same = d.same ∙ v.same;
          }
          | inr (p, other, less) ↦ record {
            armed = d.armed;
            cut = subst (Cut (Settled now R) (weight now k) (some q) n) (sym less) (
                erase-Cut (Settled now R) (weight now k) (some q) n p s.alarm_map v.cut
                  (ground (arith, other)));
            found =
                rw (less, lookup-erase p q s.alarm_map v.armed.distinct)
                  (ground (arith, other, v.found));
            same = d.same ∙ v.same;
          }
        ],
      )

  pub run_firing-Turning :
      (F : Firing W) (q : ℕ) (t : Timer) (n : ℕ) (k : List ℕ) (s : Alarms W)
      → Turning q t n k s
      → IsProper now R t.cb F s
      → Runs (λ r. Turning q t n k r.1 × Ready t.cb r.0 r.1) (run_firing F s)
  unfolding run_firing
  run_firing-Turning (returns v w) q t n k s h p = (_, refl, (with_world-Turning w q t n k s h, p))
  run_firing-Turning (sets b time w next) q t n k s h (off, late, p) =
      let (s', e, h') =
        set_impl-Turning b time q t n k (with_world w s) (with_world-Turning w q t n k s h) off
          late in
      rw e (run_firing-Turning (next s'.world) q t n k s' h' (p s' e))
  run_firing-Turning (cancels b w next) q t n k s h p =
      let (s', e, h') =
        cancel_impl-Turning b q t n k (with_world w s) (with_world-Turning w q t n k s h) in
      rw e (run_firing-Turning (next s'.world) q t n k s' h' (p s' e))
