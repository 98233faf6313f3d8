-- ===== src/Alarms/Loop/Ends.antt =====
-- epoll_server.cc: `CallAndReregisterAlarmEvents` ends, and leaves no alarm that was due.
use cmuquic.Prelude.{
  ℕ, zero, suc, ◌-◌, ◌*◌, ◌≤◌, ◌<◌, ◌≡◌, refl, sym, Bool, true, false, Option, none, some, List, [],
  ◌∷◌, ◌++◌, length, arith, All, Runs, Runs-if, Runs->>=, Option-cases, inl, inr,
}
use mathlib.Core.Path.{subst}
use cmuquic.Prelude.Int.{ℤ, ltb_ℤ}
use cmuquic.Prelude.Assoc.{lookup}
use cmuquic.Epoll.Data.Ready.{has}
use cmuquic.Alarms.Data.{Timer, Alarms, Firing}
use cmuquic.Alarms.Data.Timers.{NotBefore, IsSorted}
use cmuquic.Alarms.Registry.Armed.{Armed}
use cmuquic.Alarms.Loop.{
  begin_firing, fire, alarm_round, alarm_loop, call_and_reregister_alarm_events,
}
use cmuquic.Alarms.Loop.Cuts.{total, end-Cut, first-Cut, lighter-Cut, contains-Cut}
use cmuquic.Alarms.Loop.Fronts.{Cut-Front, skip-Cut}
use cmuquic.Alarms.Loop.Firings.{
  Settled, weight, IsProper, begin_firing-Armed, Turning, run_firing-Turning,
}
use cmuquic.Alarms.Loop.Rounds.{skipped-Armed, Looping, finish_firing-Looping}

module _ (now : ℤ) (R : ℕ → Bool) where
  All-Settled :
      (t : Timer) (m : List (ℕ × Timer))
      → ltb_ℤ now t.time ≡ true
      → All (NotBefore t) m
      → All (Settled now R) m
  All-Settled t [] late a = tt
  All-Settled t (e ∷ m) late a = (ground (arith, late, a.0), All-Settled t m late a.1)

  -- Behind an entry that is late all entries are.
  All-Settled_at :
      (q : ℕ) (t : Timer) (passed ahead : List (ℕ × Timer))
      → ltb_ℤ now t.time ≡ true
      → All (Settled now R) passed
      → IsSorted (passed ++ (q, t) ∷ ahead)
      → All (Settled now R) (passed ++ (q, t) ∷ ahead)
  All-Settled_at q t [] ahead late a s = (ground (arith, late), All-Settled t ahead late s.0)
  All-Settled_at q t (e ∷ passed) ahead late a s =
      (a.0, All-Settled_at q t passed ahead late a.1 s.1)

  -- What every call of an alarm does.
  abbrev pub HostLaws : {W : Type 0} → (W → ℕ → Firing W) → Type 0
  HostLaws {W} host =
      (s : Alarms W) (q : ℕ) (t : Timer)
      → Armed (some q) s
      → lookup q s.alarm_map ≡ some t
      → (s.objects t.cb).registered ≡ false
      → IsProper now R t.cb (host s.world t.cb) s

  -- How the loop ends: each entry that is left is later than now, or of an alarm of R.
  abbrev pub CaughtUp : {W : Type 0} → Alarms W → Type 0
  CaughtUp s = Armed none s × All (Settled now R) s.alarm_map

module _ {W : Type 0} (host : W → ℕ → Firing W) (now : ℤ) (R : ℕ → Bool)
    (L : HostLaws now R host) where
  fire-Looping :
      (q : ℕ) (t : Timer) (n : ℕ) (s : Alarms W)
      → Looping now R (some q) n s
      → lookup q s.alarm_map ≡ some t
      → weight now s.skipped (q, t) ≡ 2
      → Runs (λ r. Looping now R r.0 (n - 1) r.1) (fire host now q t s)
  unfolding fire begin_firing
  fire-Looping q t n s l found two =
      let s' = begin_firing t.cb s in
      let (armed, off) = begin_firing-Armed q t s l.armed found in
      let turn : Turning now R q t n s.skipped s' = record {
        armed = armed;
        cut = l.cut;
        found = found;
        same = refl;
      } in
      Runs->>= _ _ _ _
        (run_firing-Turning now R (host s'.world t.cb) q t n s.skipped s' turn
          (L s' q t armed found off))
        (λ r (h, p). finish_firing-Looping now R q t n r.0 s.skipped r.1 h p two l.allowed)

  abbrev Ends : ℕ → Type 0
  Ends fuel =
      (i : Option ℕ) (n : ℕ) (s : Alarms W)
      → Looping now R i n s
      → n < fuel
      → Runs (CaughtUp now R) (alarm_loop host now fuel i s)

  alarm_round-Runs :
      (fuel : ℕ) (i : Option ℕ) (n : ℕ) (s : Alarms W)
      → Ends fuel
      → Looping now R i n s
      → n < suc fuel
      → Runs (CaughtUp now R) (alarm_round host now (alarm_loop host now fuel) i s)
  alarm_round-Runs fuel none n s ends l lt =
      (s, refl, (l.armed, end-Cut (Settled now R) (weight now s.skipped) n s.alarm_map l.cut))
  alarm_round-Runs fuel (some q) n s ends l lt =
      let P = Settled now R in
      let g = weight now s.skipped in
      elim (Option-cases (lookup q s.alarm_map)) [
        | inl missing ↦ absurd (contains-Cut P g n q s.alarm_map l.cut missing)
        | inr (t, found) ↦
            rw (found, alarm_round)
              (let f = Cut-Front P g n q t s.alarm_map l.cut l.armed.distinct found in
                Runs-if (CaughtUp now R) (ltb_ℤ now t.time) (some s) _
                  (λ late. (
                    s,
                    refl,
                    (
                      l.armed,
                      subst (All P) (sym f.parts) (
                          All-Settled_at now R q t f.passed f.ahead late f.done
                            (subst IsSorted f.parts l.armed.sorted)),
                    ),
                  ))
                  (λ due.
                    Runs-if (CaughtUp now R) (has t.cb s.skipped) _ _
                      (λ old.
                        ends _ _ s
                          (record {
                            armed = l.armed;
                            cut =
                                skip-Cut P g n q t s.alarm_map f
                                  (ground (arith, l.allowed t.cb old));
                            allowed = l.allowed;
                          })
                          (ground (arith, lt, old, due, f.light)))
                      (λ new.
                        Runs->>= _ _ _ _ (fire-Looping q t n s l found (ground (arith, due, new)))
                          (λ r l'.
                            ends r.0 (n - 1) r.1 l' (ground (arith, lt, due, new, f.light))))))
      ]

  alarm_loop-Runs : (fuel : ℕ) → Ends fuel
  unfolding alarm_loop
  alarm_loop-Runs zero i n s l lt = absurd (omega (arith, lt))
  alarm_loop-Runs (suc fuel) i n s l lt = alarm_round-Runs fuel i n s (alarm_loop-Runs fuel) l lt

  total-weight : (k : List ℕ) (m : List (ℕ × Timer)) → total (weight now k) m ≤ 2 * length m
  total-weight k [] = omega arith
  total-weight k (e ∷ m) = ground (arith, total-weight k m)

  -- If `OnAlarm` keeps its laws, `CallAndReregisterAlarmEvents` ends from a state that satisfies the
  -- invariant of the alarms, and each entry that is left is later than now, or of an alarm of R.
  pub call_and_reregister_alarm_events-Runs :
      (s : Alarms W)
      → Armed none s
      → s.skipped ≡ []
      → Runs
          (λ s'. CaughtUp now R s' × (s'.skipped ≡ []))
          (call_and_reregister_alarm_events host now s)
  unfolding call_and_reregister_alarm_events has
  call_and_reregister_alarm_events-Runs s v e =
      let P = Settled now R in
      let g = weight now s.skipped in
      Runs->>= (CaughtUp now R) _ _ _
        (alarm_loop-Runs _ _ (2 * length s.alarm_map) s
          (record {
            armed = v;
            cut =
                lighter-Cut P g g _ _ _ _ (λ x. omega arith) (total-weight s.skipped s.alarm_map)
                  (first-Cut P g s.alarm_map);
            allowed = λ a h. absurd (ground (arith, e, h));
          })
          (omega arith))
        (λ s' (w, a). (_, refl, ((skipped-Armed now R none [] s' w, a), refl)))
