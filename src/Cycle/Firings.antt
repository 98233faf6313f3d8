-- ===== src/Cycle/Firings.antt =====
-- epoll_server.cc: what alarms keep, the loop over the alarms keeps.
use cmuquic.Prelude.{
  ℕ, zero, suc, ◌*◌, ◌≡◌, refl, not, Option, none, some, >>=-eq-some, of_eq_some, either_branch,
  length, Option-cases, inl, inr,
}
use cmuquic.Prelude.Int.{ℤ, pos, ltb_ℤ}
use cmuquic.Prelude.Assoc.{lookup, contains}
use cmuquic.Epoll.Data.Ready.{has}
use cmuquic.Alarms.Data.{Timer, first, Alarms, Firing, returns, sets, cancels}
use cmuquic.Alarms.Registry.{
  with_world, contains_alarm, register_alarm, unregister_alarm, unregister_if_registered, set_impl,
  cancel_impl,
}
use cmuquic.Alarms.Loop.{
  run_firing, begin_firing, finish_firing, fire, alarm_round, alarm_loop,
  call_and_reregister_alarm_events,
}

module _ {W : Type 0} (I : W → Type 0) where
  -- `OnAlarm` keeps a predicate of the world, if the calls of the server in between do.
  abbrev pub FiringKeeps : Firing W → Type 0
  FiringKeeps (returns v w) = I w
  FiringKeeps (sets a time w next) = I w × ((after : W) → I after → FiringKeeps (next after))
  FiringKeeps (cancels a w next) = I w × ((after : W) → I after → FiringKeeps (next after))

  -- A result that is there keeps the predicate.
  abbrev Keeps : Option (Alarms W) → Type 0
  Keeps o = (s' : Alarms W) → o ≡ some s' → I s'.world

  Keeps-some : (s : Alarms W) → I s.world → Keeps (some s)
  Keeps-some s i s' e = of_eq_some (λ (x : Alarms W). I x.world) refl e i

  register_alarm-Keeps :
      (time : ℤ) (a : ℕ) (s : Alarms W) → I s.world → Keeps (register_alarm time a s)
  unfolding register_alarm
  register_alarm-Keeps time a s i =
      either_branch Keeps (contains_alarm a s) _ _ (λ twice s' e. absurd (cc))
        (λ once. Keeps-some _ i)

  unregister_alarm-Keeps : (q : ℕ) (s : Alarms W) → I s.world → Keeps (unregister_alarm q s)
  unfolding unregister_alarm
  unregister_alarm-Keeps q s i = elim (Option-cases (lookup q s.alarm_map)) [
    | inl missing ↦ rw (missing, unregister_alarm) (λ s' e. absurd (cc))
    | inr (t, found) ↦ rw (found, unregister_alarm) (Keeps-some _ i)
  ]

  cancel_impl-Keeps : (a : ℕ) (s : Alarms W) → I s.world → Keeps (cancel_impl a s)
  unfolding cancel_impl unregister_if_registered
  cancel_impl-Keeps a s i =
      either_branch Keeps (not (s.objects a).registered) _ _ (λ off. Keeps-some s i)
        (λ on. unregister_alarm-Keeps (s.objects a).token s i)

  run_firing-Keeps :
      (F : Firing W) (s : Alarms W) (r : ℤ × Alarms W)
      → FiringKeeps F
      → run_firing F s ≡ some r
      → I r.1.world
  unfolding run_firing set_impl
  run_firing-Keeps (returns v w) s r k e = of_eq_some (λ (x : ℤ × Alarms W). I x.1.world) refl e k
  run_firing-Keeps (sets a time w next) s r k e =
      let (s', set, rest) = >>=-eq-some _ _ e in
      run_firing-Keeps (next s'.world) s' r
        (k.1 s'.world (register_alarm-Keeps time a (with_world w s) k.0 s' set)) rest
  run_firing-Keeps (cancels a w next) s r k e =
      let (s', gone, rest) = >>=-eq-some _ _ e in
      run_firing-Keeps (next s'.world) s' r
        (k.1 s'.world (cancel_impl-Keeps a (with_world w s) k.0 s' gone)) rest

  -- A turn of the loop keeps the predicate.
  abbrev TurnKeeps : Option (Option ℕ × Alarms W) → Type 0
  TurnKeeps o = (r : Option ℕ × Alarms W) → o ≡ some r → I r.1.world

  TurnKeeps-some : (i : Option ℕ) (s : Alarms W) → I s.world → TurnKeeps (some (i, s))
  TurnKeeps-some i s k r e = of_eq_some (λ (x : Option ℕ × Alarms W). I x.1.world) refl e k

  finish_firing-Keeps :
      (now : ℤ) (q a : ℕ) (v : ℤ) (s : Alarms W) → I s.world → TurnKeeps (finish_firing now q a v s)
  unfolding finish_firing
  finish_firing-Keeps now q a v s i =
      either_branch TurnKeeps (not (contains q s.alarm_map)) _ _ (λ gone r e. absurd (cc))
        (λ here.
          either_branch TurnKeeps (ltb_ℤ (pos 0) v) _ _
            (λ again r e.
              let (s', set, rest) = >>=-eq-some _ _ e in
              TurnKeeps-some _ s' (register_alarm-Keeps v a _ i s' set) r rest)
            (λ once. TurnKeeps-some _ _ i))

module _ {W : Type 0} (I : W → Type 0) (host : W → ℕ → Firing W) (now : ℤ)
    (L : (w : W) (a : ℕ) → I w → FiringKeeps I (host w a)) where
  fire-Keeps : (q : ℕ) (t : Timer) (s : Alarms W) → I s.world → TurnKeeps I (fire host now q t s)
  unfolding fire begin_firing
  fire-Keeps q t s i r e =
      let (p, called, rest) = >>=-eq-some _ _ e in
      finish_firing-Keeps I now q t.cb p.0 p.1 (run_firing-Keeps I _ _ p (L _ t.cb i) called) r rest

  alarm_round-Keeps :
      (rounds : Option ℕ → Alarms W → Option (Alarms W)) (j : Option ℕ) (s : Alarms W)
      → ((j' : Option ℕ) (s' : Alarms W) → I s'.world → Keeps I (rounds j' s'))
      → I s.world
      → Keeps I (alarm_round host now rounds j s)
  alarm_round-Keeps rounds none s ih i = Keeps-some I s i
  alarm_round-Keeps rounds (some q) s ih i = elim (Option-cases (lookup q s.alarm_map)) [
    | inl missing ↦ rw (missing, alarm_round) (λ s' e. absurd (cc))
    | inr (t, found) ↦
        rw (found, alarm_round)
          (either_branch (Keeps I) (ltb_ℤ now t.time) _ _ (λ late. Keeps-some I s i)
            (λ due.
              either_branch (Keeps I) (has t.cb s.skipped) _ _ (λ old. ih _ s i)
                (λ new s' e.
                  let (r, fired, rest) = >>=-eq-some _ _ e in
                  ih r.0 r.1 (fire-Keeps q t s i r fired) s' rest)))
  ]

  alarm_loop-Keeps :
      (fuel : ℕ) (j : Option ℕ) (s : Alarms W) → I s.world → Keeps I (alarm_loop host now fuel j s)
  unfolding alarm_loop
  alarm_loop-Keeps zero j s i s' e = absurd (cc)
  alarm_loop-Keeps (suc fuel) j s i s' e = alarm_round-Keeps _ j s (alarm_loop-Keeps fuel) i s' e

  -- The loop over the alarms keeps the predicate.
  pub call_and_reregister_alarm_events-Keeps :
      (s s' : Alarms W)
      → I s.world
      → call_and_reregister_alarm_events host now s ≡ some s'
      → I s'.world
  unfolding call_and_reregister_alarm_events
  call_and_reregister_alarm_events-Keeps s s' i e =
      let (t, run, rest) = >>=-eq-some _ _ e in
      Keeps-some I _ (alarm_loop-Keeps (suc (2 * length s.alarm_map)) (first s.alarm_map) s i t run)
        s' rest
