-- ===== src/Alarms/Loop/Turned.antt =====
-- epoll_server.cc: the turns of the loop of `CallAndReregisterAlarmEvents`.
use cmuquic.Prelude.{
  ℕ, zero, suc, ◌≡◌, refl, ◌⊎◌, inl, inr, true, false, Option, none, some, Given, Given-some,
  Given->>=, Given-if, Option-cases,
}
use cmuquic.Prelude.Int.{ℤ, ltb_ℤ}
use cmuquic.Prelude.Assoc.{lookup}
use cmuquic.Epoll.Data.Ready.{has}
use cmuquic.Alarms.Data.{Timer, next_of, Alarms, Firing}
use cmuquic.Alarms.Loop.{run_firing, begin_firing, finish_firing, fire, alarm_round, alarm_loop}

module _ {W : Type 0} (host : W → ℕ → Firing W) (now : ℤ) where
  -- `OnAlarm` of the alarm of an entry runs to its end, and the entry is taken away or registered anew.
  abbrev pub Called : ℕ → Timer → Alarms W → Option ℕ × Alarms W → Type 0
  Called q t s next =
      (r : ℤ × Alarms W) × (run_firing (host s.world t.cb) (begin_firing t.cb s) ≡ some r)
      × (finish_firing now q t.cb r.0 r.1 ≡ some next)

  -- A turn of the loop, for an entry that is due: its alarm is called, or was skipped.
  abbrev pub Turned : Option ℕ → Alarms W → Option ℕ × Alarms W → Type 0
  Turned i s next =
      (q : ℕ) × (t : Timer) × (i ≡ some q)
      × (lookup q s.alarm_map ≡ some t)
      × (ltb_ℤ now t.time ≡ false)
      × ((has t.cb s.skipped ≡ true) × (next ≡ (next_of q s.alarm_map, s))
          ⊎ (has t.cb s.skipped ≡ false) × Called q t s next)

  -- A turn in which the alarm of an entry that is due is called.
  abbrev pub Fires : Option ℕ → Alarms W → Option ℕ × Alarms W → Type 0
  Fires i s next =
      (q : ℕ) × (t : Timer) × (i ≡ some q)
      × (lookup q s.alarm_map ≡ some t)
      × (ltb_ℤ now t.time ≡ false)
      × (has t.cb s.skipped ≡ false)
      × Called q t s next

  -- n such turns, one after the other.
  abbrev pub FiresTimes : ℕ → Option ℕ → Alarms W → Type 0
  FiresTimes zero i s = Unit {0}
  FiresTimes (suc n) i s =
      (next : Option ℕ × Alarms W) × Fires i s next × FiresTimes n next.0 next.1

  -- n turns, one after the other.
  abbrev pub Turns : ℕ → Option ℕ → Alarms W → Option ℕ × Alarms W → Type 0
  Turns zero i s last = last ≡ (i, s)
  Turns (suc n) i s last =
      (next : Option ℕ × Alarms W) × Turned i s next × Turns n next.0 next.1 last

  -- The loop ends at the end of the map, or at an entry that is later than now.
  abbrev pub Over : Option ℕ → Alarms W → Type 0
  Over i s =
      (i ≡ none)
      ⊎ ((q : ℕ) × (t : Timer) × (i ≡ some q)
          × (lookup q s.alarm_map ≡ some t)
          × (ltb_ℤ now t.time ≡ true))

  -- A run of the loop: turns up to its end.
  abbrev pub Ran : Option ℕ → Alarms W → Alarms W → Type 0
  Ran i s s' = (n : ℕ) × (j : Option ℕ) × Turns n i s (j, s') × Over j s'

  pub fire-Called : (q : ℕ) (t : Timer) (s : Alarms W) → Given (Called q t s) (fire host now q t s)
  unfolding fire begin_firing
  fire-Called q t s =
      Given->>= (λ r. run_firing (host s.world t.cb) (begin_firing t.cb s) ≡ some r) (Called q t s)
        _ _ (λ r run. run) (λ r run next last. (r, run, last))

  one_more :
      (i : Option ℕ) (s : Alarms W) (next : Option ℕ × Alarms W) (s' : Alarms W)
      → Turned i s next
      → Ran next.0 next.1 s'
      → Ran i s s'
  one_more i s next s' turn (n, j, turns, over) = (suc n, j, (next, turn, turns), over)

  pub alarm_loop-Ran :
      (fuel : ℕ) (i : Option ℕ) (s : Alarms W) → Given (Ran i s) (alarm_loop host now fuel i s)
  unfolding alarm_loop
  alarm_loop-Ran zero i s = λ s' e. absurd (cc)
  alarm_loop-Ran (suc fuel) none s = Given-some (Ran none s) s (0, none, refl, inl refl)
  alarm_loop-Ran (suc fuel) (some q) s = elim (Option-cases (lookup q s.alarm_map)) [
    | inl missing ↦ rw (missing, alarm_round) (λ s' e. absurd (cc))
    | inr (t, found) ↦
        rw (found, alarm_round)
          (Given-if (Ran (some q) s) (ltb_ℤ now t.time) _ _
            (λ late. Given-some (Ran (some q) s) s (0, some q, refl, inr (q, t, refl, found, late)))
            (λ due.
              Given-if (Ran (some q) s) (has t.cb s.skipped) _ _
                (λ old s' e.
                  one_more (some q) s (next_of q s.alarm_map, s) s'
                    (q, t, refl, found, due, inl (old, refl))
                    (alarm_loop-Ran fuel (next_of q s.alarm_map) s s' e))
                (λ new.
                  Given->>= (Called q t s) (Ran (some q) s) _ _ (fire-Called q t s)
                    (λ next called s' e.
                      one_more (some q) s next s' (q, t, refl, found, due, inr (new, called))
                        (alarm_loop-Ran fuel next.0 next.1 s' e)))))
  ]
