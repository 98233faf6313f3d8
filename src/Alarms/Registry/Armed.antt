-- ===== src/Alarms/Registry/Armed.antt =====
-- epoll_server.cc: the invariant of the alarms, and that the registrations keep it.
use cmuquic.Prelude.{
  ℕ, ◌<◌, ◌≡◌, refl, Bool, true, false, ◌&&◌, not, Option, none, some, ◌==◌, arith, ◌⊎◌, inl, inr,
  Runs, Runs-if, Option-cases, Bool-cases,
}
use cmuquic.Prelude.Int.{ℤ}
use cmuquic.Prelude.Assoc.{
  lookup, contains, erase, IsDistinct, lookup-erase, erase-IsDistinct, contains-erase_le,
  lookup_absent, contains-erase_ne,
}
use cmuquic.Epoll.Data.Ready.{has, delete, IsSimple, has-delete, delete-IsSimple}
use cmuquic.Alarms.Data.{Timer, place, EpollAlarm, on_registration, on_unregistration, Alarms}
use cmuquic.Alarms.Data.Timers.{
  contains-place, place-IsDistinct, lookup-place, IsSorted, place-IsSorted, erase-IsSorted,
}
use cmuquic.Alarms.Registry.{
  set_object, contains_alarm, register_alarm, unregister_alarm, unregister_if_registered,
}

-- Whether an entry is of an alarm.
abbrev pub is_of : ℕ → Option Timer → Bool
is_of a none = false
is_of a (some t) = t.cb == a

-- Whether the alarm of an entry is registered under the entry's token.
abbrev pub is_owned : (ℕ → EpollAlarm) → ℕ → Option Timer → Bool
is_owned objects q none = true
is_owned objects q (some t) = let o = objects t.cb in o.registered && (o.token == q)

-- Whether an entry is the one whose alarm fires.
abbrev pub is_current : Option ℕ → ℕ → Bool
is_current none q = false
is_current (some p) q = p == q

-- The alarms while one of them fires, by its token, or none.
pub record Armed {W : Type 0} (firing : Option ℕ) (s : Alarms W) : Type 0 where
  pub sorted : IsSorted s.alarm_map
  pub distinct : IsDistinct s.alarm_map
  pub simple : IsSimple s.all_alarms
  -- New tokens are new.
  pub fresh : (q : ℕ) → contains q s.alarm_map ≡ true → q < s.next_token
  -- An entry belongs to an alarm that is registered with its token, unless it fires.
  pub owned :
      (q : ℕ) → is_current firing q ≡ false → is_owned s.objects q (lookup q s.alarm_map) ≡ true
  -- The token of a registered alarm is that of an entry of the alarm, which does not fire.
  pub valid :
      (a : ℕ)
      → (s.objects a).registered ≡ true
      → (is_of a (lookup (s.objects a).token s.alarm_map) ≡ true)
        × (is_current firing (s.objects a).token ≡ false)
  pub active : (q : ℕ) → is_current firing q ≡ true → contains q s.alarm_map ≡ true
  pub known : (a : ℕ) → has a s.all_alarms ≡ (s.objects a).registered

module _ {W : Type 0} (f : Option ℕ) where
  -- An entry was added, or one that does not fire was taken away, or none.
  pub record Added (time : ℤ) (a : ℕ) (s s' : Alarms W) : Type 0 where
    pub armed : Armed f s'
    pub grown : s'.alarm_map ≡ place s.next_token (record { time = time; cb = a }) s.alarm_map
    pub same : s'.skipped ≡ s.skipped

  pub record Removed (a : ℕ) (s s' : Alarms W) : Type 0 where
    pub armed : Armed f s'
    pub off : (s'.objects a).registered ≡ false
    pub shrunk :
        (s'.alarm_map ≡ s.alarm_map)
        ⊎ ((q : ℕ) × (is_current f q ≡ false) × (s'.alarm_map ≡ erase q s.alarm_map))
    pub same : s'.skipped ≡ s.skipped

  pub fresh-absent : (s : Alarms W) → Armed f s → contains s.next_token s.alarm_map ≡ false
  fresh-absent s v = elim (Bool-cases (contains s.next_token s.alarm_map)) [
    | inl there ↦ absurd (omega (arith, v.fresh s.next_token there))
    | inr absent ↦ absent
  ]

  -- Between the turns of the loop over the alarms, or while an alarm fires, `RegisterAlarm` of an alarm
  -- that is not registered succeeds and keeps the invariant of the alarms: the map is sorted, new
  -- tokens are new, and the token of a registered alarm is that of its entry. The map has one
  -- more entry, for the alarm and the time.
  pub register_alarm-Runs :
      (time : ℤ) (a : ℕ) (s : Alarms W)
      → Armed f s
      → (s.objects a).registered ≡ false
      → Runs (Added time a s) (register_alarm time a s)
  unfolding register_alarm contains_alarm on_registration has
  register_alarm-Runs time a s v off =
      let t : Timer = record { time = time; cb = a } in
      let absent = fresh-absent s v in
      Runs-if (Added time a s) (has a s.all_alarms) none (some _)
        (λ twice. absurd (ground (arith, v.known a)))
        (λ once. (
          _,
          refl,
          record {
            grown = refl;
            same = refl;
            armed = record {
              sorted = place-IsSorted s.next_token t s.alarm_map v.sorted;
              distinct = place-IsDistinct s.next_token t s.alarm_map absent v.distinct;
              simple = (once, v.simple);
              fresh = λ q h. ground (arith, contains-place s.next_token q t s.alarm_map, v.fresh q);
              owned = λ q h.
                  ground (arith, v.owned q h, lookup-place s.next_token q t s.alarm_map absent);
              valid = λ b h. ground (
                arith,
                v.valid b,
                lookup_absent s.next_token s.alarm_map absent,
                v.active s.next_token,
                lookup-place s.next_token (s.objects b).token t s.alarm_map absent,
                lookup-place s.next_token s.next_token t s.alarm_map absent,
              );
              active =
                  λ q h. ground (arith, v.active q, contains-place s.next_token q t s.alarm_map);
              known = λ b. ground (arith, v.known b);
            };
          },
        ))

  -- An entry goes, with the registration of its alarm.
  unregistered-Armed :
      (q : ℕ) (t : Timer) (s : Alarms W)
      → Armed f s
      → lookup q s.alarm_map ≡ some t
      → (s.objects t.cb).token ≡ q
      → (s.objects t.cb).registered ≡ true
      → Armed f (record s {
        alarm_map = erase q s.alarm_map;
        all_alarms = delete t.cb s.all_alarms;
        objects = set_object t.cb (on_unregistration (s.objects t.cb)) s.objects;
      })
  unfolding on_unregistration
  unregistered-Armed q t s v found own on = record {
    sorted = erase-IsSorted q s.alarm_map v.sorted;
    distinct = erase-IsDistinct q s.alarm_map v.distinct;
    simple = delete-IsSimple t.cb s.all_alarms v.simple;
    fresh = λ p h. ground (arith, contains-erase_le q p s.alarm_map, v.fresh p);
    owned = λ p h. ground (arith, lookup-erase q p s.alarm_map v.distinct, v.owned p h);
    valid = λ b h.
        ground (arith, found, v.valid b, lookup-erase q (s.objects b).token s.alarm_map v.distinct);
    active =
        λ p h. ground (arith, own, v.active p, v.valid t.cb on, contains-erase_ne q p s.alarm_map);
    known = λ b. ground (arith, v.known b, has-delete t.cb b s.all_alarms v.simple);
  }

  -- From any state that satisfies the invariant of the alarms, also while an alarm fires,
  -- `UnregisterIfRegistered` succeeds: the token that the alarm has kept is valid, and is not that of the
  -- entry that fires. The invariant is kept, the alarm is not registered any more, and one entry
  -- at most is gone.
  pub unregister_if_registered-Runs :
      (a : ℕ) (s : Alarms W) → Armed f s → Runs (Removed a s) (unregister_if_registered a s)
  unfolding unregister_if_registered unregister_alarm on_unregistration
  unregister_if_registered-Runs a s v =
      Runs-if (Removed a s) (not (s.objects a).registered) (some s) _
        (λ off. (s, refl, record { armed = v; off = ground arith; shrunk = inl refl; same = refl }))
        (λ on. elim (Option-cases (lookup (s.objects a).token s.alarm_map)) [
          | inl missing ↦ absurd (ground (arith, v.valid a))
          | inr (t, found) ↦
              rw (found, unregister_alarm)
                (
                  _,
                  refl,
                  record {
                    armed =
                        unregistered-Armed (s.objects a).token t s v found
                          (ground (arith, found, v.valid a)) (ground (arith, found, v.valid a));
                    off = ground (arith, found, v.valid a);
                    shrunk = inr ((s.objects a).token, (v.valid a (ground arith)).1, refl);
                    same = refl;
                  },
                )
        ])
