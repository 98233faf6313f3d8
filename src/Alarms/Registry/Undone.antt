-- ===== src/Alarms/Registry/Undone.antt =====
-- epoll_server.cc: an alarm that is registered and unregistered again.
use cmuquic.Prelude.{
  ℕ, suc, ◌≡◌, refl, ◌∙◌, ap, false, some, Option, List, [], ◌∷◌, ◌==◌, ◌>>=◌, Runs, arith,
}
use cmuquic.Prelude.Int.{ℤ}
use cmuquic.Prelude.Assoc.{lookup, contains, erase}
use cmuquic.Epoll.Data.Ready.{has, delete}
use cmuquic.Alarms.Data.{Timer, place, on_registration, on_unregistration, Alarms}
use cmuquic.Alarms.Data.Timers.{lookup-place}
use cmuquic.Alarms.Registry.{
  set_object, contains_alarm, register_alarm, unregister_alarm, unregister_if_registered,
}
use cmuquic.Alarms.Registry.Armed.{Armed, fresh-absent}

erase-place :
    (q : ℕ) (t : Timer) (m : List (ℕ × Timer)) → contains q m ≡ false → erase q (place q t m) ≡ m
unfolding erase place contains
erase-place q t [] h = ground arith
erase-place q t ((p, u) ∷ m) h = ground (arith, h, erase-place q t m)

module _ {W : Type 0} (f : Option ℕ) where
  -- The server and the alarm as they were, but for the next token and the alarm's members.
  pub record IsUndone (a : ℕ) (s s' : Alarms W) : Type 0 where
    pub map : s'.alarm_map ≡ s.alarm_map
    pub all : s'.all_alarms ≡ s.all_alarms
    pub skips : s'.skipped ≡ s.skipped
    pub world : s'.world ≡ s.world
    pub off : (s'.objects a).registered ≡ false
    pub others : (b : ℕ) → (a == b) ≡ false → s'.objects b ≡ s.objects b

  -- An alarm that is not registered, and is registered and unregistered again, leaves the map, the set of
  -- alarms and all other alarms as they were, at any time of the loop over the alarms.
  pub register_alarm-unregister_if_registered :
      (time : ℤ) (a : ℕ) (s : Alarms W)
      → Armed f s
      → (s.objects a).registered ≡ false
      → Runs (IsUndone a s) (register_alarm time a s >>= unregister_if_registered a)
  unfolding register_alarm contains_alarm unregister_if_registered unregister_alarm on_registration
      on_unregistration has delete
  register_alarm-unregister_if_registered time a s v off =
      let t : Timer = record { time = time; cb = a } in
      let absent = fresh-absent f s v in
      let new : has a s.all_alarms ≡ false = ground (arith, v.known a, off) in
      let found : lookup s.next_token (place s.next_token t s.alarm_map) ≡ some t =
        ground (arith, lookup-place s.next_token s.next_token t s.alarm_map absent) in
      let s1 : Alarms W = record s {
        alarm_map = place s.next_token t s.alarm_map;
        all_alarms = a ∷ s.all_alarms;
        next_token = suc s.next_token;
        objects = set_object a (on_registration s.next_token (s.objects a)) s.objects;
      } in
      let s2 : Alarms W = record s1 {
        alarm_map = erase s.next_token s1.alarm_map;
        all_alarms = delete a s1.all_alarms;
        objects = set_object a (on_unregistration (s1.objects a)) s1.objects;
      } in
      let in_map : register_alarm time a s ≡ some s1 = ground (arith, new) in
      let own : s1.objects a ≡ on_registration s.next_token (s.objects a) = ground arith in
      let out : unregister_if_registered a s1 ≡ some s2 = ground (arith, own, found) in
      (
        s2,
        ap (λ o. o >>= unregister_if_registered a) in_map ∙ out,
        record {
          map = erase-place s.next_token t s.alarm_map absent;
          all = ground arith;
          skips = refl;
          world = refl;
          off = ground arith;
          others = λ b h. ground (arith, h);
        },
      )
