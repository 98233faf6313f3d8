-- ===== src/Cycle/Shutdown/Released.antt =====
-- epoll_server.cc: no alarm uses the server after its destructor.
use cmuquic.Prelude.{
  ℕ, ◌≡◌, refl, true, false, Option, none, some, List, [], ◌∷◌, ◌==◌, arith, Bool-cases, inl, inr,
}
use cmuquic.Prelude.Assoc.{lookup}
use cmuquic.Epoll.Data.{Entry, EpollServer}
use cmuquic.Alarms.Data.{Timer, EpollAlarm, on_shutdown, Alarms}
use cmuquic.Alarms.Registry.{unregister_if_registered}
use cmuquic.Alarms.Registry.Armed.{Armed, is_of}
use cmuquic.Cycle.Shutdown.{
  tell, cleanup_fds, cleanup_fd_to_cb_map, cleanup_alarms, cleanup_time_to_alarm_cb_map, destroy,
}

cleaned_off :
    (m : List (ℕ × Timer)) (objects : ℕ → EpollAlarm) (a : ℕ)
    → (objects a).registered ≡ false
    → (cleanup_alarms m objects a).registered ≡ false
unfolding on_shutdown
cleaned_off [] objects a h = h
cleaned_off ((q, t) ∷ m) objects a h = cleaned_off m _ a (ground (arith, h))

-- An alarm with an entry is told.
cleaned_of :
    (m : List (ℕ × Timer)) (objects : ℕ → EpollAlarm) (a p : ℕ)
    → is_of a (lookup p m) ≡ true
    → (cleanup_alarms m objects a).registered ≡ false
unfolding on_shutdown lookup
cleaned_of [] objects a p h = absurd (cc)
cleaned_of ((q, t) ∷ m) objects a p h = elim (Bool-cases (t.cb == a)) [
  | inl own ↦ cleaned_off m _ a (ground (arith, own))
  | inr other ↦ cleaned_of m _ a p (ground (arith, other, h))
]

module _ {W : Type 0} (on_fd_shutdown : Alarms W → ℕ → ℕ → Alarms W) (close : W → W)
    (rests : (w : Alarms W) (cb fd : ℕ) → Armed none w → Armed none (on_fd_shutdown w cb fd)) where
  cleanup_fds-Armed :
      (m : List (ℕ × Entry)) (w : Alarms W)
      → Armed none w
      → Armed none (cleanup_fds on_fd_shutdown m w)
  cleanup_fds-Armed [] w v = v
  cleanup_fds-Armed ((fd, n) ∷ m) w v = cleanup_fds-Armed m _ (told n.cb)
    where
      told : (o : Option ℕ) → Armed none (tell on_fd_shutdown o fd w)
      told none = v
      told (some cb) = rests w cb fd v

  -- After the destructor of a server whose alarms satisfy their invariant, no descriptor and no alarm is
  -- left in its maps, and no alarm is registered: the destructor of any alarm, though it comes later, finds
  -- nothing to unregister, and does not use the server.
  pub destroy-unregister_if_registered :
      (s : EpollServer (Alarms W)) (a : ℕ)
      → Armed none s.world
      → let s' = destroy on_fd_shutdown close s in
        (s'.cb_map ≡ [])
        × (s'.world.alarm_map ≡ [])
        × ((s'.world.objects a).registered ≡ false)
        × (unregister_if_registered a s'.world ≡ some s'.world)
  unfolding destroy cleanup_fd_to_cb_map cleanup_time_to_alarm_cb_map unregister_if_registered
  destroy-unregister_if_registered s a v =
      let w = cleanup_fds on_fd_shutdown s.cb_map s.world in
      let v' = cleanup_fds-Armed s.cb_map s.world v in
      let off : (cleanup_alarms w.alarm_map w.objects a).registered ≡ false =
        elim (Bool-cases (w.objects a).registered) [
          | inl on ↦ cleaned_of w.alarm_map w.objects a (w.objects a).token (v'.valid a on).0
          | inr out ↦ cleaned_off w.alarm_map w.objects a out
        ] in
      (refl, refl, off, ground (arith, off))
