-- ===== src/Cycle/Events.antt =====
-- epoll_server.cc: what the callbacks of descriptors keep, the handling of events keeps.
use cmuquic.Prelude.{
  ℕ, zero, suc, bit_or, ◌≡◌, refl, Bool, true, false, Option, none, some, List, [], ◌∷◌,
  >>=-eq-some, of_eq_some, either_branch, length, Option-cases, inl, inr, ◌==◌,
}
use cmuquic.Prelude.Assoc.{lookup}
use cmuquic.Epoll.Data.{
  Entry, EpollServer, Poll, Command, register, unregister, modify, set_ready, set_not_ready,
  EventReaction, returns, commands,
}
use cmuquic.Epoll.Registry.{
  with_world, add_if_alive, add_to_ready_list, remove_from_ready_list, set_fd_ready,
  set_fd_not_ready, handle_event, add_fd, mod_fd, del_fd, register_again, register_fd,
  unregister_entry, unregister_fd, modify_entry, modify_fd,
}
use cmuquic.Epoll.Loop.{
  settle, after_event, handle_events, obey, run_event, call_entry, call_round, call_loop,
  call_ready_list_callbacks, run_if_ready, dispatch_events,
}

module _ {W : Type 0} (I : W → Type 0) where
  -- `OnEvent` keeps a predicate of the world, if the calls of the server in between do.
  abbrev pub EventKeeps : EventReaction W → Type 0
  EventKeeps (returns out w) = I w
  EventKeeps (commands c w next) = I w × ((after : W) → I after → EventKeeps (next after))

  -- What the server calls keeps a predicate of the world.
  pub record PollKeeps (K : Poll W) : Type 0 where
    pub adds : (w w' : W) (fd mask : ℕ) → I w → K.ctl_add w fd mask ≡ some w' → I w'
    pub mods : (w w' : W) (fd mask : ℕ) → I w → K.ctl_mod w fd mask ≡ some w' → I w'
    pub dels : (w w' : W) (fd : ℕ) → I w → K.ctl_del w fd ≡ some w' → I w'
    pub registrations : (w : W) (cb fd mask : ℕ) → I w → I (K.on_registration w cb fd mask)
    pub modifications : (w : W) (cb fd mask : ℕ) → I w → I (K.on_modification w cb fd mask)
    pub unregistrations : (w : W) (cb fd : ℕ) (b : Bool) → I w → I (K.on_unregistration w cb fd b)
    pub events : (w : W) (cb fd mask : ℕ) → I w → EventKeeps (K.on_event w cb fd mask)

  -- A result that is there keeps the predicate.
  abbrev Keeps : Option (EpollServer W) → Type 0
  Keeps o = (s' : EpollServer W) → o ≡ some s' → I s'.world

  Keeps-some : (s : EpollServer W) → I s.world → Keeps (some s)
  Keeps-some s i s' e = of_eq_some (λ (x : EpollServer W). I x.world) refl e i

  world-put_ready :
      (fd : ℕ) (n : Entry) (s : EpollServer W) → I s.world → I (add_to_ready_list fd n s).world
  unfolding add_to_ready_list
  world-put_ready fd n s i =
      either_branch (λ (x : EpollServer W). I x.world) n.listed _ _ (λ h. i) (λ h. i)

  world-removed :
      (fd : ℕ) (n : Entry) (s : EpollServer W) → I s.world → I (remove_from_ready_list fd n s).world
  unfolding remove_from_ready_list
  world-removed fd n s i =
      either_branch (λ (x : EpollServer W). I x.world) n.listed _ _ (λ h. i) (λ h. i)

  world-alive :
      (fd : ℕ) (n : Entry) (o : Option ℕ) (s : EpollServer W)
      → I s.world
      → I (add_if_alive fd n o s).world
  world-alive fd n none s i = i
  world-alive fd n (some cb) s i = world-put_ready fd n s i

  world-set_fd_ready :
      (fd mask : ℕ) (s : EpollServer W) → I s.world → I (set_fd_ready fd mask s).world
  unfolding set_fd_ready
  world-set_fd_ready fd mask s i = elim (Option-cases (lookup fd s.cb_map)) [
    | inl missing ↦ rw (missing, set_fd_ready) i
    | inr (n, found) ↦ rw (found, set_fd_ready) (world-alive fd _ n.cb s i)
  ]

  world-handle_event :
      (fd mask : ℕ) (s : EpollServer W) → I s.world → I (handle_event fd mask s).world
  unfolding handle_event
  world-handle_event fd mask s i = elim (Option-cases (lookup fd s.cb_map)) [
    | inl missing ↦ rw (missing, handle_event) i
    | inr (n, found) ↦ rw (found, handle_event) (world-alive fd _ n.cb s i)
  ]

  world-set_fd_not_ready :
      (fd : ℕ) (s : EpollServer W) → I s.world → I (set_fd_not_ready fd s).world
  unfolding set_fd_not_ready
  world-set_fd_not_ready fd s i = elim (Option-cases (lookup fd s.cb_map)) [
    | inl missing ↦ rw (missing, set_fd_not_ready) i
    | inr (n, found) ↦ rw (found, set_fd_not_ready) (world-removed fd n s i)
  ]

  world-handle_events :
      (events : List (ℕ × ℕ)) (s : EpollServer W) → I s.world → I (handle_events events s).world
  unfolding handle_events
  world-handle_events [] s i = i
  world-handle_events ((fd, mask) ∷ events) s i =
      world-handle_events events _ (world-handle_event fd mask s i)

  module _ (K : Poll W) (L : PollKeeps K) where
    register_again-Keeps :
        (fd cb mask : ℕ) (n : Entry) (o : Option ℕ) (s : EpollServer W)
        → I s.world
        → Keeps (register_again K fd cb mask n o s)
    unfolding register_again add_fd mod_fd
    register_again-Keeps fd cb mask n (some other) s i s' e =
        let (w, added, rest) = >>=-eq-some _ _ e in
        Keeps-some _
          (L.registrations w cb fd mask
            (L.mods _ w fd _ (L.unregistrations _ other fd true (world-removed fd n s i)) added))
          s' rest
    register_again-Keeps fd cb mask n none s i s' e =
        let (w, added, rest) = >>=-eq-some _ _ e in
        Keeps-some _ (L.registrations w cb fd mask (L.adds _ w fd _ i added)) s' rest

    register_fd-Keeps :
        (fd cb mask : ℕ) (s : EpollServer W) → I s.world → Keeps (register_fd K fd cb mask s)
    unfolding register_fd add_fd
    register_fd-Keeps fd cb mask s i = elim (Option-cases (lookup fd s.cb_map)) [
      | inr (n, found) ↦ rw (found, register_fd) (register_again-Keeps fd cb mask n n.cb s i)
      | inl missing ↦
          rw (missing, register_fd)
            (λ s' e.
              let (w, added, rest) = >>=-eq-some _ _ e in
              Keeps-some _ (L.registrations w cb fd mask (L.adds _ w fd _ i added)) s' rest)
    ]

    unregister_entry-Keeps :
        (fd : ℕ) (n : Entry) (o : Option ℕ) (s : EpollServer W)
        → I s.world
        → Keeps (unregister_entry K fd n o s)
    unfolding unregister_entry del_fd
    unregister_entry-Keeps fd n none s i s' e = Keeps-some s i s' e
    unregister_entry-Keeps fd n (some cb) s i s' e =
        let (w, gone, rest) = >>=-eq-some _ _ e in
        Keeps-some _ (L.unregistrations w cb fd false (L.dels _ w fd (world-removed fd n s i) gone))
          s' rest

    unregister_fd-Keeps : (fd : ℕ) (s : EpollServer W) → I s.world → Keeps (unregister_fd K fd s)
    unfolding unregister_fd
    unregister_fd-Keeps fd s i = elim (Option-cases (lookup fd s.cb_map)) [
      | inr (n, found) ↦ rw (found, unregister_fd) (unregister_entry-Keeps fd n n.cb s i)
      | inl missing ↦ rw (missing, unregister_fd) (Keeps-some s i)
    ]

    modify_entry-Keeps :
        (fd remove add : ℕ) (n : Entry) (o : Option ℕ) (s : EpollServer W)
        → I s.world
        → Keeps (modify_entry K fd remove add n o s)
    unfolding modify_entry mod_fd
    modify_entry-Keeps fd remove add n none s i s' e = Keeps-some s i s' e
    modify_entry-Keeps fd remove add n (some cb) s i s' e =
        let (w, changed, rest) = >>=-eq-some _ _ e in
        Keeps-some _ (L.modifications w cb fd _ (L.mods _ w fd _ i changed)) s' rest

    modify_fd-Keeps :
        (fd remove add : ℕ) (s : EpollServer W) → I s.world → Keeps (modify_fd K fd remove add s)
    unfolding modify_fd
    modify_fd-Keeps fd remove add s i = elim (Option-cases (lookup fd s.cb_map)) [
      | inr (n, found) ↦ rw (found, modify_fd) (modify_entry-Keeps fd remove add n n.cb s i)
      | inl missing ↦ rw (missing, modify_fd) (Keeps-some s i)
    ]

    pub obey-Keeps : (c : Command) (s : EpollServer W) → I s.world → Keeps (obey K c s)
    unfolding obey
    obey-Keeps (register fd cb mask) s i = register_fd-Keeps fd cb mask s i
    obey-Keeps (unregister fd) s i = unregister_fd-Keeps fd s i
    obey-Keeps (modify fd remove add) s i = modify_fd-Keeps fd remove add s i
    obey-Keeps (set_ready fd events) s i = Keeps-some _ (world-set_fd_ready fd events s i)
    obey-Keeps (set_not_ready fd) s i = Keeps-some _ (world-set_fd_not_ready fd s i)

    run_event-Keeps :
        (r : EventReaction W) (s : EpollServer W) (p : ℕ × EpollServer W)
        → EventKeeps r
        → run_event K r s ≡ some p
        → I p.1.world
    unfolding run_event
    run_event-Keeps (returns out w) s p k e =
        of_eq_some (λ (x : ℕ × EpollServer W). I x.1.world) refl e k
    run_event-Keeps (commands c w next) s p k e =
        let (s', obeyed, rest) = >>=-eq-some _ _ e in
        run_event-Keeps (next s'.world) s' p
          (k.1 s'.world (obey-Keeps c (with_world w s) k.0 s' obeyed)) rest

    world-settle :
        (fd out : ℕ) (n : Entry) (o : Option ℕ) (s : EpollServer W)
        → I s.world
        → I (settle fd out n o s).world
    world-settle fd out n none s i = i
    world-settle fd out n (some cb) s i =
        either_branch (λ (x : EpollServer W). I x.world) (out == 0) _ _ (λ h. i)
          (λ h. world-put_ready fd _ _ i)

    after_event-Keeps : (fd out : ℕ) (s : EpollServer W) → I s.world → Keeps (after_event fd out s)
    unfolding after_event
    after_event-Keeps fd out s i = elim (Option-cases (lookup fd s.cb_map)) [
      | inl missing ↦ rw (missing, after_event) (λ s' e. absurd (cc))
      | inr (n, found) ↦ rw (found, after_event) (Keeps-some _ (world-settle fd out n n.cb s i))
    ]

    call_entry-Keeps :
        (fd : ℕ) (n : Entry) (o : Option ℕ) (s : EpollServer W)
        → I s.world
        → Keeps (call_entry K fd n o s)
    unfolding call_entry
    call_entry-Keeps fd n none s i s' e = absurd (cc)
    call_entry-Keeps fd n (some cb) s i s' e =
        let (p, called, rest) = >>=-eq-some _ _ e in
        let k =
          L.events _ cb fd (bit_or n.events_asserted n.events_to_fake) (world-removed fd n s i) in
        after_event-Keeps fd p.0 p.1 (run_event-Keeps _ _ p k called) s' rest

    call_round-Keeps :
        (rounds : EpollServer W → Option (EpollServer W)) (fds : List ℕ) (s : EpollServer W)
        → ((s' : EpollServer W) → I s'.world → Keeps (rounds s'))
        → I s.world
        → Keeps (call_round K rounds fds s)
    call_round-Keeps rounds [] s ih i = Keeps-some s i
    call_round-Keeps rounds (fd ∷ fds) s ih i = elim (Option-cases (lookup fd s.cb_map)) [
      | inl missing ↦ rw (missing, call_round) (λ s' e. absurd (cc))
      | inr (n, found) ↦
          rw (found, call_round)
            (λ s' e.
              let (t, called, rest) = >>=-eq-some _ _ e in
              ih t (call_entry-Keeps fd n n.cb s i t called) s' rest)
    ]

    call_loop-Keeps : (fuel : ℕ) (s : EpollServer W) → I s.world → Keeps (call_loop K fuel s)
    unfolding call_loop
    call_loop-Keeps zero s i s' e = absurd (cc)
    call_loop-Keeps (suc fuel) s i s' e =
        call_round-Keeps _ s.tmp_list s (call_loop-Keeps fuel) i s' e

    run_if_ready-Keeps :
        (fds : List ℕ) (s : EpollServer W) → I s.world → Keeps (run_if_ready K fds s)
    unfolding call_ready_list_callbacks
    run_if_ready-Keeps [] s i = Keeps-some s i
    run_if_ready-Keeps (fd ∷ fds) s i = call_loop-Keeps (suc (length s.ready_list)) _ i

    -- The handling of the events that were reported keeps the predicate.
    pub dispatch_events-Keeps :
        (events : List (ℕ × ℕ)) (s s' : EpollServer W)
        → I s.world
        → dispatch_events K events s ≡ some s'
        → I s'.world
    unfolding dispatch_events
    dispatch_events-Keeps events s s' i e =
        run_if_ready-Keeps (handle_events events s).ready_list _ (world-handle_events events s i) s'
          e
