-- ===== src/Epoll/Loop.antt =====
-- epoll_server.cc: the callbacks of the descriptors that are ready. `none` is also a use of an entry
-- that is gone, or of a null callback.
pub mod Shrinks
pub mod Turns
pub mod Ends
pub mod Events
pub mod Calls
use cmuquic.Prelude.{
  ℕ, zero, suc, bit_or, Bool, true, false, Option, none, some, List, [], ◌∷◌, ◌==◌, if◌then◌else◌,
  length, ◌>>=◌,
}
use cmuquic.Prelude.Assoc.{lookup, erase}
use cmuquic.Epoll.Data.{
  Entry, EpollServer, Poll, Command, register, unregister, modify, set_ready, set_not_ready,
  EventReaction, returns, commands,
}
use cmuquic.Epoll.Registry.{
  with_world, put, add_to_ready_list, remove_from_ready_list, register_fd, unregister_fd, modify_fd,
  set_fd_ready, set_fd_not_ready, handle_event,
}

module _ {W : Type 0} where
  -- The end of a turn: the guard of `in_use` is over, and an entry without a callback goes.
  abbrev pub settle : ℕ → ℕ → Entry → Option ℕ → EpollServer W → EpollServer W
  settle fd out n none s = record s { cb_map = erase fd s.cb_map }
  settle fd out n (some cb) s =
      let n' = record n { in_use = false } in
      let s' = put fd n' s in
      if out == 0 then s' else add_to_ready_list fd (record n' { events_to_fake = out }) s'

  -- What `CallReadyListCallbacks` does after `OnEvent` has returned.
  unfoldable pub after_event : ℕ → ℕ → EpollServer W → Option (EpollServer W)
  after_event fd out s = elim (lookup fd s.cb_map) [
    | none ↦ none
    | some n ↦ some (settle fd out n n.cb s)
  ]

  -- The events that `epoll_wait` reports, one after the other.
  unfoldable pub handle_events : List (ℕ × ℕ) → EpollServer W → EpollServer W
  handle_events [] s = s
  handle_events ((fd, mask) ∷ events) s = handle_events events (handle_event fd mask s)

module _ {W : Type 0} (K : Poll W) where
  unfoldable pub obey : Command → EpollServer W → Option (EpollServer W)
  obey (register fd cb mask) s = register_fd K fd cb mask s
  obey (unregister fd) s = unregister_fd K fd s
  obey (modify fd remove add) s = modify_fd K fd remove add s
  obey (set_ready fd events) s = some (set_fd_ready fd events s)
  obey (set_not_ready fd) s = some (set_fd_not_ready fd s)

  -- `OnEvent`, with its calls of the server: `out_ready_mask` and the server in the end.
  unfoldable pub run_event : EventReaction W → EpollServer W → Option (ℕ × EpollServer W)
  run_event (returns out w) s = some (out, with_world w s)
  run_event (commands c w next) s = obey c (with_world w s) >>= λ s'. run_event (next s'.world) s'

  -- One descriptor's turn.
  unfoldable pub call_entry : ℕ → Entry → Option ℕ → EpollServer W → Option (EpollServer W)
  call_entry fd n none s = none
  call_entry fd n (some cb) s =
      let s' = remove_from_ready_list fd n s in
      let n' = record n {
        events_asserted = 0;
        events_to_fake = 0;
        in_use = true;
        listed = false;
      } in
      let s'' = put fd n' s' in
      run_event (K.on_event s''.world cb fd (bit_or n.events_asserted n.events_to_fake)) s''
      >>= λ r. after_event fd r.0 r.1

  abbrev pub call_round :
      (EpollServer W → Option (EpollServer W)) → List ℕ → EpollServer W → Option (EpollServer W)
  call_round rounds [] s = some s
  call_round rounds (fd ∷ fds) s = elim (lookup fd s.cb_map) [
    | none ↦ none
    | some n ↦ call_entry fd n n.cb s >>= rounds
  ]

  -- The loop of `CallReadyListCallbacks`, on fuel.
  unfoldable pub call_loop : ℕ → EpollServer W → Option (EpollServer W)
  call_loop zero s = none
  call_loop (suc fuel) s = call_round (call_loop fuel) s.tmp_list s

  -- `CallReadyListCallbacks`.
  unfoldable pub call_ready_list_callbacks : EpollServer W → Option (EpollServer W)
  call_ready_list_callbacks s =
      call_loop (suc (length s.ready_list))
        (record s { ready_list = s.tmp_list; tmp_list = s.ready_list })

  -- The end of `WaitForEventsAndCallHandleEvents`.
  abbrev pub run_if_ready : List ℕ → EpollServer W → Option (EpollServer W)
  run_if_ready [] s = some s
  run_if_ready (fd ∷ fds) s = call_ready_list_callbacks s

  -- `WaitForEventsAndCallHandleEvents`, from the return of `epoll_wait`.
  unfoldable pub dispatch_events : List (ℕ × ℕ) → EpollServer W → Option (EpollServer W)
  dispatch_events events s = let s' = handle_events events s in run_if_ready s'.ready_list s'
