-- ===== src/Epoll/Registry.antt =====
-- epoll_server.cc: how descriptors are registered, and made ready. `none` is a call of `epoll_ctl` that
-- fails, which ends the program.
pub mod Keeps
pub mod Kernel
pub mod Views
pub mod Callbacks
use cmuquic.Prelude.{
  ℕ, ◌+◌, ◌-◌, ◌^◌, bit_and, bit_or, Bool, true, false, ◌&&◌, not, Option, none, some, List, [],
  ◌∷◌, ◌++◌, ◌==◌, if◌then◌else◌, length, ◌>>=◌,
}
use cmuquic.Prelude.Assoc.{lookup, erase, assign}
use cmuquic.Prelude.Int.{ℤ, pos, ◌-ℤ◌}
use cmuquic.Epoll.Data.{Entry, EpollServer, Poll, new_entry}
use cmuquic.Epoll.Data.Ready.{delete}

-- An entry that takes over another registration.
abbrev pub taken_over : ℕ → ℕ → Entry → Entry
taken_over cb mask n = record n { cb = some cb; event_mask = mask; events_to_fake = 0 }

-- The end of `UnregisterFD`: an entry in use stays, without its callback.
abbrev pub dropped : ℕ → Entry → List (ℕ × Entry) → List (ℕ × Entry)
dropped fd n ids =
    if not n.in_use
    then erase fd ids
    else assign fd (record n { cb = none; event_mask = 0; events_to_fake = 0; listed = false }) ids

-- The masks of `ModifyFD`.
unfoldable pub modified_mask : ℕ → ℕ → ℕ → ℕ
modified_mask mask remove add = bit_or (bit_and mask (2 ^ 32 - 1 - remove)) add

module _ {W : Type 0} where
  abbrev pub with_world : W → EpollServer W → EpollServer W
  with_world w s = record s { world = w }

  -- The entry of a descriptor is written.
  abbrev pub put : ℕ → Entry → EpollServer W → EpollServer W
  put fd n s = record s { cb_map = assign fd n s.cb_map }

  -- `AddToReadyList`, for the entry of a descriptor.
  unfoldable pub add_to_ready_list : ℕ → Entry → EpollServer W → EpollServer W
  add_to_ready_list fd n s = if n.listed then put fd n s else record s {
    cb_map = assign fd (record n { listed = true }) s.cb_map;
    ready_list = fd ∷ s.ready_list;
    ready_list_size = s.ready_list_size + 1;
  }

  -- `RemoveFromReadyList`.
  unfoldable pub remove_from_ready_list : ℕ → Entry → EpollServer W → EpollServer W
  remove_from_ready_list fd n s =
      if n.listed
      then record s {
        cb_map = assign fd (record n { listed = false }) s.cb_map;
        ready_list = delete fd s.ready_list;
        tmp_list = delete fd s.tmp_list;
        ready_list_size = s.ready_list_size - 1;
      }
      else put fd n s

  -- `AddToReadyList` under the test on the callback that its callers make.
  abbrev pub add_if_alive : ℕ → Entry → Option ℕ → EpollServer W → EpollServer W
  add_if_alive fd n none s = s
  add_if_alive fd n (some cb) s = add_to_ready_list fd n s

  -- `SetFDReady`.
  unfoldable pub set_fd_ready : ℕ → ℕ → EpollServer W → EpollServer W
  set_fd_ready fd events s = elim (lookup fd s.cb_map) [
    | none ↦ s
    | some n ↦ add_if_alive fd (record n { events_to_fake = events }) n.cb s
  ]

  -- `HandleEvent`.
  unfoldable pub handle_event : ℕ → ℕ → EpollServer W → EpollServer W
  handle_event fd events s = elim (lookup fd s.cb_map) [
    | none ↦ s
    | some n ↦ add_if_alive fd (record n { events_asserted = events }) n.cb s
  ]

  -- `SetFDNotReady`.
  unfoldable pub set_fd_not_ready : ℕ → EpollServer W → EpollServer W
  set_fd_not_ready fd s = elim (lookup fd s.cb_map) [
    | none ↦ s
    | some n ↦ remove_from_ready_list fd n s
  ]

  -- `IsFDReady`.
  unfoldable pub is_fd_ready : ℕ → EpollServer W → Bool
  is_fd_ready fd s = elim (lookup fd s.cb_map) [
    | none ↦ false
    | some n ↦ elim n.cb [ none ↦ false | some cb ↦ n.listed ]
  ]

  -- The test of `VerifyReadyList`.
  unfoldable pub verify_ready_list : EpollServer W → Bool
  verify_ready_list s = s.ready_list_size == length s.ready_list + length s.tmp_list

  -- `NumFDsRegistered`.
  unfoldable pub num_fds_registered : EpollServer W → ℤ
  num_fds_registered s = pos (length s.cb_map) -ℤ pos 1

module _ {W : Type 0} (K : Poll W) where
  -- `AddFD`, `ModFD` and `DelFD`.
  unfoldable pub add_fd : W → ℕ → ℕ → Option W
  add_fd w fd mask = K.ctl_add w fd (bit_or (bit_or mask K.epollerr) K.epollhup)

  unfoldable pub mod_fd : W → ℕ → ℕ → Option W
  mod_fd w fd mask = K.ctl_mod w fd (bit_or (bit_or mask K.epollerr) K.epollhup)

  unfoldable pub del_fd : W → ℕ → Option W
  del_fd w fd = K.ctl_del w fd

  -- The end of `RegisterFD`.
  abbrev pub registered : ℕ → ℕ → ℕ → EpollServer W → EpollServer W
  registered fd cb mask s = with_world (K.on_registration s.world cb fd mask) s

  -- `RegisterFD` for a descriptor with an entry: of a callback, or left by `UnregisterFD`.
  unfoldable pub register_again :
      ℕ → ℕ → ℕ → Entry → Option ℕ → EpollServer W → Option (EpollServer W)
  register_again fd cb mask n (some other) s =
      let s' = remove_from_ready_list fd n s in
      mod_fd (K.on_unregistration s'.world other fd true) fd mask >>= λ w. some (
        registered fd cb mask
          (put fd (taken_over cb mask (record n { listed = false })) (with_world w s')))
  register_again fd cb mask n none s = add_fd s.world fd mask >>= λ w.
      some (registered fd cb mask (put fd (taken_over cb mask n) (with_world w s)))

  -- `RegisterFD`.
  unfoldable pub register_fd : ℕ → ℕ → ℕ → EpollServer W → Option (EpollServer W)
  register_fd fd cb mask s = elim (lookup fd s.cb_map) [
    | some n ↦ register_again fd cb mask n n.cb s
    | none ↦ add_fd s.world fd mask >>= λ w. some (
        registered fd cb mask
          (record s { world = w; cb_map = s.cb_map ++ (fd, new_entry cb mask) ∷ [] }))
  ]

  -- `RegisterFDForRead`, `RegisterFDForWrite`, `RegisterFDForReadWrite`.
  unfoldable pub register_fd_for_read : ℕ → ℕ → EpollServer W → Option (EpollServer W)
  register_fd_for_read fd cb s = register_fd fd cb K.epollin s

  unfoldable pub register_fd_for_write : ℕ → ℕ → EpollServer W → Option (EpollServer W)
  register_fd_for_write fd cb s = register_fd fd cb K.epollout s

  unfoldable pub register_fd_for_read_write : ℕ → ℕ → EpollServer W → Option (EpollServer W)
  register_fd_for_read_write fd cb s = register_fd fd cb (bit_or K.epollin K.epollout) s

  -- `UnregisterFD`, for a registered descriptor.
  unfoldable pub unregister_entry : ℕ → Entry → Option ℕ → EpollServer W → Option (EpollServer W)
  unregister_entry fd n none s = some s
  unregister_entry fd n (some cb) s =
      let s' = remove_from_ready_list fd n s in
      del_fd s'.world fd >>= λ w.
      some
        (record s' { world = K.on_unregistration w cb fd false; cb_map = dropped fd n s'.cb_map })

  -- `UnregisterFD`.
  unfoldable pub unregister_fd : ℕ → EpollServer W → Option (EpollServer W)
  unregister_fd fd s = elim (lookup fd s.cb_map) [
    | none ↦ some s
    | some n ↦ unregister_entry fd n n.cb s
  ]

  -- `ModifyFD`, for a descriptor with an entry.
  unfoldable pub modify_entry :
      ℕ → ℕ → ℕ → Entry → Option ℕ → EpollServer W → Option (EpollServer W)
  modify_entry fd remove add n none s = some s
  modify_entry fd remove add n (some cb) s =
      let mask = modified_mask n.event_mask remove add in
      mod_fd s.world fd mask >>= λ w.
      some (put fd (record n { event_mask = mask }) (with_world (K.on_modification w cb fd mask) s))

  -- `ModifyFD`.
  unfoldable pub modify_fd : ℕ → ℕ → ℕ → EpollServer W → Option (EpollServer W)
  modify_fd fd remove add s = elim (lookup fd s.cb_map) [
    | none ↦ some s
    | some n ↦ modify_entry fd remove add n n.cb s
  ]

  -- `ModifyCallback`, `StopRead`, `StartRead`, `StopWrite`, `StartWrite`.
  unfoldable pub modify_callback : ℕ → ℕ → EpollServer W → Option (EpollServer W)
  modify_callback fd mask s = modify_fd fd (2 ^ 32 - 1) mask s

  unfoldable pub stop_read : ℕ → EpollServer W → Option (EpollServer W)
  stop_read fd s = modify_fd fd K.epollin 0 s

  unfoldable pub start_read : ℕ → EpollServer W → Option (EpollServer W)
  start_read fd s = modify_fd fd 0 K.epollin s

  unfoldable pub stop_write : ℕ → EpollServer W → Option (EpollServer W)
  stop_write fd s = modify_fd fd K.epollout 0 s

  unfoldable pub start_write : ℕ → EpollServer W → Option (EpollServer W)
  start_write fd s = modify_fd fd 0 K.epollout s
