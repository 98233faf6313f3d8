-- ===== src/Epoll/Loop/Shrinks.antt =====
-- epoll_server.cc: the commands of a callback, and the list of the descriptors to call.
use cmuquic.Prelude.{ℕ, ◌≤◌, Option, none, some, List, length, arith}
use cmuquic.Epoll.Data.{
  EpollServer, Poll, Command, register, unregister, modify, set_ready, set_not_ready,
}
use cmuquic.Epoll.Data.Ready.{delete, length-delete}
use cmuquic.Epoll.Registry.{
  add_to_ready_list, remove_from_ready_list, register_again, register_fd, unregister_entry,
  unregister_fd, modify_entry, modify_fd, set_fd_ready, set_fd_not_ready, add_fd, mod_fd, del_fd,
}
use cmuquic.Epoll.Loop.{obey}

length-delete_le : (fd : ℕ) (xs : List ℕ) → length (delete fd xs) ≤ length xs
length-delete_le fd xs = ground (arith, length-delete fd xs)

module _ {W : Type 0} where
  -- If a step goes on, the list that the loop works on has not grown.
  abbrev pub Shrinks : EpollServer W → Option (EpollServer W) → Type 0
  Shrinks s none = Unit {0}
  Shrinks s (some s') = length s'.tmp_list ≤ length s.tmp_list

  pub obey-Shrinks : (K : Poll W) (c : Command) (s : EpollServer W) → Shrinks s (obey K c s)
  unfolding obey register_fd unregister_fd modify_fd set_fd_ready set_fd_not_ready register_again
      unregister_entry modify_entry remove_from_ready_list add_to_ready_list add_fd mod_fd del_fd
  obey-Shrinks K (register fd cb mask) s = ground (arith, length-delete_le fd s.tmp_list)
  obey-Shrinks K (unregister fd) s = ground (arith, length-delete_le fd s.tmp_list)
  obey-Shrinks K (modify fd remove add) s = ground (arith, length-delete_le fd s.tmp_list)
  obey-Shrinks K (set_ready fd events) s = ground (arith, length-delete_le fd s.tmp_list)
  obey-Shrinks K (set_not_ready fd) s = ground (arith, length-delete_le fd s.tmp_list)
