-- ===== src/Epoll/Data.antt =====
-- The state of the epoll server of epoll_server.{h,cc}.
pub mod Ready
use cmuquic.Prelude.{ℕ, Bool, false, Option, none, some, List, [], ◌∷◌}

-- `CBAndEventMask` without its key, the descriptor: the address of the callback, masks as the bit
-- patterns of ints, and whether the entry is linked into a list (`le_prev` is not null).
pub record Entry : Type 0 where
  pub cb : Option ℕ
  pub event_mask : ℕ
  pub events_asserted : ℕ
  pub events_to_fake : ℕ
  pub in_use : Bool
  pub listed : Bool

-- The members that the descriptors use. The two lists are linked through the entries of the map, so
-- they are lists of its keys.
pub record EpollServer (W : Type 0) : Type 0 where
  pub world : W
  pub cb_map : List (ℕ × Entry)
  pub ready_list : List ℕ
  pub tmp_list : List ℕ
  pub ready_list_size : ℕ

-- The calls of a callback into the server.
pub data Command : Type 0 where
  register : ℕ → ℕ → ℕ → Command
  unregister : ℕ → Command
  modify : ℕ → ℕ → ℕ → Command
  set_ready : ℕ → ℕ → Command
  set_not_ready : ℕ → Command

-- `OnEvent` of a callback: it returns with `out_ready_mask`, or calls the server and goes on.
pub data EventReaction (W : Type 0) : Type 0 where
  returns : ℕ → W → EventReaction W
  commands : Command → W → (W → EventReaction W) → EventReaction W

-- What the server calls: `epoll_ctl` of the stack (`none` when it fails), the callbacks (those of
-- a registration do not call the server), and the constants of the system.
pub record Poll (W : Type 0) : Type 0 where
  pub ctl_add : W → ℕ → ℕ → Option W
  pub ctl_mod : W → ℕ → ℕ → Option W
  pub ctl_del : W → ℕ → Option W
  pub on_registration : W → ℕ → ℕ → ℕ → W
  pub on_modification : W → ℕ → ℕ → ℕ → W
  pub on_unregistration : W → ℕ → ℕ → Bool → W
  pub on_event : W → ℕ → ℕ → ℕ → EventReaction W
  pub epollin : ℕ
  pub epollout : ℕ
  pub epollerr : ℕ
  pub epollhup : ℕ

-- The constructor of an entry.
unfoldable pub new_entry : ℕ → ℕ → Entry
new_entry cb mask = record {
  cb = some cb;
  event_mask = mask;
  events_asserted = 0;
  events_to_fake = 0;
  in_use = false;
  listed = false;
}

-- The constructor of the server.
unfoldable pub init : {W : Type 0} → W → EpollServer W
init w = record { world = w; cb_map = []; ready_list = []; tmp_list = []; ready_list_size = 0 }
