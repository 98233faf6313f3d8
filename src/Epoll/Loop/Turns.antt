-- ===== src/Epoll/Loop/Turns.antt =====
-- epoll_server.cc: one turn of `CallReadyListCallbacks`.
use mathlib.Core.Path.{subst}
use cmuquic.Prelude.{
  ℕ, ◌≤◌, ◌≡◌, refl, Bool, true, false, Option, none, some, List, ◌∷◌, ◌==◌, either_branch, length,
  arith, Runs, Runs->>=, Option-cases, inl, inr,
}
use cmuquic.Prelude.Assoc.{
  lookup, lookup-assign, contains_of_lookup, erase-IsDistinct, lookup-erase,
}
use cmuquic.Epoll.Data.{
  Entry, EpollServer, Poll, Command, register, unregister, modify, set_ready, set_not_ready,
  EventReaction, returns, commands,
}
use cmuquic.Epoll.Data.Ready.{has, delete}
use cmuquic.Epoll.Registry.{
  with_world, put, add_to_ready_list, remove_from_ready_list, set_fd_ready, set_fd_not_ready,
}
use cmuquic.Epoll.Registry.Keeps.{
  is_running, Slot, Consistent, Slot-at, assigned-Consistent, changed-Consistent,
  add_to_ready_list-Consistent, set_fd_ready-Consistent, set_fd_not_ready-Consistent,
}
use cmuquic.Epoll.Registry.Kernel.{PollLaws, register_fd-Runs, unregister_fd-Runs, modify_fd-Runs}
use cmuquic.Epoll.Loop.Shrinks.{Shrinks, obey-Shrinks}
use cmuquic.Epoll.Loop.{obey, run_event, settle, after_event}

tmp_list_kept :
    {W : Type 0} {m : ℕ} (fd : ℕ) (n : Entry) (s : EpollServer W)
    → length s.tmp_list ≤ m
    → length (add_to_ready_list fd n s).tmp_list ≤ m
unfolding add_to_ready_list
tmp_list_kept fd n s h = ground arith

pub tmp_list-removed :
    {W : Type 0} (fd : ℕ) (n : Entry) (fds : List ℕ) (s : EpollServer W)
    → n.listed ≡ true
    → s.tmp_list ≡ fd ∷ fds
    → length (remove_from_ready_list fd n s).tmp_list ≤ length fds
unfolding remove_from_ready_list delete
tmp_list-removed fd n fds s l e =
    let gone : delete fd s.tmp_list ≡ fds = rw e (ground arith) in ground (arith, gone)

module _ {W : Type 0} (watched : W → ℕ → Bool) where
  -- `OnEvent` of a callback leaves the set of watched descriptors to the server.
  abbrev pub Leaves : W → EventReaction W → Type 0
  Leaves w (returns out w') = (q : ℕ) → watched w' q ≡ watched w q
  Leaves w (commands c w' next) =
      ((q : ℕ) → watched w' q ≡ watched w q) × ((after : W) → Leaves after (next after))

  pub with_world-Consistent :
      (r : Option ℕ) (w : W) (s : EpollServer W)
      → ((q : ℕ) → watched w q ≡ watched s.world q)
      → Consistent watched r s
      → Consistent watched r (with_world w s)
  with_world-Consistent r w s same c = record {
    distinct = c.distinct;
    ready = c.ready;
    tmp = c.tmp;
    size = c.size;
    slots = λ q. ground (arith, same q, c.slots q);
  }

  -- The lists change places.
  pub swapped-Consistent :
      (r : Option ℕ) (s : EpollServer W)
      → Consistent watched r s
      → Consistent watched r (record s { ready_list = s.tmp_list; tmp_list = s.ready_list })
  swapped-Consistent r s c = record {
    distinct = c.distinct;
    ready = c.tmp;
    tmp = c.ready;
    size = omega (arith, c.size);
    slots = λ q. ground (arith, c.slots q);
  }

  -- A turn is over, and n descriptors at most are left to call.
  abbrev pub Turn : ℕ → EpollServer W → Type 0
  Turn n s' = Consistent watched none s' × (length s'.tmp_list ≤ n)

  settle-Turn :
      (fd out m : ℕ) (n : Entry) (o : Option ℕ) (s : EpollServer W)
      → Consistent watched (some fd) s
      → length s.tmp_list ≤ m
      → lookup fd s.cb_map ≡ some n
      → n.cb ≡ o
      → Turn m (settle fd out n o s)
  settle-Turn fd out m n none s c h found e =
      let here = Slot-at watched (some fd) fd s (some n) c found in
      (
        changed-Consistent watched (some fd) none fd s _ c (erase-IsDistinct fd s.cb_map c.distinct)
            c.ready c.tmp c.size
            (λ q ne. record {
              running = ground arith;
              entry = ground (arith, lookup-erase fd q s.cb_map c.distinct);
              ready = refl;
              tmp = refl;
              kernel = refl;
            })
            none (ground (arith, lookup-erase fd fd s.cb_map c.distinct)) (ground arith),
        h,
      )
  settle-Turn fd out m n (some cb) s c h found e =
      let here = Slot-at watched (some fd) fd s (some n) c found in
      let n' : Entry = record n { in_use = false } in
      let s' = put fd n' s in
      let c' : Consistent watched none s' =
        assigned-Consistent watched (some fd) none fd n n' s s' c found refl c.ready c.tmp c.size
          (λ q ne. (ground arith, refl, refl, refl)) (ground arith) in
      let found' : lookup fd s'.cb_map ≡ some n' =
        ground (arith, lookup-assign fd fd n' s.cb_map (contains_of_lookup fd s.cb_map n found)) in
      either_branch (Turn m) (out == 0) s' _ (λ quiet. (c', h))
        (λ again. (
          add_to_ready_list-Consistent watched none fd n' (record n' { events_to_fake = out }) s' c'
              found' refl refl refl (ground arith),
          tmp_list_kept fd (record n' { events_to_fake = out }) s' h,
        ))

  pub after_event-Runs :
      (fd out m : ℕ) (s : EpollServer W)
      → Consistent watched (some fd) s
      → length s.tmp_list ≤ m
      → Runs (Turn m) (after_event fd out s)
  unfolding after_event
  after_event-Runs fd out m s c h = elim (Option-cases (lookup fd s.cb_map)) [
    | inl missing ↦ absurd (absent (Slot-at watched (some fd) fd s none c missing))
    | inr (n, found) ↦
        rw (found, after_event) (_, refl, settle-Turn fd out m n n.cb s c h found refl)
  ]
    where
      absent :
          Slot
            (is_running (some fd) fd)
            none
            (has fd s.ready_list)
            (has fd s.tmp_list)
            (watched s.world fd)
          → ⊥
      absent o = ground (arith, o.used)

module _ {W : Type 0} (K : Poll W) (watched : W → ℕ → Bool) (L : PollLaws K watched) where
  obey-Runs :
      (r : Option ℕ) (c : Command) (s : EpollServer W)
      → Consistent watched r s
      → Runs (Consistent watched r) (obey K c s)
  unfolding obey
  obey-Runs r (register fd cb mask) s v = register_fd-Runs K watched L r fd cb mask s v
  obey-Runs r (unregister fd) s v = unregister_fd-Runs K watched L r fd s v
  obey-Runs r (modify fd remove add) s v = modify_fd-Runs K watched L r fd remove add s v
  obey-Runs r (set_ready fd events) s v =
      (set_fd_ready fd events s, refl, set_fd_ready-Consistent watched r fd events s v)
  obey-Runs r (set_not_ready fd) s v =
      (set_fd_not_ready fd s, refl, set_fd_not_ready-Consistent watched r fd s v)

  pub obey-Ends :
      (r : Option ℕ) (c : Command) (s : EpollServer W)
      → Consistent watched r s
      → Runs (λ s'. Consistent watched r s' × (length s'.tmp_list ≤ length s.tmp_list)) (obey K c s)
  obey-Ends r c s v =
      let (s', e, v') = obey-Runs r c s v in (s', e, (v', subst (Shrinks s) e (obey-Shrinks K c s)))

  -- Whatever commands the callback gives, they end, and keep the server consistent.
  pub run_event-Runs :
      (r : Option ℕ) (reaction : EventReaction W) (s : EpollServer W)
      → Leaves watched s.world reaction
      → Consistent watched r s
      → Runs
          (λ p. Consistent watched r p.1 × (length p.1.tmp_list ≤ length s.tmp_list))
          (run_event K reaction s)
  unfolding run_event
  run_event-Runs r (returns out w) s l v =
      ((out, with_world w s), refl, (with_world-Consistent watched r w s l v, omega arith))
  run_event-Runs r (commands c w next) s l v =
      Runs->>= (λ s'. Consistent watched r s' × (length s'.tmp_list ≤ length s.tmp_list)) _ _ _
        (obey-Ends r c (with_world w s) (with_world-Consistent watched r w s l.0 v))
        (λ s' (v', n).
          let (p, e, (v'', n')) = run_event-Runs r (next s'.world) s' (l.1 s'.world) v' in
          (p, e, (v'', omega arith)))
