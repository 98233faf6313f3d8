-- ===== src/Epoll/Registry/Keeps.antt =====
-- epoll_server.cc: the invariant of the registered descriptors, and that each operation keeps it.
use cmuquic.Prelude.{
  ℕ, ◌+◌, ◌≡◌, refl, Bool, true, false, ◌&&◌, ◌||◌, not, Option, none, some, ◌==◌, if◌then◌else◌,
  either_branch, length, arith, Option-cases, inl, inr, Bool-cases, ==_iff,
}
use mathlib.Core.Path.{subst, ap, ◌∙◌}
use cmuquic.Prelude.Assoc.{
  lookup, assign, IsDistinct, lookup-assign, assign-IsDistinct, contains_of_lookup,
}
use cmuquic.Epoll.Data.{Entry, EpollServer}
use cmuquic.Epoll.Data.Ready.{has, IsSimple, has-delete, delete-IsSimple, length-delete}
use cmuquic.Epoll.Registry.{
  put, add_if_alive, add_to_ready_list, remove_from_ready_list, set_fd_ready, handle_event,
  set_fd_not_ready,
}

abbrev pub has_callback : Option Entry → Bool
has_callback none = false
has_callback (some n) = elim n.cb [ none ↦ false | some cb ↦ true ]

abbrev pub is_listed : Option Entry → Bool
is_listed none = false
is_listed (some n) = n.listed

abbrev pub is_in_use : Option Entry → Bool
is_in_use none = false
is_in_use (some n) = n.in_use

abbrev pub is_left : Option Entry → Bool
is_left none = false
is_left (some n) = elim n.cb [ none ↦ true | some cb ↦ false ]

abbrev pub is_running : Option ℕ → ℕ → Bool
is_running none q = false
is_running (some fd) q = fd == q

-- What holds of a descriptor: of its entry, of whether it is in the two lists and watched by the stack,
-- and of whether its `OnEvent` runs.
pub record Slot (running : Bool) (o : Option Entry) (ready tmp watched : Bool) : Type 0 where
  pub linked : is_listed o ≡ (ready || tmp)
  pub once : (ready && tmp) ≡ false
  pub alive : (is_listed o && not (has_callback o)) ≡ false
  pub kept : (is_left o && not (is_in_use o)) ≡ false
  pub used : is_in_use o ≡ running
  pub kernel : watched ≡ has_callback o

module _ {W : Type 0} (watched : W → ℕ → Bool) where
  -- The server while `OnEvent` runs for a descriptor, or for none.
  pub record Consistent (running : Option ℕ) (s : EpollServer W) : Type 0 where
    pub distinct : IsDistinct s.cb_map
    pub ready : IsSimple s.ready_list
    pub tmp : IsSimple s.tmp_list
    pub size : s.ready_list_size ≡ length s.ready_list + length s.tmp_list
    pub slots :
        (q : ℕ)
        → Slot
            (is_running running q)
            (lookup q s.cb_map)
            (has q s.ready_list)
            (has q s.tmp_list)
            (watched s.world q)

  -- What stays as it is for a descriptor.
  pub record Same (r r' : Option ℕ) (s s' : EpollServer W) (q : ℕ) : Type 0 where
    pub running : is_running r' q ≡ is_running r q
    pub entry : lookup q s'.cb_map ≡ lookup q s.cb_map
    pub ready : has q s'.ready_list ≡ has q s.ready_list
    pub tmp : has q s'.tmp_list ≡ has q s.tmp_list
    pub kernel : watched s'.world q ≡ watched s.world q

  abbrev pub SlotOf : Option ℕ → EpollServer W → ℕ → Type 0
  SlotOf r s q =
      Slot (is_running r q) (lookup q s.cb_map) (has q s.ready_list) (has q s.tmp_list)
        (watched s.world q)

  Same-Slot :
      (r r' : Option ℕ) (s s' : EpollServer W) (q : ℕ)
      → Same r r' s s' q
      → SlotOf r s q
      → SlotOf r' s' q
  Same-Slot r r' s s' q m o = rw (m.running, m.entry, m.ready, m.tmp, m.kernel) o

  -- A step that changes one descriptor at most.
  pub changed-Consistent :
      (r r' : Option ℕ) (fd : ℕ) (s s' : EpollServer W)
      → Consistent r s
      → IsDistinct s'.cb_map
      → IsSimple s'.ready_list
      → IsSimple s'.tmp_list
      → s'.ready_list_size ≡ length s'.ready_list + length s'.tmp_list
      → ((q : ℕ) → (fd == q) ≡ false → Same r r' s s' q)
      → (o : Option Entry) → lookup fd s'.cb_map ≡ o
      → Slot (is_running r' fd) o (has fd s'.ready_list) (has fd s'.tmp_list) (watched s'.world fd)
      → Consistent r' s'
  changed-Consistent r r' fd s s' c d a b z others o e here = record {
    distinct = d;
    ready = a;
    tmp = b;
    size = z;
    slots = λ q. elim (Bool-cases (fd == q)) [
      | inl own ↦ subst (SlotOf r' s') ((==_iff fd q).0 own) (rw e here)
      | inr other ↦ Same-Slot r r' s s' q (others q other) (c.slots q)
    ];
  }

  pub Slot-at :
      (r : Option ℕ) (fd : ℕ) (s : EpollServer W) (o : Option Entry)
      → Consistent r s
      → lookup fd s.cb_map ≡ o
      → Slot (is_running r fd) o (has fd s.ready_list) (has fd s.tmp_list) (watched s.world fd)
  Slot-at r fd s o c e =
      subst
        (λ x.
          Slot (is_running r fd) x (has fd s.ready_list) (has fd s.tmp_list) (watched s.world fd))
        e (c.slots fd)

  -- A step that writes the entry of a descriptor.
  pub assigned-Consistent :
      (r r' : Option ℕ) (fd : ℕ) (n n' : Entry) (s s' : EpollServer W)
      → Consistent r s
      → lookup fd s.cb_map ≡ some n
      → s'.cb_map ≡ assign fd n' s.cb_map
      → IsSimple s'.ready_list
      → IsSimple s'.tmp_list
      → s'.ready_list_size ≡ length s'.ready_list + length s'.tmp_list
      → ((q : ℕ)
          → (fd == q) ≡ false
          → (is_running r' q ≡ is_running r q)
            × (has q s'.ready_list ≡ has q s.ready_list)
            × (has q s'.tmp_list ≡ has q s.tmp_list)
            × (watched s'.world q ≡ watched s.world q))
      → Slot
          (is_running r' fd)
          (some n')
          (has fd s'.ready_list)
          (has fd s'.tmp_list)
          (watched s'.world fd)
      → Consistent r' s'
  assigned-Consistent r r' fd n n' s s' c found e a b z others here =
      let present = contains_of_lookup fd s.cb_map n found in
      let at : (q : ℕ) → lookup q s'.cb_map ≡ (if fd == q then some n' else lookup q s.cb_map) =
        λ q. ap (lookup q) e ∙ lookup-assign fd q n' s.cb_map present in
      changed-Consistent r r' fd s s' c (rw e (assign-IsDistinct fd n' s.cb_map c.distinct)) a b z
        (λ q ne.
          let (p1, p2, p3, p4) = others q ne in
          record { running = p1; entry = ground (arith, at q); ready = p2; tmp = p3; kernel = p4 })
        (some n') (ground (arith, at fd)) here

  pub add_to_ready_list-Consistent :
      (r : Option ℕ) (fd : ℕ) (n n' : Entry) (s : EpollServer W)
      → Consistent r s
      → lookup fd s.cb_map ≡ some n
      → n'.listed ≡ n.listed
      → n'.in_use ≡ n.in_use
      → n'.cb ≡ n.cb
      → has_callback (some n) ≡ true
      → Consistent r (add_to_ready_list fd n' s)
  unfolding add_to_ready_list has
  add_to_ready_list-Consistent r fd n n' s c found l u e h =
      let o = Slot-at r fd s (some n) c found in
      either_branch (Consistent r) n'.listed (put fd n' s) _
        (λ linked.
          assigned-Consistent r r fd n n' s (put fd n' s) c found refl c.ready c.tmp c.size
            (λ q ne. (refl, refl, refl, refl)) (ground arith))
        (λ free.
          assigned-Consistent r r fd n (record n' { listed = true }) s _ c found refl
            (ground (arith, c.ready)) c.tmp (omega (arith, c.size))
            (λ q ne. (refl, ground arith, refl, refl)) (ground arith))

  pub remove_from_ready_list-Consistent :
      (r : Option ℕ) (fd : ℕ) (n : Entry) (s : EpollServer W)
      → Consistent r s
      → lookup fd s.cb_map ≡ some n
      → Consistent r (remove_from_ready_list fd n s)
  unfolding remove_from_ready_list
  remove_from_ready_list-Consistent r fd n s c found =
      let o = Slot-at r fd s (some n) c found in
      let mine = λ (q : ℕ). has-delete fd q s.ready_list c.ready in
      let next = λ (q : ℕ). has-delete fd q s.tmp_list c.tmp in
      either_branch (Consistent r) n.listed _ (put fd n s)
        (λ linked.
          assigned-Consistent r r fd n (record n { listed = false }) s _ c found refl
            (delete-IsSimple fd s.ready_list c.ready) (delete-IsSimple fd s.tmp_list c.tmp)
            (ground (arith, c.size, length-delete fd s.ready_list, length-delete fd s.tmp_list))
            (λ q ne. (refl, ground (arith, mine q), ground (arith, next q), refl))
            (ground (arith, mine fd, next fd)))
        (λ free.
          assigned-Consistent r r fd n n s (put fd n s) c found refl c.ready c.tmp c.size
            (λ q ne. (refl, refl, refl, refl)) o)

  add_if_alive-Consistent :
      (r : Option ℕ) (fd : ℕ) (n n' : Entry) (o : Option ℕ) (s : EpollServer W)
      → Consistent r s
      → lookup fd s.cb_map ≡ some n
      → n.cb ≡ o
      → n'.listed ≡ n.listed
      → n'.in_use ≡ n.in_use
      → n'.cb ≡ n.cb
      → Consistent r (add_if_alive fd n' o s)
  add_if_alive-Consistent r fd n n' none s c found e l u k = c
  add_if_alive-Consistent r fd n n' (some cb) s c found e l u k =
      add_to_ready_list-Consistent r fd n n' s c found l u k (ground arith)

  -- `SetFDReady`, `HandleEvent` and `SetFDNotReady` keep the server consistent, for any descriptor.
  pub set_fd_ready-Consistent :
      (r : Option ℕ) (fd events : ℕ) (s : EpollServer W)
      → Consistent r s
      → Consistent r (set_fd_ready fd events s)
  unfolding set_fd_ready
  set_fd_ready-Consistent r fd events s c = elim (Option-cases (lookup fd s.cb_map)) [
    | inl missing ↦ rw (missing, set_fd_ready) c
    | inr (n, found) ↦
        rw (found, set_fd_ready)
          (add_if_alive-Consistent r fd n (record n { events_to_fake = events }) n.cb s c found refl
            refl refl refl)
  ]

  pub handle_event-Consistent :
      (r : Option ℕ) (fd events : ℕ) (s : EpollServer W)
      → Consistent r s
      → Consistent r (handle_event fd events s)
  unfolding handle_event
  handle_event-Consistent r fd events s c = elim (Option-cases (lookup fd s.cb_map)) [
    | inl missing ↦ rw (missing, handle_event) c
    | inr (n, found) ↦
        rw (found, handle_event)
          (add_if_alive-Consistent r fd n (record n { events_asserted = events }) n.cb s c found
            refl refl refl refl)
  ]

  pub set_fd_not_ready-Consistent :
      (r : Option ℕ) (fd : ℕ) (s : EpollServer W)
      → Consistent r s
      → Consistent r (set_fd_not_ready fd s)
  unfolding set_fd_not_ready
  set_fd_not_ready-Consistent r fd s c = elim (Option-cases (lookup fd s.cb_map)) [
    | inl missing ↦ rw (missing, set_fd_not_ready) c
    | inr (n, found) ↦
        rw (found, set_fd_not_ready) (remove_from_ready_list-Consistent r fd n s c found)
  ]
