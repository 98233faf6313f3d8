-- ===== src/Epoll/Registry/Kernel.antt =====
-- epoll_server.cc: the registrations in step with `epoll_ctl`.
use cmuquic.Prelude.{
  ℕ, ◌≡◌, refl, ◌∙◌, Bool, true, false, not, Option, none, some, [], ◌∷◌, ◌++◌, ◌==◌, if◌then◌else◌,
  either_branch, arith, Runs, Runs->>=, Option-cases, inl, inr,
}
use cmuquic.Prelude.Assoc.{
  lookup, lookup-assign, contains_of_lookup, erase-IsDistinct, lookup-erase, lookup-snoc,
  contains-none, snoc-IsDistinct,
}
use cmuquic.Epoll.Data.{Entry, EpollServer, Poll, new_entry}
use cmuquic.Epoll.Registry.{
  with_world, put, remove_from_ready_list, add_fd, mod_fd, del_fd, taken_over, registered,
  register_again, register_fd, unregister_entry, unregister_fd, dropped, modified_mask,
  modify_entry, modify_fd,
}
use cmuquic.Epoll.Registry.Keeps.{
  Consistent, Slot-at, assigned-Consistent, changed-Consistent, remove_from_ready_list-Consistent,
}

-- What `epoll_ctl` is documented to do, on the set of watched descriptors: it adds one that is not in
-- the set, and modifies or deletes one that is. The callbacks leave the set as it is.
pub record PollLaws {W : Type 0} (K : Poll W) (watched : W → ℕ → Bool) : Type 0 where
  pub added :
      (w : W) (fd mask : ℕ)
      → watched w fd ≡ false
      → Runs
          (λ w'. (q : ℕ) → watched w' q ≡ (if fd == q then true else watched w q))
          (K.ctl_add w fd mask)
  pub modified :
      (w : W) (fd mask : ℕ)
      → watched w fd ≡ true
      → Runs (λ w'. (q : ℕ) → watched w' q ≡ watched w q) (K.ctl_mod w fd mask)
  pub deleted :
      (w : W) (fd : ℕ)
      → watched w fd ≡ true
      → Runs
          (λ w'. (q : ℕ) → watched w' q ≡ (if fd == q then false else watched w q))
          (K.ctl_del w fd)
  pub registration :
      (w : W) (cb fd mask q : ℕ) → watched (K.on_registration w cb fd mask) q ≡ watched w q
  pub modification :
      (w : W) (cb fd mask q : ℕ) → watched (K.on_modification w cb fd mask) q ≡ watched w q
  pub unregistration :
      (w : W) (cb fd : ℕ) (b : Bool) (q : ℕ)
      → watched (K.on_unregistration w cb fd b) q ≡ watched w q

module _ {W : Type 0} where
  pub lookup-removed :
      (fd : ℕ) (n : Entry) (s : EpollServer W)
      → lookup fd s.cb_map ≡ some n
      → lookup fd (remove_from_ready_list fd n s).cb_map ≡ some (record n { listed = false })
  unfolding remove_from_ready_list
  lookup-removed fd n s found =
      let here = contains_of_lookup fd s.cb_map n found in
      either_branch (λ (x : EpollServer W). lookup fd x.cb_map ≡ some (record n { listed = false }))
        n.listed _ (put fd n s)
        (λ linked. ground (arith, lookup-assign fd fd (record n { listed = false }) s.cb_map here))
        (λ free. ground (arith, lookup-assign fd fd n s.cb_map here))

  pub world-removed :
      (fd : ℕ) (n : Entry) (s : EpollServer W) → (remove_from_ready_list fd n s).world ≡ s.world
  unfolding remove_from_ready_list
  world-removed fd n s =
      either_branch (λ (x : EpollServer W). x.world ≡ s.world) n.listed _ (put fd n s) (λ l. refl)
        (λ f. refl)

module _ {W : Type 0} (K : Poll W) (watched : W → ℕ → Bool) (L : PollLaws K watched)
    (r : Option ℕ) where
  -- A registration that takes over an entry.
  taken_over-Consistent :
      (fd cb mask : ℕ) (n : Entry) (w : W) (s : EpollServer W)
      → Consistent watched r s
      → lookup fd s.cb_map ≡ some n
      → n.listed ≡ false
      → ((q : ℕ) → watched w q ≡ (if fd == q then true else watched s.world q))
      → Consistent watched r
          (registered K fd cb mask (put fd (taken_over cb mask n) (with_world w s)))
  taken_over-Consistent fd cb mask n w s c found free at =
      let o = Slot-at watched r fd s (some n) c found in
      let kernel : (q : ℕ)
          → watched (K.on_registration w cb fd mask) q
            ≡ (if fd == q then true else watched s.world q) =
        λ q. L.registration w cb fd mask q ∙ at q in
      assigned-Consistent watched r r fd n (taken_over cb mask n) s _ c found refl c.ready c.tmp
        c.size (λ q ne. (refl, refl, refl, ground (arith, kernel q))) (ground (arith, kernel fd))

  register_again-Runs :
      (fd cb mask : ℕ) (n : Entry) (o : Option ℕ) (s : EpollServer W)
      → Consistent watched r s
      → lookup fd s.cb_map ≡ some n
      → n.cb ≡ o
      → Runs (Consistent watched r) (register_again K fd cb mask n o s)
  unfolding register_again add_fd mod_fd
  register_again-Runs fd cb mask n none s c found e =
      let here = Slot-at watched r fd s (some n) c found in
      Runs->>= _ (Consistent watched r) _ _ (L.added s.world fd _ (ground (arith, here.kernel)))
        (λ w at.
          (_, refl, taken_over-Consistent fd cb mask n w s c found (ground (arith, here.alive)) at))
  register_again-Runs fd cb mask n (some other) s c found e =
      let s' = remove_from_ready_list fd n s in
      let c' = remove_from_ready_list-Consistent watched r fd n s c found in
      let found' = lookup-removed fd n s found in
      let here = Slot-at watched r fd s' (some (record n { listed = false })) c' found' in
      let w1 = K.on_unregistration s'.world other fd true in
      Runs->>= _ (Consistent watched r) _ _
        (L.modified w1 fd _
          (ground (arith, here.kernel, L.unregistration s'.world other fd true fd)))
        (λ w at. (
          _,
          refl,
          taken_over-Consistent fd cb mask (record n { listed = false }) w s' c' found' refl
              (λ q. ground (arith, at q, here.kernel, L.unregistration s'.world other fd true q)),
        ))

  registered_new-Consistent :
      (fd cb mask : ℕ) (w : W) (s : EpollServer W)
      → Consistent watched r s
      → lookup fd s.cb_map ≡ none
      → ((q : ℕ) → watched w q ≡ (if fd == q then true else watched s.world q))
      → Consistent watched r (
          registered K fd cb mask
            (record s { world = w; cb_map = s.cb_map ++ (fd, new_entry cb mask) ∷ [] }))
  unfolding new_entry
  registered_new-Consistent fd cb mask w s c missing at =
      let o = Slot-at watched r fd s none c missing in
      let fresh = contains-none fd s.cb_map missing in
      let kernel : (q : ℕ)
          → watched (K.on_registration w cb fd mask) q
            ≡ (if fd == q then true else watched s.world q) =
        λ q. L.registration w cb fd mask q ∙ at q in
      changed-Consistent watched r r fd s _ c
        (snoc-IsDistinct fd (new_entry cb mask) s.cb_map fresh c.distinct) c.ready c.tmp c.size
        (λ q ne. record {
          running = refl;
          entry = ground (arith, lookup-snoc fd q (new_entry cb mask) s.cb_map fresh);
          ready = refl;
          tmp = refl;
          kernel = ground (arith, kernel q);
        })
        (some (new_entry cb mask))
        (ground (arith, lookup-snoc fd fd (new_entry cb mask) s.cb_map fresh))
        (ground (arith, kernel fd))

  -- `RegisterFD` keeps the server consistent, and its call of `epoll_ctl` does not fail.
  pub register_fd-Runs :
      (fd cb mask : ℕ) (s : EpollServer W)
      → Consistent watched r s
      → Runs (Consistent watched r) (register_fd K fd cb mask s)
  unfolding register_fd add_fd new_entry
  register_fd-Runs fd cb mask s c = elim (Option-cases (lookup fd s.cb_map)) [
    | inr (n, found) ↦
        rw (found, register_fd) (register_again-Runs fd cb mask n n.cb s c found refl)
    | inl missing ↦
        rw (missing, register_fd)
          (Runs->>= _ (Consistent watched r) _ _
            (L.added s.world fd _ ((Slot-at watched r fd s none c missing).kernel))
            (λ w at. (_, refl, registered_new-Consistent fd cb mask w s c missing at)))
  ]

  dropped-Consistent :
      (fd cb : ℕ) (n : Entry) (w : W) (s : EpollServer W)
      → Consistent watched r s
      → lookup fd s.cb_map ≡ some n
      → n.listed ≡ false
      → ((q : ℕ) → watched w q ≡ (if fd == q then false else watched s.world q))
      → Consistent watched r
          (record s { world = K.on_unregistration w cb fd false; cb_map = dropped fd n s.cb_map })
  dropped-Consistent fd cb n w s c found free at =
      let o = Slot-at watched r fd s (some n) c found in
      let gone : Entry = record n {
        cb = none;
        event_mask = 0;
        events_to_fake = 0;
        listed = false;
      } in
      let kernel : (q : ℕ)
          → watched (K.on_unregistration w cb fd false) q
            ≡ (if fd == q then false else watched s.world q) =
        λ q. L.unregistration w cb fd false q ∙ at q in
      either_branch
        (λ ids.
          Consistent watched r
            (record s { world = K.on_unregistration w cb fd false; cb_map = ids }))
        (not n.in_use) _ _
        (λ idle.
          changed-Consistent watched r r fd s _ c (erase-IsDistinct fd s.cb_map c.distinct) c.ready
            c.tmp c.size
            (λ q ne. record {
              running = refl;
              entry = ground (arith, lookup-erase fd q s.cb_map c.distinct);
              ready = refl;
              tmp = refl;
              kernel = ground (arith, kernel q);
            })
            none (ground (arith, lookup-erase fd fd s.cb_map c.distinct))
            (ground (arith, kernel fd)))
        (λ busy.
          assigned-Consistent watched r r fd n gone s _ c found refl c.ready c.tmp c.size
            (λ q ne. (refl, refl, refl, ground (arith, kernel q))) (ground (arith, kernel fd)))

  unregister_entry-Runs :
      (fd : ℕ) (n : Entry) (o : Option ℕ) (s : EpollServer W)
      → Consistent watched r s
      → lookup fd s.cb_map ≡ some n
      → n.cb ≡ o
      → Runs (Consistent watched r) (unregister_entry K fd n o s)
  unfolding unregister_entry del_fd
  unregister_entry-Runs fd n none s c found e = (s, refl, c)
  unregister_entry-Runs fd n (some cb) s c found e =
      let s' = remove_from_ready_list fd n s in
      let n' : Entry = record n { listed = false } in
      let c' = remove_from_ready_list-Consistent watched r fd n s c found in
      let found' = lookup-removed fd n s found in
      let here = Slot-at watched r fd s' (some n') c' found' in
      Runs->>= _ (Consistent watched r) _ _ (L.deleted s'.world fd (ground (arith, here.kernel)))
        (λ w at. (_, refl, dropped-Consistent fd cb n' w s' c' found' refl at))

  -- `UnregisterFD` keeps the server consistent, and its call of `epoll_ctl` does not fail.
  pub unregister_fd-Runs :
      (fd : ℕ) (s : EpollServer W)
      → Consistent watched r s
      → Runs (Consistent watched r) (unregister_fd K fd s)
  unfolding unregister_fd
  unregister_fd-Runs fd s c = elim (Option-cases (lookup fd s.cb_map)) [
    | inr (n, found) ↦ rw (found, unregister_fd) (unregister_entry-Runs fd n n.cb s c found refl)
    | inl missing ↦ rw (missing, unregister_fd) (s, refl, c)
  ]

  modify_entry-Runs :
      (fd remove add : ℕ) (n : Entry) (o : Option ℕ) (s : EpollServer W)
      → Consistent watched r s
      → lookup fd s.cb_map ≡ some n
      → n.cb ≡ o
      → Runs (Consistent watched r) (modify_entry K fd remove add n o s)
  unfolding modify_entry mod_fd
  modify_entry-Runs fd remove add n none s c found e = (s, refl, c)
  modify_entry-Runs fd remove add n (some cb) s c found e =
      let mask = modified_mask n.event_mask remove add in
      let here = Slot-at watched r fd s (some n) c found in
      Runs->>= _ (Consistent watched r) _ _ (L.modified s.world fd _ (ground (arith, here.kernel)))
        (λ w at. (
          _,
          refl,
          assigned-Consistent watched r r fd n (record n { event_mask = mask }) s _ c found refl
              c.ready c.tmp c.size
              (λ q ne. (refl, refl, refl, L.modification w cb fd mask q ∙ at q))
              (ground (arith, here.kernel, at fd, L.modification w cb fd mask fd)),
        ))

  -- `ModifyFD` keeps the server consistent, and its call of `epoll_ctl` does not fail.
  pub modify_fd-Runs :
      (fd remove add : ℕ) (s : EpollServer W)
      → Consistent watched r s
      → Runs (Consistent watched r) (modify_fd K fd remove add s)
  unfolding modify_fd
  modify_fd-Runs fd remove add s c = elim (Option-cases (lookup fd s.cb_map)) [
    | inr (n, found) ↦ rw (found, modify_fd) (modify_entry-Runs fd remove add n n.cb s c found refl)
    | inl missing ↦ rw (missing, modify_fd) (s, refl, c)
  ]
