-- ===== src/Epoll/Registry/Callbacks.antt =====
-- epoll_server.cc: the callback of a descriptor after a registration.
use cmuquic.Prelude.{
  ℕ, ◌≡◌, refl, ◌∙◌, ap, true, false, not, Option, none, some, [], ◌∷◌, ◌++◌, >>=-eq-some,
  of_eq_some, either_branch, arith, Option-cases, inl, inr,
}
use cmuquic.Prelude.Assoc.{
  lookup, erase, assign, lookup-assign, contains_of_lookup, lookup-erase, lookup-snoc,
  contains-none, IsDistinct, assign-IsDistinct,
}
use cmuquic.Epoll.Data.{Entry, EpollServer, Poll, new_entry}
use cmuquic.Epoll.Registry.{
  with_world, put, remove_from_ready_list, add_fd, mod_fd, del_fd, taken_over, registered,
  register_again, register_fd, unregister_entry, unregister_fd, dropped,
}
use cmuquic.Epoll.Registry.Kernel.{lookup-removed}

-- The callback of an entry, if there is one.
abbrev pub callback_of : Option Entry → Option ℕ
callback_of none = none
callback_of (some n) = n.cb

removed-IsDistinct :
    {W : Type 0} (fd : ℕ) (n : Entry) (s : EpollServer W)
    → IsDistinct s.cb_map
    → IsDistinct (remove_from_ready_list fd n s).cb_map
unfolding remove_from_ready_list
removed-IsDistinct {W} fd n s d =
    either_branch (λ (x : EpollServer W). IsDistinct x.cb_map) n.listed _ (put fd n s)
      (λ linked. assign-IsDistinct fd _ s.cb_map d) (λ free. assign-IsDistinct fd n s.cb_map d)

module _ {W : Type 0} (K : Poll W) where
  abbrev Has : Option ℕ → ℕ → EpollServer W → Type 0
  Has o fd s = callback_of (lookup fd s.cb_map) ≡ o

  register_again-callback :
      (fd cb mask : ℕ) (n : Entry) (o : Option ℕ) (s s' : EpollServer W)
      → lookup fd s.cb_map ≡ some n
      → register_again K fd cb mask n o s ≡ some s'
      → Has (some cb) fd s'
  unfolding register_again add_fd mod_fd
  register_again-callback fd cb mask n (some other) s s' found e =
      let s1 = remove_from_ready_list fd n s in
      let (w, changed, rest) =
        >>=-eq-some (mod_fd K (K.on_unregistration s1.world other fd true) fd mask)
          (λ w. some (
            registered K fd cb mask
              (put fd (taken_over cb mask (record n { listed = false })) (with_world w s1))))
          e in
      let m = (remove_from_ready_list fd n s).cb_map in
      let there = contains_of_lookup fd m _ (lookup-removed fd n s found) in
      of_eq_some (Has (some cb) fd) refl rest (
        ap callback_of
          (lookup-assign fd fd (taken_over cb mask (record n { listed = false })) m there)
        ∙ ground arith)
  register_again-callback fd cb mask n none s s' found e =
      let (w, added, rest) =
        >>=-eq-some (add_fd K s.world fd mask)
          (λ w. some (registered K fd cb mask (put fd (taken_over cb mask n) (with_world w s))))
          e in
      let there = contains_of_lookup fd s.cb_map n found in
      of_eq_some (Has (some cb) fd) refl rest
        (ap callback_of (lookup-assign fd fd (taken_over cb mask n) s.cb_map there) ∙ ground arith)

  -- `RegisterFD` leaves its callback at the descriptor.
  pub register_fd-callback :
      (fd cb mask : ℕ) (s s' : EpollServer W)
      → register_fd K fd cb mask s ≡ some s'
      → Has (some cb) fd s'
  unfolding register_fd new_entry add_fd
  register_fd-callback fd cb mask s s' = elim (Option-cases (lookup fd s.cb_map)) [
    | inr (n, found) ↦
        rw (found, register_fd) (λ e. register_again-callback fd cb mask n n.cb s s' found e)
    | inl missing ↦
        rw (missing, register_fd)
          (λ e.
            let (w, added, rest) =
              >>=-eq-some (add_fd K s.world fd mask)
                (λ w. some (
                  registered K fd cb mask
                    (record s { world = w; cb_map = s.cb_map ++ (fd, new_entry cb mask) ∷ [] })))
                e in
            of_eq_some (Has (some cb) fd) refl rest (
              ap callback_of
                (lookup-snoc fd fd (new_entry cb mask) s.cb_map (contains-none fd s.cb_map missing))
              ∙ ground arith))
  ]

  unregister_entry-callback :
      (fd : ℕ) (n : Entry) (o : Option ℕ) (s s' : EpollServer W)
      → IsDistinct (remove_from_ready_list fd n s).cb_map
      → lookup fd s.cb_map ≡ some n
      → n.cb ≡ o
      → unregister_entry K fd n o s ≡ some s'
      → Has none fd s'
  unfolding unregister_entry del_fd
  unregister_entry-callback fd n none s s' d found e h =
      of_eq_some (Has none fd) refl h (ap callback_of found ∙ e)
  unregister_entry-callback fd n (some cb) s s' d found e h =
      let s1 = remove_from_ready_list fd n s in
      let (w, out, rest) =
        >>=-eq-some (del_fd K s1.world fd)
          (λ w. some (record s1 {
            world = K.on_unregistration w cb fd false;
            cb_map = dropped fd n s1.cb_map;
          }))
          h in
      let m = (remove_from_ready_list fd n s).cb_map in
      let there = contains_of_lookup fd m _ (lookup-removed fd n s found) in
      let gone : Entry = record n {
        cb = none;
        event_mask = 0;
        events_to_fake = 0;
        listed = false;
      } in
      of_eq_some (Has none fd) refl rest (
        either_branch (λ ids. callback_of (lookup fd ids) ≡ none) (not n.in_use) (erase fd m)
          (assign fd gone m) (λ idle. ap callback_of (lookup-erase fd fd m d) ∙ ground arith)
          (λ busy. ap callback_of (lookup-assign fd fd gone m there) ∙ ground arith))

  -- `UnregisterFD` leaves no callback at the descriptor.
  pub unregister_fd-callback :
      (fd : ℕ) (s s' : EpollServer W)
      → IsDistinct s.cb_map
      → unregister_fd K fd s ≡ some s'
      → Has none fd s'
  unfolding unregister_fd
  unregister_fd-callback fd s s' d = elim (Option-cases (lookup fd s.cb_map)) [
    | inr (n, found) ↦
        rw (found, unregister_fd)
          (λ e. unregister_entry-callback fd n n.cb s s' (removed-IsDistinct fd n s d) found refl e)
    | inl missing ↦
        rw (missing, unregister_fd) (λ e. of_eq_some (Has none fd) refl e (ap callback_of missing))
  ]
