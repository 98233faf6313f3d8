-- ===== src/Epoll/Loop/Ends.antt =====
-- epoll_server.cc: `CallReadyListCallbacks` ends, and calls no callback that is gone.
use cmuquic.Prelude.{
  ℕ, zero, suc, ◌≤◌, ◌<◌, ◌≡◌, refl, ◌∙◌, Bool, true, false, Option, none, some, List, [], ◌∷◌,
  length, arith, Runs, Runs->>=, Option-cases, inl, inr,
}
use cmuquic.Prelude.Assoc.{lookup}
use cmuquic.Epoll.Data.{Entry, EpollServer, Poll}
use cmuquic.Epoll.Data.Ready.{has}
use cmuquic.Epoll.Registry.{put, add_to_ready_list, remove_from_ready_list, handle_event}
use cmuquic.Epoll.Registry.Keeps.{
  Consistent, Slot-at, assigned-Consistent, remove_from_ready_list-Consistent,
  handle_event-Consistent,
}
use cmuquic.Epoll.Registry.Kernel.{PollLaws, lookup-removed}
use cmuquic.Epoll.Loop.Turns.{
  tmp_list-removed, swapped-Consistent, after_event-Runs, run_event-Runs, Turn, Leaves,
}
use cmuquic.Epoll.Loop.{
  handle_events, run_if_ready, dispatch_events, call_entry, call_round, call_loop,
  call_ready_list_callbacks,
}

handle_event-tmp :
    {W : Type 0} (fd mask : ℕ) (s : EpollServer W)
    → s.tmp_list ≡ []
    → (handle_event fd mask s).tmp_list ≡ []
unfolding handle_event add_to_ready_list
handle_event-tmp fd mask s e = ground arith

module _ {W : Type 0} (K : Poll W) (watched : W → ℕ → Bool) (L : PollLaws K watched)
    (leaves : (w : W) (cb fd events : ℕ) → Leaves watched w (K.on_event w cb fd events)) where
  call_entry-Runs :
      (fd : ℕ) (n : Entry) (o : Option ℕ) (fds : List ℕ) (s : EpollServer W)
      → Consistent watched none s
      → s.tmp_list ≡ fd ∷ fds
      → lookup fd s.cb_map ≡ some n
      → n.cb ≡ o
      → Runs (Turn watched (length fds)) (call_entry K fd n o s)
  unfolding call_entry has
  call_entry-Runs fd n none fds s c e found k =
      let here = Slot-at watched none fd s (some n) c found in
      let due : has fd s.tmp_list ≡ true = rw e (ground arith) in
      absurd (ground (arith, here.alive, here.linked))
  call_entry-Runs fd n (some cb) fds s c e found k =
      let here = Slot-at watched none fd s (some n) c found in
      let due : has fd s.tmp_list ≡ true = rw e (ground arith) in
      let s' = remove_from_ready_list fd n s in
      let free : Entry = record n { listed = false } in
      let n' : Entry = record n {
        events_asserted = 0;
        events_to_fake = 0;
        in_use = true;
        listed = false;
      } in
      let c' = remove_from_ready_list-Consistent watched none fd n s c found in
      let found' = lookup-removed fd n s found in
      let here' = Slot-at watched none fd s' (some free) c' found' in
      let c'' : Consistent watched (some fd) (put fd n' s') =
        assigned-Consistent watched none (some fd) fd free n' s' (put fd n' s') c' found' refl
          c'.ready c'.tmp c'.size (λ q ne. (ground arith, refl, refl, refl)) (ground arith) in
      let left : length s'.tmp_list ≤ length fds =
        tmp_list-removed fd n fds s (ground (arith, here.linked)) e in
      Runs->>= (λ p. Consistent watched (some fd) p.1 × (length p.1.tmp_list ≤ length s'.tmp_list))
        _ _ _ (run_event-Runs K watched L (some fd) _ (put fd n' s') (leaves s'.world cb fd _) c'')
        (λ p (v, h). after_event-Runs watched fd p.0 (length fds) p.1 v (omega arith))

  -- How the loop ends.
  abbrev pub Called : EpollServer W → Type 0
  Called s = Consistent watched none s × (s.tmp_list ≡ [])

  abbrev Ends : ℕ → Type 0
  Ends fuel =
      (s : EpollServer W)
      → Consistent watched none s
      → length s.tmp_list < fuel
      → Runs Called (call_loop K fuel s)

  call_round-Runs :
      (fuel : ℕ) (fds : List ℕ) (s : EpollServer W)
      → Ends fuel
      → Consistent watched none s
      → s.tmp_list ≡ fds
      → length fds < suc fuel
      → Runs Called (call_round K (call_loop K fuel) fds s)
  unfolding has
  call_round-Runs fuel [] s ih c e h = (s, refl, (c, e))
  call_round-Runs fuel (fd ∷ fds) s ih c e h =
      let due : has fd s.tmp_list ≡ true = rw e (ground arith) in
      elim (Option-cases (lookup fd s.cb_map)) [
        | inl missing ↦
            let here = Slot-at watched none fd s none c missing in
            absurd (ground (arith, here.linked))
        | inr (n, found) ↦
            rw (found, call_round)
              (Runs->>= (Turn watched (length fds)) Called _ _
                (call_entry-Runs fd n n.cb fds s c e found refl)
                (λ s' t. ih s' t.0 (omega (arith, t.1))))
      ]

  call_loop-Runs : (fuel : ℕ) → Ends fuel
  unfolding call_loop
  call_loop-Runs zero s c h = absurd (omega arith)
  call_loop-Runs (suc fuel) s c h = call_round-Runs fuel s.tmp_list s (call_loop-Runs fuel) c refl h

  pub handle_events-Called :
      (events : List (ℕ × ℕ)) (s : EpollServer W) → Called s → Called (handle_events events s)
  unfolding handle_events
  handle_events-Called [] s c = c
  handle_events-Called ((fd, mask) ∷ events) s c =
      handle_events-Called events (handle_event fd mask s)
        (handle_event-Consistent watched none fd mask s c.0, handle_event-tmp fd mask s c.1)

  -- If `OnEvent` of every callback leaves the set of watched descriptors to the server, then
  -- `CallReadyListCallbacks` ends from a consistent server, whatever the callbacks register, unregister,
  -- modify and set ready: as many turns as there are ready descriptors are enough. No entry that is
  -- gone and no null callback is used, no call of `epoll_ctl` fails, and the server is
  -- consistent again, with the ready list as long as its recorded size.
  pub call_ready_list_callbacks-Runs :
      (s : EpollServer W)
      → Consistent watched none s
      → s.tmp_list ≡ []
      → Runs
          (λ s'.
            Consistent watched none s'
            × (s'.tmp_list ≡ [])
            × (s'.ready_list_size ≡ length s'.ready_list))
          (call_ready_list_callbacks K s)
  unfolding call_ready_list_callbacks
  call_ready_list_callbacks-Runs s c e =
      let (s', run, (v, none_left)) =
        call_loop-Runs (suc (length s.ready_list))
          (record s { ready_list = s.tmp_list; tmp_list = s.ready_list })
          (swapped-Consistent watched none s c) (omega arith) in
      (s', run, (v, none_left, v.size ∙ (rw none_left (omega arith))))

  -- The server is consistent after any events, and the calls of what is ready.
  pub dispatch_events-Runs :
      (events : List (ℕ × ℕ)) (s : EpollServer W)
      → Consistent watched none s
      → s.tmp_list ≡ []
      → Runs (λ s'. Consistent watched none s' × (s'.tmp_list ≡ [])) (dispatch_events K events s)
  unfolding dispatch_events
  dispatch_events-Runs events s c e =
      let s' = handle_events events s in
      ready_or_not s'.ready_list s' (handle_events-Called events s (c, e))
    where
      ready_or_not :
          (fds : List ℕ) (s' : EpollServer W) → Called s' → Runs Called (run_if_ready K fds s')
      ready_or_not [] s' v = (s', refl, v)
      ready_or_not (fd ∷ fds) s' v =
          let (t, run, (w, none_left, size)) = call_ready_list_callbacks-Runs s' v.0 v.1 in
          (t, run, (w, none_left))
