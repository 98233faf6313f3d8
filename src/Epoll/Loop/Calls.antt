-- ===== src/Epoll/Loop/Calls.antt =====
-- epoll_server.cc: which callbacks are called after the events that `epoll_wait` reports.
use cmuquic.Prelude.{
  ℕ, zero, suc, bit_or, ◌≡◌, refl, Bool, true, false, ◌⊎◌, Option, none, some, List, [], ◌∷◌, arith,
  inl, inr, Option-cases, Runs, Given, Given-some, Given->>=,
}
use cmuquic.Prelude.Assoc.{lookup}
use cmuquic.Epoll.Data.{Entry, EpollServer, Poll}
use cmuquic.Epoll.Data.Ready.{has}
use cmuquic.Epoll.Registry.{put, remove_from_ready_list}
use cmuquic.Epoll.Registry.Keeps.{is_listed, Consistent, Slot-at}
use cmuquic.Epoll.Registry.Kernel.{PollLaws}
use cmuquic.Epoll.Loop.Turns.{Leaves}
use cmuquic.Epoll.Loop.Events.{last_mask, marked, lookup-handle_events}
use cmuquic.Epoll.Loop.Ends.{Called, handle_events-Called, dispatch_events-Runs}
use cmuquic.Epoll.Loop.{
  handle_events, run_event, after_event, call_entry, call_round, call_loop,
  call_ready_list_callbacks, run_if_ready, dispatch_events,
}

module _ {W : Type 0} (K : Poll W) where
  -- The server when the callback of a descriptor is called: its entry is in use, and in no list.
  abbrev pub taken : ℕ → Entry → EpollServer W → EpollServer W
  taken fd n s =
      let s' = remove_from_ready_list fd n s in
      let n' = record n {
        events_asserted = 0;
        events_to_fake = 0;
        in_use = true;
        listed = false;
      } in
      put fd n' s'

  -- `OnEvent` of the callback of an entry runs to its end, with all events of the entry.
  abbrev pub CalledBack : ℕ → Entry → EpollServer W → EpollServer W → Type 0
  CalledBack fd n s next =
      let s' = taken fd n s in
      (cb : ℕ) × (n.cb ≡ some cb)
      × (r : ℕ × EpollServer W) × (run_event K
            (K.on_event s'.world cb fd (bit_or n.events_asserted n.events_to_fake)) s'
          ≡ some r)
      × (after_event fd r.0 r.1 ≡ some next)

  -- The callbacks of descriptors are called, each as it is the first that is left, until none is.
  abbrev pub Turns : List ℕ → EpollServer W → EpollServer W → Type 0
  Turns [] s s' = (s ≡ s') × (s.tmp_list ≡ [])
  Turns (fd ∷ fds) s s' =
      (rest : List ℕ) × (s.tmp_list ≡ fd ∷ rest)
      × (n : Entry) × (lookup fd s.cb_map ≡ some n)
      × (next : EpollServer W) × CalledBack fd n s next
      × Turns fds next s'

  abbrev pub HadTurns : EpollServer W → EpollServer W → Type 0
  HadTurns s s' = (fds : List ℕ) × Turns fds s s'

  call_entry-CalledBack :
      (fd : ℕ) (n : Entry) (o : Option ℕ) (s : EpollServer W)
      → n.cb ≡ o
      → Given (CalledBack fd n s) (call_entry K fd n o s)
  unfolding call_entry
  call_entry-CalledBack fd n none s e = λ s' run. absurd (cc)
  call_entry-CalledBack fd n (some cb) s e =
      Given->>=
        (λ r.
          run_event K
            (K.on_event (taken fd n s).world cb fd (bit_or n.events_asserted n.events_to_fake))
            (taken fd n s)
          ≡ some r)
        (CalledBack fd n s) _ _ (λ r run. run) (λ r run next last. (cb, e, r, run, last))

  one_more :
      (fd : ℕ) (rest : List ℕ) (n : Entry) (s next s' : EpollServer W)
      → s.tmp_list ≡ fd ∷ rest
      → lookup fd s.cb_map ≡ some n
      → CalledBack fd n s next
      → HadTurns next s'
      → HadTurns s s'
  one_more fd rest n s next s' e found called (fds, turns) =
      (fd ∷ fds, (rest, e, n, found, next, called, turns))

  call_round-HadTurns :
      (fuel : ℕ) (list : List ℕ) (s : EpollServer W)
      → ((x : EpollServer W) → Given (HadTurns x) (call_loop K fuel x))
      → s.tmp_list ≡ list
      → Given (HadTurns s) (call_round K (call_loop K fuel) list s)
  call_round-HadTurns fuel [] s rounds e = Given-some (HadTurns s) s ([], (refl, e))
  call_round-HadTurns fuel (fd ∷ rest) s rounds e = elim (Option-cases (lookup fd s.cb_map)) [
    | inl missing ↦ rw (missing, call_round) (λ s' run. absurd (cc))
    | inr (n, found) ↦
        rw (found, call_round)
          (Given->>= (CalledBack fd n s) (HadTurns s) _ _ (call_entry-CalledBack fd n n.cb s refl)
            (λ next called s' run.
              one_more fd rest n s next s' e found called (rounds next s' run)))
  ]

  call_loop-HadTurns : (fuel : ℕ) (s : EpollServer W) → Given (HadTurns s) (call_loop K fuel s)
  unfolding call_loop
  call_loop-HadTurns zero s = λ s' e. absurd (cc)
  call_loop-HadTurns (suc fuel) s =
      call_round-HadTurns fuel s.tmp_list s (call_loop-HadTurns fuel) refl

  -- From the events that were handled: nothing is ready, or the callbacks of what is ready are called.
  abbrev pub CalledReady : EpollServer W → EpollServer W → Type 0
  CalledReady s s' =
      (s.ready_list ≡ []) × (s ≡ s')
      ⊎ HadTurns (record s { ready_list = s.tmp_list; tmp_list = s.ready_list }) s'

  run_if_ready-CalledReady :
      (fds : List ℕ) (s : EpollServer W)
      → s.ready_list ≡ fds
      → Given (CalledReady s) (run_if_ready K fds s)
  unfolding call_ready_list_callbacks
  run_if_ready-CalledReady [] s e = Given-some (CalledReady s) s (inl (e, refl))
  run_if_ready-CalledReady (fd ∷ fds) s e = λ s' run. inr (call_loop-HadTurns _ _ s' run)

-- The entries and the ready list after all events: that of a callback has the last mask that is
-- reported for it, and exactly the descriptors whose entries are listed are ready.
abbrev pub Reported : {W : Type 0} → List (ℕ × ℕ) → EpollServer W → EpollServer W → Type 0
Reported events s s' =
    (q : ℕ)
    → (lookup q s'.cb_map ≡ marked (last_mask q events) (lookup q s.cb_map))
      × (has q s'.ready_list ≡ is_listed (marked (last_mask q events) (lookup q s.cb_map)))

module _ {W : Type 0} (K : Poll W) (watched : W → ℕ → Bool) (L : PollLaws K watched)
    (leaves : (w : W) (cb fd events : ℕ) → Leaves watched w (K.on_event w cb fd events)) where
  handle_events-Reported :
      (events : List (ℕ × ℕ)) (s : EpollServer W)
      → Called K watched L leaves s
      → Reported events s (handle_events events s)
  unfolding has
  handle_events-Reported events s called q =
      let s' = handle_events events s in
      let (c, e) = handle_events-Called K watched L leaves events s called in
      let found = lookup-handle_events events q s in
      let here = Slot-at watched none q s' _ c found in
      let none_left : has q s'.tmp_list ≡ false = rw e refl in
      (found, ground (arith, here.linked, none_left))

  -- If `OnEvent` of every callback leaves the set of watched descriptors to the server, then
  -- `WaitForEventsAndCallHandleEvents` goes on to its end from a consistent server, whatever events the
  -- stack reports, for watched descriptors or not. First the entry of each callback whose descriptor was
  -- reported gets the last mask that was reported for it, and is in the ready list; other entries stay as they
  -- are. Then, unless nothing is ready, one descriptor after the other is taken from the list,
  -- and `OnEvent` of its callback runs to its end with all events of its entry, until none is left. The
  -- server is consistent again.
  pub dispatch_events-Reported :
      (events : List (ℕ × ℕ)) (s : EpollServer W)
      → Consistent watched none s
      → s.tmp_list ≡ []
      → Runs
          (λ s'.
            Consistent watched none s'
            × (s'.tmp_list ≡ [])
            × Reported events s (handle_events events s)
            × CalledReady K (handle_events events s) s')
          (dispatch_events K events s)
  unfolding dispatch_events
  dispatch_events-Reported events s c e =
      let (s', run, (v, none_left)) = dispatch_events-Runs K watched L leaves events s c e in
      (
        s',
        run,
        (
          v,
          none_left,
          handle_events-Reported events s (c, e),
          run_if_ready-CalledReady K _ (handle_events events s) refl s' run,
        ),
      )
