-- ===== src/Epoll/Loop/Events.antt =====
-- epoll_server.cc: the events that `epoll_wait` reports, and the calls of the callbacks.
use cmuquic.Prelude.{
  ℕ, ◌≡◌, refl, sym, ==_iff, ◌∙◌, Bool, true, false, Option, none, some, List, [], ◌∷◌, ◌==◌,
  if◌then◌else◌, arith, inl, inr, Option-cases, Bool-cases, either_branch, ap,
}
use mathlib.Core.Path.{subst}
use cmuquic.Prelude.Assoc.{lookup, lookup-assign, contains_of_lookup}
use cmuquic.Epoll.Data.{Entry, EpollServer}
use cmuquic.Epoll.Registry.{put, add_to_ready_list, add_if_alive, handle_event}
use cmuquic.Epoll.Loop.{handle_events}

-- The last mask that is reported for a descriptor.
abbrev pub last_mask : ℕ → List (ℕ × ℕ) → Option ℕ
last_mask q [] = none
last_mask q ((fd, mask) ∷ events) = elim (last_mask q events) [
  | none ↦ if fd == q then some mask else none
  | some m ↦ some m
]

-- An entry after a mask was reported for it, if there was one.
abbrev pub asserted : Option ℕ → Entry → Entry
asserted none n = n
asserted (some mask) n = record n { events_asserted = mask; listed = true }

-- Only the entry of a callback is changed.
abbrev pub alive_asserted : Option ℕ → Entry → Option ℕ → Entry
alive_asserted m n none = n
alive_asserted m n (some cb) = asserted m n

abbrev pub marked : Option ℕ → Option Entry → Option Entry
marked m none = none
marked m (some n) = some (alive_asserted m n n.cb)

marked-none : (o : Option Entry) → marked none o ≡ o
marked-none none = refl
marked-none (some n) = by_callback n.cb
  where
    by_callback : (c : Option ℕ) → ◌≡◌ {A = Option Entry} (some (alive_asserted none n c)) (some n)
    by_callback none = refl
    by_callback (some cb) = refl

same_mask : (m : Option ℕ) → m ≡ elim m [ none ↦ none | some x ↦ some x ]
same_mask none = refl
same_mask (some x) = refl

asserted_again :
    (m : Option ℕ) (mask : ℕ) (n : Entry)
    → asserted m (asserted (some mask) n)
      ≡ asserted (elim m [ none ↦ some mask | some x ↦ some x ]) n
asserted_again none mask n = refl
asserted_again (some x) mask n = refl

asserted-cb : (m : Option ℕ) (n : Entry) → (asserted m n).cb ≡ n.cb
asserted-cb none n = refl
asserted-cb (some x) n = refl

marked_again :
    (m : Option ℕ) (mask : ℕ) (o : Option Entry)
    → marked m (marked (some mask) o) ≡ marked (elim m [ none ↦ some mask | some x ↦ some x ]) o
marked_again m mask none = refl
marked_again m mask (some n) = by_callback n.cb refl
  where
    by_callback :
        (c : Option ℕ)
        → n.cb ≡ c
        → marked m (some (alive_asserted (some mask) n c))
          ≡ some (alive_asserted (elim m [ none ↦ some mask | some x ↦ some x ]) n c)
    by_callback none e = ap (λ c. some (alive_asserted m n c)) e
    by_callback (some cb) e =
        ap (λ c. some (alive_asserted m (asserted (some mask) n) c)) e
        ∙ ap some (asserted_again m mask n)

module _ {W : Type 0} where
  lookup-add_to_ready_list :
      (fd q : ℕ) (n n' : Entry) (s : EpollServer W)
      → lookup fd s.cb_map ≡ some n
      → lookup q (add_to_ready_list fd n' s).cb_map
        ≡ (if fd == q then some (record n' { listed = true }) else lookup q s.cb_map)
  unfolding add_to_ready_list
  lookup-add_to_ready_list fd q n n' s found =
      let there = contains_of_lookup fd s.cb_map n found in
      let P : EpollServer W → Type 0 = λ s'.
        lookup q s'.cb_map
        ≡ (if fd == q then some (record n' { listed = true }) else lookup q s.cb_map) in
      either_branch P n'.listed (put fd n' s) _
        (λ linked.
          lookup-assign fd q n' s.cb_map there
          ∙ ap (λ b. if fd == q then some (record n' { listed = b }) else lookup q s.cb_map) linked)
        (λ free. lookup-assign fd q (record n' { listed = true }) s.cb_map there)

  lookup-add_if_alive :
      (fd q : ℕ) (n n' : Entry) (o : Option ℕ) (s : EpollServer W)
      → lookup fd s.cb_map ≡ some n
      → (fd == q) ≡ false
      → lookup q (add_if_alive fd n' o s).cb_map ≡ lookup q s.cb_map
  lookup-add_if_alive fd q n n' none s found other = refl
  lookup-add_if_alive fd q n n' (some cb) s found other =
      lookup-add_to_ready_list fd q n n' s found ∙ ground (arith, other)

  handle_event-other :
      (fd mask q : ℕ) (s : EpollServer W)
      → (fd == q) ≡ false
      → lookup q (handle_event fd mask s).cb_map ≡ lookup q s.cb_map
  unfolding handle_event
  handle_event-other fd mask q s other = elim (Option-cases (lookup fd s.cb_map)) [
    | inl missing ↦ rw (missing, handle_event) refl
    | inr (n, found) ↦
        rw (found, handle_event)
          (lookup-add_if_alive fd q n (record n { events_asserted = mask }) n.cb s found other)
  ]

  lookup-alive :
      (fd mask : ℕ) (n : Entry) (o : Option ℕ) (s : EpollServer W)
      → lookup fd s.cb_map ≡ some n
      → lookup fd (add_if_alive fd (record n { events_asserted = mask }) o s).cb_map
        ≡ some (alive_asserted (some mask) n o)
  lookup-alive fd mask n none s found = found
  lookup-alive fd mask n (some cb) s found =
      lookup-add_to_ready_list fd fd n (record n { events_asserted = mask }) s found ∙ ground arith

  handle_event-own :
      (fd mask : ℕ) (s : EpollServer W)
      → lookup fd (handle_event fd mask s).cb_map ≡ marked (some mask) (lookup fd s.cb_map)
  unfolding handle_event
  handle_event-own fd mask s = elim (Option-cases (lookup fd s.cb_map)) [
    | inl missing ↦ rw (missing, handle_event, missing) refl
    | inr (n, found) ↦ rw (found, handle_event) (lookup-alive fd mask n n.cb s found)
  ]

  -- Each entry after all events.
  pub lookup-handle_events :
      (events : List (ℕ × ℕ)) (q : ℕ) (s : EpollServer W)
      → lookup q (handle_events events s).cb_map ≡ marked (last_mask q events) (lookup q s.cb_map)
  unfolding handle_events
  lookup-handle_events [] q s = sym (marked-none (lookup q s.cb_map))
  lookup-handle_events ((fd, mask) ∷ events) q s =
      lookup-handle_events events q (handle_event fd mask s) ∙ elim (Bool-cases (fd == q)) [
        | inl own ↦
            ap (marked (last_mask q events)) (
              subst
                (λ x.
                  lookup x (handle_event fd mask s).cb_map ≡ marked (some mask) (lookup x s.cb_map))
                ((==_iff fd q).0 own) (handle_event-own fd mask s))
            ∙ marked_again (last_mask q events) mask (lookup q s.cb_map)
            ∙ ap (mask_if (lookup q s.cb_map)) (sym own)
        | inr other ↦
            ap (marked (last_mask q events)) (handle_event-other fd mask q s other)
            ∙ ap (λ m. marked m (lookup q s.cb_map)) (same_mask (last_mask q events))
            ∙ ap (mask_if (lookup q s.cb_map)) (sym other)
      ]
    where
      mask_if : Option Entry → Bool → Option Entry
      mask_if o b =
          marked
            (elim (last_mask q events) [ none ↦ if b then some mask else none | some x ↦ some x ]) o
