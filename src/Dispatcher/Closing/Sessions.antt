-- ===== src/Dispatcher/Closing/Sessions.antt =====
-- quic_dispatcher.cc: the session map while the library runs.
use cmuquic.Prelude.{
  ℕ, ◌+◌, ◌≤◌, ◌≡◌, refl, Bool, true, false, ◌&&◌, not, arith, ◌⊎◌, inl, inr, Option-cases, Runs,
  Runs->>=, length, if◌then◌else◌,
}
use mathlib.Core.Path.{subst}
use cmuquic.Prelude.Assoc.{
  lookup, contains, contains-none, contains_of_lookup, contains-erase_self, contains-erase_ne,
  contains-erase_le, length-erase, length-erase-le,
}
use cmuquic.Library.{Session, Reaction, done, calls, Callback, connection_closed, session_blocked}
use cmuquic.Dispatcher.Data.{Dispatcher, Host, world, with_world}
use cmuquic.Dispatcher.Invariant.{IsValid, Laws}
use cmuquic.Dispatcher.Closing.{
  retire, on_connection_closed, closed_world, session_on_connection_closed,
  session_on_write_blocked, on_callback, react,
}
use cmuquic.Dispatcher.Closing.Callbacks.{
  cleaned, clean_up_session-eq, cleaned-IsValid, session_on_write_blocked-IsValid,
}

-- The library closes the connection of an id in the course of a reaction.
abbrev pub Closes : {W : Type 0} → ℕ → Reaction W → Type 0
Closes id (done w) = ⊥
Closes id (calls (connection_closed s e p) w next) =
    (s.connection_id ≡ id) ⊎ ((after : _) → Closes id (next after))
Closes id (calls (session_blocked s) w next) = (after : _) → Closes id (next after)

module _ {Time Delta W : Type 0} (k : ℕ) (H : Host Time Delta W) (L : Laws k H) where
  -- Whether the session of an id has gone.
  abbrev pub departed : ℕ → Dispatcher Time Delta W → Dispatcher Time Delta W → ℕ
  departed id d d' = if contains id d.session_map && not (contains id d'.session_map) then 1 else 0

  -- No session is added for an id; the map does not grow, and it shrinks if the id's session goes.
  pub record Loses (id : ℕ) (d d' : Dispatcher Time Delta W) : Type 0 where
    pub valid : IsValid k d'
    pub no_more : length d'.session_map + departed id d d' ≤ length d.session_map
    pub still_out : (contains id d.session_map ≡ true) ⊎ (contains id d'.session_map ≡ false)

  on_connection_closed-Loses :
      (q id error_code : ℕ) (d : Dispatcher Time Delta W)
      → IsValid k d
      → Runs
          (λ d'. Loses q d d' × (contains id d'.session_map ≡ false))
          (on_connection_closed H id error_code d)
  unfolding on_connection_closed retire
  on_connection_closed-Loses q id error_code d v = elim (Option-cases (lookup id d.session_map)) [
    | inl missing ↦
        rw (missing, on_connection_closed)
          (
            d,
            refl,
            (
              record { valid = v; no_more = ground arith; still_out = ground arith },
              contains-none id d.session_map missing,
            ),
          )
    | inr (s, found) ↦
        let d' = retire H s d in
        rw (found, on_connection_closed)
          (
            cleaned k H L id s d',
            clean_up_session-eq k H L id s d',
            (
              record {
                valid = cleaned-IsValid k H L id s d' v;
                no_more = ground (
                  arith,
                  length-erase-le id d.session_map,
                  length-erase id d.session_map (contains_of_lookup id d.session_map s found),
                  contains-erase_ne id q d.session_map,
                );
                still_out = ground (arith, contains-erase_le id q d.session_map);
              },
              contains-erase_self id d.session_map v.distinct,
            ),
          )
  ]

  on_callback-Loses :
      (q : ℕ) (c : Callback) (d : Dispatcher Time Delta W)
      → IsValid k d
      → Runs (Loses q d) (on_callback H c d)
  unfolding on_callback session_on_connection_closed session_on_write_blocked
  on_callback-Loses q (connection_closed s e p) d v =
      let (d', eq, (l, out)) =
        on_connection_closed-Loses q s.connection_id e
          (with_world (closed_world H s e p (world d)) d) v in
      (d', eq, record { valid = l.valid; no_more = l.no_more; still_out = l.still_out })
  on_callback-Loses q (session_blocked s) d v = (
    session_on_write_blocked H s d,
    refl,
    record {
      valid = session_on_write_blocked-IsValid k H L s d v;
      no_more = ground arith;
      still_out = ground arith;
    },
  )

  Loses-trans :
      (q : ℕ) (d d' d'' : Dispatcher Time Delta W) → Loses q d d' → Loses q d' d'' → Loses q d d''
  Loses-trans q d d' d'' p r = record {
    valid = r.valid;
    no_more = ground (arith, p.no_more, r.no_more, p.still_out, r.still_out);
    still_out = ground (arith, p.still_out, r.still_out);
  }

  with_world-Loses :
      (q : ℕ) (w : W) (d d' : Dispatcher Time Delta W) → Loses q (with_world w d) d' → Loses q d d'
  with_world-Loses q w d d' p = record {
    valid = p.valid;
    no_more = p.no_more;
    still_out = p.still_out;
  }

  closing-Loses :
      (id : ℕ) (s : Session) (e : ℕ) (f : Bool) (d : Dispatcher Time Delta W)
      → s.connection_id ≡ id
      → IsValid k d
      → Runs
          (λ d'. Loses id d d' × (contains id d'.session_map ≡ false))
          (on_callback H (connection_closed s e f) d)
  unfolding on_callback session_on_connection_closed
  closing-Loses id s e f d own v =
      let (d', eq, (l, out)) =
        on_connection_closed-Loses id s.connection_id e
          (with_world (closed_world H s e f (world d)) d) v in
      (
        d',
        eq,
        (
          with_world-Loses id (closed_world H s e f (world d)) d d' l,
          subst (λ x. contains x d'.session_map ≡ false) own out,
        ),
      )

  -- A call of the library adds no session.
  pub react-Loses :
      (q : ℕ) (r : Reaction W) (d : Dispatcher Time Delta W)
      → IsValid k d
      → Runs (Loses q d) (react H r d)
  unfolding react
  react-Loses q (done w) d v =
      (with_world w d, refl, record { valid = v; no_more = ground arith; still_out = ground arith })
  react-Loses q (calls c w next) d v =
      let d1 = with_world w d in
      Runs->>= (Loses q d1) (Loses q d) (on_callback H c d1) _ (on_callback-Loses q c d1 v) (λ d2 p.
        let (d3, e, t) = react-Loses q (next (world d2)) d2 p.valid in
        (d3, e, with_world-Loses q w d d3 (Loses-trans q d1 d2 d3 p t)))

  -- From a valid dispatcher, a call of the library that closes the connection of an id ends with no
  -- session for it, in a valid dispatcher; the map does not grow, and shrinks if the id had a session.
  pub react-Closes :
      (id : ℕ) (r : Reaction W) (d : Dispatcher Time Delta W)
      → Closes id r
      → IsValid k d
      → Runs (λ d'. Loses id d d' × (contains id d'.session_map ≡ false)) (react H r d)
  unfolding react
  react-Closes id (done w) d c v = absurd c
  react-Closes id (calls (session_blocked s) w next) d c v =
      let d1 = with_world w d in
      Runs->>= (Loses id d1) _ (on_callback H (session_blocked s) d1) _
        (on_callback-Loses id (session_blocked s) d1 v)
        (λ d2 p.
          let (d3, e, (t, out)) = react-Closes id (next (world d2)) d2 (c (world d2)) p.valid in
          (d3, e, (with_world-Loses id w d d3 (Loses-trans id d1 d2 d3 p t), out)))
  react-Closes id (calls (connection_closed s e f) w next) d (inr c) v =
      let d1 = with_world w d in
      Runs->>= (Loses id d1) _ (on_callback H (connection_closed s e f) d1) _
        (on_callback-Loses id (connection_closed s e f) d1 v)
        (λ d2 p.
          let (d3, e', (t, out)) = react-Closes id (next (world d2)) d2 (c (world d2)) p.valid in
          (d3, e', (with_world-Loses id w d d3 (Loses-trans id d1 d2 d3 p t), out)))
  react-Closes id (calls (connection_closed s e f) w next) d (inl own) v =
      let d1 = with_world w d in
      Runs->>= (λ d2. Loses id d1 d2 × (contains id d2.session_map ≡ false)) _
        (on_callback H (connection_closed s e f) d1) _ (closing-Loses id s e f d1 own v)
        (λ d2 (p, gone).
          let (d3, e', t) = react-Loses id (next (world d2)) d2 p.valid in
          (
            d3,
            e',
            (
              with_world-Loses id w d d3 (Loses-trans id d1 d2 d3 p t),
              ground (arith, t.still_out, gone),
            ),
          ))
