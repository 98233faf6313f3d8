-- ===== src/Dispatcher/Routing/Opened.antt =====
-- quic_dispatcher.cc: for which packets a session is opened.
use cmuquic.Prelude.{
  ℕ, ◌≡◌, refl, Bool, true, false, not, ◌&&◌, Option, none, some, List, [], ◌∷◌, ◌++◌, ◌==◌, ◌>>=◌,
  ◌⊎◌, arith, inl, inr, Bool-cases, Option-cases, Runs, Runs->>=, Given, Given-some, Given->>=,
  Given-if, of_eq_some,
}
use cmuquic.Prelude.Assoc.{lookup, contains, contains-append, contains-erase_le}
use cmuquic.TimeWait.Expiry.{is_connection_id_in_time_wait}
use cmuquic.Library.{
  Session, PublicHeader, Reaction, done, calls, Callback, connection_closed, session_blocked,
}
use cmuquic.Dispatcher.Data.{Dispatcher, Host, world, with_world}
use cmuquic.Dispatcher.Invariant.{IsValid, Laws}
use cmuquic.Dispatcher.Closing.{
  on_connection_closed, session_on_connection_closed, session_on_write_blocked, on_callback, retire,
  react,
}
use cmuquic.Dispatcher.Closing.Callbacks.{cleaned, clean_up_session-eq}
use cmuquic.Dispatcher.Routing.{
  handle_packet_for_time_wait, reject_connection_id, create_quic_session, admit_session,
  additional_validity_checks_then_create_session, deliver, on_unknown_connection_id,
  on_unauthenticated_public_header,
}
use cmuquic.Dispatcher.Routing.Safety.{Answered, on_unauthenticated_public_header-Runs}

-- Whether a public header may open a session: its packet came from a port, it is not a reset, it says
-- its version, and its connection was not closed lately.
abbrev pub may_open : {Time Delta W : Type 0} → PublicHeader → Dispatcher Time Delta W → Bool
may_open header d =
    not (d.current_client_address.port == 0)
    && not (contains header.connection_id d.time_wait.connection_id_map)
    && not header.reset_flag
    && header.version_flag

abbrev pub Lacks : {Time Delta W : Type 0} → ℕ → Dispatcher Time Delta W → Type 0
Lacks q d = contains q d.session_map ≡ false

module _ {Time Delta W : Type 0} (k : ℕ) (H : Host Time Delta W) (L : Laws k H) (q : ℕ) where
  on_connection_closed-Lacks :
      (id error_code : ℕ) (d : Dispatcher Time Delta W)
      → Lacks q d
      → Runs (Lacks q) (on_connection_closed H id error_code d)
  unfolding on_connection_closed retire
  on_connection_closed-Lacks id error_code d h = elim (Option-cases (lookup id d.session_map)) [
    | inl missing ↦ rw (missing, on_connection_closed) (d, refl, h)
    | inr (s, found) ↦
        rw (found, on_connection_closed)
          (
            cleaned k H L id s (retire H s d),
            clean_up_session-eq k H L id s (retire H s d),
            contains-erase_le id q d.session_map h,
          )
  ]

  on_callback-Lacks :
      (c : Callback) (d : Dispatcher Time Delta W) → Lacks q d → Runs (Lacks q) (on_callback H c d)
  unfolding on_callback session_on_connection_closed session_on_write_blocked
  on_callback-Lacks (connection_closed s error_code from_peer) d h =
      on_connection_closed-Lacks s.connection_id error_code _ h
  on_callback-Lacks (session_blocked s) d h = (session_on_write_blocked H s d, refl, h)

  -- A call of the library opens no session.
  pub react-Lacks :
      (r : Reaction W) (d : Dispatcher Time Delta W) → Lacks q d → Runs (Lacks q) (react H r d)
  unfolding react
  react-Lacks (done w) d h = (with_world w d, refl, h)
  react-Lacks (calls c w next) d h =
      Runs->>= (Lacks q) (Lacks q) (on_callback H c (with_world w d)) _
        (on_callback-Lacks c (with_world w d) h) (λ d' h'. react-Lacks (next (world d')) d' h')

  abbrev Unopened : Bool × Dispatcher Time Delta W → Type 0
  Unopened r = Lacks q r.1

  deliver-Unopened :
      (o : Option Session) (d : Dispatcher Time Delta W)
      → Lacks q d
      → Given Unopened (deliver H (o, d))
  unfolding deliver
  deliver-Unopened none d h = Given-some Unopened (false, d) h
  deliver-Unopened (some s) d h =
      Given->>= (Lacks q) Unopened _ _
        (λ d' e. let (d'', run, h') = react-Lacks _ d h in of_eq_some (Lacks q) run e h')
        (λ d' h'. Given-some Unopened (false, d') h')

  handle_packet_for_time_wait-Unopened :
      (header : PublicHeader) (d : Dispatcher Time Delta W)
      → Lacks q d
      → Given Unopened (handle_packet_for_time_wait H header d)
  unfolding handle_packet_for_time_wait
  handle_packet_for_time_wait-Unopened header d h =
      Given-if Unopened header.reset_flag _ _ (λ reset. Given-some Unopened (false, d) h)
        (λ plain.
          Given->>= (λ _. Unit {0}) Unopened _ _ (λ version e. tt)
            (λ version _. Given-some Unopened (true, record d { framer_version = version }) h))

  reject_connection_id-Lacks :
      (id version : ℕ) (d : Dispatcher Time Delta W)
      → Lacks q d
      → Given (Lacks q) (reject_connection_id H id version d)
  unfolding reject_connection_id
  reject_connection_id-Lacks id version d h =
      Given->>= (λ _. Unit {0}) (Lacks q) _ _ (λ tw e. tt)
        (λ tw _. Given-some (Lacks q) (record d { time_wait = tw }) h)

  abbrev pub Opens :
      PublicHeader → Dispatcher Time Delta W → Bool × Dispatcher Time Delta W → Type 0
  Opens header d r =
      contains q r.1.session_map ≡ true → (q ≡ header.connection_id) × (may_open header d ≡ true)

  Unopened-Opens :
      (header : PublicHeader) (d : Dispatcher Time Delta W)
      (o : Option (Bool × Dispatcher Time Delta W))
      → Given Unopened o
      → Given (Opens header d) o
  Unopened-Opens header d o g r e found = let missing = g r e in absurd (cc)

  snoc-lacks :
      (id : ℕ) (s : Session) (sessions : List (ℕ × Session))
      → (id == q) ≡ false
      → contains q sessions ≡ false
      → contains q (sessions ++ (id, s) ∷ []) ≡ false
  unfolding contains
  snoc-lacks id s sessions other h =
      rw (contains-append q sessions ((id, s) ∷ [])) (ground (arith, other, h))

  -- A new session with a packet that may open it.
  new_session-Opens :
      (header : PublicHeader) (d : Dispatcher Time Delta W)
      → Lacks q d
      → may_open header d ≡ true
      → Given (Opens header d) (
          additional_validity_checks_then_create_session H header header.connection_id d
          >>= deliver H)
  unfolding additional_validity_checks_then_create_session create_quic_session admit_session
      contains
  new_session-Opens header d h may = elim (Bool-cases (header.connection_id == q)) [
    | inl own ↦ λ r e found. (ground (arith, own), may)
    | inr other ↦
        Unopened-Opens header d _
          (deliver-Unopened _ _ (snoc-lacks header.connection_id _ d.session_map other h))
  ]

  on_unknown_connection_id-Opens :
      (header : PublicHeader) (d : Dispatcher Time Delta W)
      → Lacks q d
      → (d.current_client_address.port == 0) ≡ false
      → Given (Opens header d) (on_unknown_connection_id H header d)
  unfolding on_unknown_connection_id is_connection_id_in_time_wait
  on_unknown_connection_id-Opens header d h port =
      Given-if P (contains header.connection_id d.time_wait.connection_id_map) _ _
        (λ waits. Unopened-Opens header d _ (handle_packet_for_time_wait-Unopened header d h))
        (λ absent.
          Given-if P header.reset_flag _ _
            (λ reset. Unopened-Opens header d _ (Given-some Unopened (false, d) h))
            (λ plain.
              Given-if P (not header.version_flag) _ _
                (λ unversioned. Unopened-Opens header d _ (
                  Given->>= (λ _. Unit {0}) Unopened _ _ (λ version e. tt)
                    (λ version _.
                      Given->>= (Lacks q) Unopened _ _
                        (reject_connection_id-Lacks header.connection_id version d h)
                        (λ d' h'. handle_packet_for_time_wait-Unopened header d' h'))))
                (λ versioned.
                  new_session-Opens header d h (ground (arith, port, absent, plain, versioned)))))
    where
      P : Bool × Dispatcher Time Delta W → Type 0
      P = Opens header d

  pub on_unauthenticated_public_header-Opens :
      (header : PublicHeader) (d : Dispatcher Time Delta W)
      → Lacks q d
      → Given (Opens header d) (on_unauthenticated_public_header H header d)
  unfolding on_unauthenticated_public_header
  on_unauthenticated_public_header-Opens header d h =
      Given-if (Opens header d) (d.current_client_address.port == 0) _ _
        (λ no_port. Unopened-Opens header d _ (Given-some Unopened (false, d) h))
        (λ port. by_session port)
    where
      by_session :
          (d.current_client_address.port == 0) ≡ false
          → Given (Opens header d) (elim (lookup header.connection_id d.session_map) [
            | none ↦ on_unknown_connection_id H header d
            | some s ↦ deliver H (some s, d)
          ])
      by_session port = elim (Option-cases (lookup header.connection_id d.session_map)) [
        | inl unknown ↦ rw unknown (on_unknown_connection_id-Opens header d h port)
        | inr (s, found) ↦ rw found (Unopened-Opens header d _ (deliver-Unopened (some s) d h))
      ]

-- A session that is there was there before, or is that of the header, and the header may open it.
abbrev pub Admitted :
    {Time Delta W : Type 0}
    → PublicHeader
    → Dispatcher Time Delta W
    → Dispatcher Time Delta W
    → Type 0
Admitted header d d' =
    (q : ℕ)
    → Lacks q d'
      ⊎ (contains q d.session_map ≡ true)
      ⊎ (q ≡ header.connection_id) × (may_open header d ≡ true)

-- What is new is explained, so all that is there is known or explained.
pub is_known_or :
    {P : Type 0} (there known : Bool)
    → (known ≡ false → there ≡ true → P)
    → (there ≡ false) ⊎ (known ≡ true) ⊎ P
is_known_or false known new = inl refl
is_known_or true true new = inr (inl refl)
is_known_or true false new = inr (inr (new refl refl))

-- From a valid dispatcher, a packet's public header is handled to the end, and leaves a valid
-- dispatcher. If the answer is to parse on, the packet's id is in the time-wait list. No session is
-- opened but that of the packet's id, and only if the packet came from a port, is no reset, says its
-- version, and its id was not in the time-wait list.
pub on_unauthenticated_public_header-Admitted :
    {Time Delta W : Type 0} (k : ℕ) (H : Host Time Delta W) (L : Laws k H) (header : PublicHeader)
    (d : Dispatcher Time Delta W)
    → IsValid k d
    → Runs
        (λ r. Answered k H L header.connection_id r × Admitted header d r.1)
        (on_unauthenticated_public_header H header d)
on_unauthenticated_public_header-Admitted k H L header d v =
    let (r, run, answered) = on_unauthenticated_public_header-Runs k H L header d v in
    (
      r,
      run,
      (
        answered,
        λ q.
            is_known_or (contains q r.1.session_map) (contains q d.session_map)
              (λ h found. on_unauthenticated_public_header-Opens k H L q header d h r run found),
      ),
    )
