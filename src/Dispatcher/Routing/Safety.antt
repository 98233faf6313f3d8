-- ===== src/Dispatcher/Routing/Safety.antt =====
-- quic_dispatcher.cc: no packet stops the dispatcher, and each leaves it valid.
use mathlib.Core.List.{head?}
use cmuquic.Prelude.{
  ℕ, ◌≡◌, refl, Bool, true, false, Option, none, some, List, [], ◌∷◌, ◌++◌, arith, inl, inr,
  Bool-cases, Option-cases, is_empty, All-append, ◌>>=◌, Runs, ◌==◌, Runs->>=, Runs-if, not,
}
use cmuquic.Prelude.Assoc.{
  lookup, contains, snoc-IsDistinct, contains_of_lookup, contains-none, lookup_of_contains,
  contains-append,
}
use cmuquic.Net.{Packet}
use cmuquic.Blocked.{BlockedWriter}
use cmuquic.TimeWait.Data.{TimeWait}
use cmuquic.TimeWait.Expiry.{is_connection_id_in_time_wait, get_quic_version_from_connection_id}
use cmuquic.TimeWait.Expiry.Trim.{add_connection_id_to_time_wait-eq}
use cmuquic.TimeWait.Expiry.Members.{
  added_map-IsDistinct, length-added_map, lookup-added_map, contains-added_map,
}
use cmuquic.Library.{Session, PublicHeader}
use cmuquic.Dispatcher.Data.{Dispatcher, Host, world}
use cmuquic.Dispatcher.Invariant.{Valid, IsValid, Laws}
use cmuquic.Dispatcher.Closing.Callbacks.{moved, react-Runs}
use cmuquic.Dispatcher.Routing.{
  handle_packet_for_time_wait, reject_connection_id, create_quic_session, admit_session,
  additional_validity_checks_then_create_session, deliver, on_unknown_connection_id,
  on_unauthenticated_public_header,
}

-- What an answer "parse on" promises: the id of the packet is in the time-wait list.
abbrev pub Awaits : {Time Delta W : Type 0} → Bool → ℕ → Dispatcher Time Delta W → Type 0
Awaits true id d = contains id d.time_wait.connection_id_map ≡ true
Awaits false id d = Unit {0}

module _ {Time Delta W : Type 0} (k : ℕ) (H : Host Time Delta W) (L : Laws k H) where
  abbrev pub Answered : ℕ → Bool × Dispatcher Time Delta W → Type 0
  Answered id r = IsValid k r.1 × Awaits r.0 id r.1

  handle_packet_for_time_wait-Runs :
      (header : PublicHeader) (d : Dispatcher Time Delta W)
      → IsValid k d
      → contains header.connection_id d.time_wait.connection_id_map ≡ true
      → Runs (Answered header.connection_id) (handle_packet_for_time_wait H header d)
  unfolding handle_packet_for_time_wait get_quic_version_from_connection_id
  handle_packet_for_time_wait-Runs header d v h =
      let (data_of, found) =
        lookup_of_contains header.connection_id d.time_wait.connection_id_map h in
      elim (Bool-cases header.reset_flag) [
        | inl reset ↦ rw (reset) ((false, d), refl, (v, tt))
        | inr plain ↦
            rw (plain, found) ((true, record d { framer_version = data_of.version }), refl, (v, h))
      ]

  rejected-Valid :
      (w : W) (id version : ℕ) (close : Option Packet) (sessions : List (ℕ × Session))
      (tw : TimeWait Time Delta) (waiting : List BlockedWriter) (versions : List ℕ)
      → contains id sessions ≡ false
      → Valid k sessions tw waiting versions
      → Valid k sessions (moved k H L w id version close tw) waiting versions
  rejected-Valid w id version close sessions tw waiting versions h v = record {
    distinct = v.distinct;
    keyed = v.keyed;
    bounded = record {
      distinct = added_map-IsDistinct H.env k w id version close tw v.bounded.distinct;
      within = length-added_map H.env k w id version close tw;
    };
    apart = λ q. ground (arith, v.apart q, contains-added_map H.env k w id version close tw q, h);
    unique = v.unique;
    queued = v.queued;
    supports = v.supports;
  }

  abbrev Rejected : ℕ → Dispatcher Time Delta W → Type 0
  Rejected id d = IsValid k d × (contains id d.time_wait.connection_id_map ≡ true)

  reject_connection_id-Runs :
      (id version : ℕ) (d : Dispatcher Time Delta W)
      → IsValid k d
      → contains id d.session_map ≡ false
      → Runs (Rejected id) (reject_connection_id H id version d)
  unfolding reject_connection_id
  reject_connection_id-Runs id version d v h =
      rw
        (add_connection_id_to_time_wait-eq H.env L.time k (world d) id version none d.time_wait
          L.maximum)
        (
          record d { time_wait = moved k H L (world d) id version none d.time_wait },
          refl,
          (
            rejected-Valid (world d) id version none d.session_map d.time_wait _ _ h v,
            contains_of_lookup id _ _
                (lookup-added_map H.env k (world d) id version none d.time_wait v.bounded.distinct),
          ),
        )

  admitted-Valid :
      (id : ℕ) (s : Session) (sessions : List (ℕ × Session)) (tw : TimeWait Time Delta)
      (waiting : List BlockedWriter) (versions : List ℕ)
      → s.connection_id ≡ id
      → contains id sessions ≡ false
      → contains id tw.connection_id_map ≡ false
      → Valid k sessions tw waiting versions
      → Valid k (sessions ++ (id, s) ∷ []) tw waiting versions
  unfolding contains
  admitted-Valid id s sessions tw waiting versions own fresh absent v = record {
    distinct = snoc-IsDistinct id s sessions fresh v.distinct;
    keyed = All-append _ sessions ((id, s) ∷ []) v.keyed (own, tt);
    bounded = v.bounded;
    apart = λ q. ground (arith, v.apart q, contains-append q sessions ((id, s) ∷ []), absent);
    unique = v.unique;
    queued = v.queued;
    supports = v.supports;
  }

  deliver-Runs :
      (id : ℕ) (s : Session) (d : Dispatcher Time Delta W)
      → IsValid k d
      → Runs (Answered id) (deliver H (some s, d))
  unfolding deliver
  deliver-Runs id s d v =
      Runs->>= (IsValid k) (Answered id) _ _ (react-Runs k H L _ d v)
        (λ d' v'. ((false, d'), refl, (v', tt)))

  new_session-Runs :
      (header : PublicHeader) (d : Dispatcher Time Delta W)
      → IsValid k d
      → contains header.connection_id d.session_map ≡ false
      → contains header.connection_id d.time_wait.connection_id_map ≡ false
      → Runs (Answered header.connection_id) (
          additional_validity_checks_then_create_session H header header.connection_id d
          >>= deliver H)
  unfolding additional_validity_checks_then_create_session create_quic_session admit_session
  new_session-Runs header d v fresh absent =
      deliver-Runs header.connection_id _ _
        (admitted-Valid header.connection_id _ d.session_map d.time_wait _ _ refl fresh absent v)

  first_version :
      (versions : List ℕ) → is_empty versions ≡ false → Runs (λ v. Unit {0}) (head? versions)
  first_version [] h = absurd (cc)
  first_version (x ∷ xs) h = (x, refl, tt)

  on_unknown_connection_id-Runs :
      (header : PublicHeader) (d : Dispatcher Time Delta W)
      → IsValid k d
      → contains header.connection_id d.session_map ≡ false
      → Runs (Answered header.connection_id) (on_unknown_connection_id H header d)
  unfolding on_unknown_connection_id is_connection_id_in_time_wait
  on_unknown_connection_id-Runs header d v fresh =
      Runs-if P _ _ _ (handle_packet_for_time_wait-Runs header d v) (λ absent.
        Runs-if P _ _ _ (λ reset. ((false, d), refl, (v, tt)))
          (λ plain.
            Runs-if P _ _ _ unversioned (λ versioned. new_session-Runs header d v fresh absent)))
    where
      P : Bool × Dispatcher Time Delta W → Type 0
      P = Answered header.connection_id

      unversioned :
          not header.version_flag ≡ true
          → Runs P (
              head? d.supported_versions >>= λ version.
              reject_connection_id H header.connection_id version d >>= λ d'.
              handle_packet_for_time_wait H header d')
      unversioned _ =
          Runs->>= (λ _. Unit {0}) P _ _ (first_version d.supported_versions v.supports)
            (λ version _.
              Runs->>= (Rejected header.connection_id) P _ _
                (reject_connection_id-Runs header.connection_id version d v fresh)
                (λ d' r. handle_packet_for_time_wait-Runs header d' r.0 r.1))

  -- From a valid dispatcher, a packet's public header is handled to the end, and leaves a valid
  -- dispatcher. If the answer is to parse on, the packet's id is in the time-wait list.
  pub on_unauthenticated_public_header-Runs :
      (header : PublicHeader) (d : Dispatcher Time Delta W)
      → IsValid k d
      → Runs (Answered header.connection_id) (on_unauthenticated_public_header H header d)
  unfolding on_unauthenticated_public_header
  on_unauthenticated_public_header-Runs header d v =
      Runs-if (Answered header.connection_id) (d.current_client_address.port == 0) _ _
        (λ no_port. ((false, d), refl, (v, tt))) (λ port. by_session)
    where
      by_session :
          Runs (Answered header.connection_id) (elim (lookup header.connection_id d.session_map) [
            | none ↦ on_unknown_connection_id H header d
            | some s ↦ deliver H (some s, d)
          ])
      by_session = elim (Option-cases (lookup header.connection_id d.session_map)) [
        | inl unknown ↦
            rw unknown (on_unknown_connection_id-Runs header d v (contains-none _ _ unknown))
        | inr (s, found) ↦ rw found (deliver-Runs header.connection_id s d v)
      ]
