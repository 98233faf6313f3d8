-- ===== src/Dispatcher/Routing/Announced.antt =====
-- quic_dispatcher.cc: the sessions that a packet opens.
use cmuquic.Prelude.{
  ℕ, ◌≡◌, ◌⊎◌, inl, inr, Bool, true, false, none, Bool-cases, arith, Runs, Given, Given-some,
  Given->>=,
}
use cmuquic.Prelude.Assoc.{contains}
use cmuquic.Net.{Packet, IpEndPoint}
use cmuquic.Blocked.{Channel}
use cmuquic.TimeWait.Data.{TimeWait}
use cmuquic.Library.{
  PublicHeader, FramerRun, finished, error, public_header, version_mismatch, unauthenticated_header,
}
use cmuquic.Dispatcher.Data.{Dispatcher, Host}
use cmuquic.Dispatcher.Invariant.{IsValid, Laws}
use cmuquic.Dispatcher.Routing.{
  on_unauthenticated_header, on_protocol_version_mismatch, run_framer, process_packet,
}
use cmuquic.Dispatcher.Routing.Packets.{IsFramed, process_packet-IsValid}
use cmuquic.Dispatcher.Routing.Opened.{
  may_open, Lacks, Opens, is_known_or, on_unauthenticated_public_header-Opens,
}

-- The public headers that a run of the framer may deliver, with an id, a version, and no reset.
abbrev pub Announces : ℕ → FramerRun → Type 0
Announces q finished = ⊥
Announces q (error e next) = Announces q next
Announces q (public_header header next) =
    ((q ≡ header.connection_id) × (header.version_flag ≡ true) × (header.reset_flag ≡ false))
    ⊎ ((b : Bool) × (v : ℕ) × Announces q (next b v))
Announces q (version_mismatch v next) = (b : Bool) × Announces q (next b)
Announces q (unauthenticated_header id sn next) = (b : Bool) × Announces q (next b)

module _ {Time Delta W : Type 0} (k : ℕ) (H : Host Time Delta W) (L : Laws k H) (q : ℕ) where
  abbrev Announced : FramerRun → Dispatcher Time Delta W → Type 0
  Announced r d' = contains q d'.session_map ≡ true → Announces q r

  may_open-own :
      (header : PublicHeader) (d : Dispatcher Time Delta W)
      → (q ≡ header.connection_id) × (may_open header d ≡ true)
      → (q ≡ header.connection_id) × (header.version_flag ≡ true) × (header.reset_flag ≡ false)
  may_open-own header d own = (own.0, ground (arith, own), ground (arith, own))

  on_unauthenticated_header-Lacks :
      (id sn : ℕ) (d : Dispatcher Time Delta W)
      → Lacks q d
      → Given (Lacks q) (on_unauthenticated_header H id sn d)
  unfolding on_unauthenticated_header
  on_unauthenticated_header-Lacks id sn d h =
      Given->>= (λ _. Unit {0}) (Lacks q) _ _ (λ (r : TimeWait Time Delta × Channel W) e. tt)
        (λ r _. Given-some (Lacks q) (record d { time_wait = r.0; channel = r.1 }) h)

  run_framer-Announced :
      (r : FramerRun) (d : Dispatcher Time Delta W)
      → Lacks q d
      → Given (Announced r) (run_framer H r d)
  unfolding run_framer
  run_framer-Announced finished d h = Given-some (Announced finished) d (λ found. absurd (cc))
  run_framer-Announced (error e next) d h = run_framer-Announced next d h
  run_framer-Announced (public_header header next) d h =
      let d0 = record d { visitor_connection_id = header.connection_id } in
      Given->>= (Opens k H L q header d0) (Announced (public_header header next)) _ _
        (on_unauthenticated_public_header-Opens k H L q header d0 h)
        (λ r opens. elim (Bool-cases (contains q r.1.session_map)) [
          | inl opened ↦ λ d' e found. inl (may_open-own header d0 (opens opened))
          | inr missing ↦ λ d' e found. inr (
            r.0,
            r.1.framer_version,
            run_framer-Announced (next r.0 r.1.framer_version) r.1 missing d' e found,
          )
        ])
  run_framer-Announced (version_mismatch v next) d h = λ d' e found. (
    on_protocol_version_mismatch H d,
    run_framer-Announced (next (on_protocol_version_mismatch H d)) d h d' e found,
  )
  run_framer-Announced (unauthenticated_header id sn next) d h =
      Given->>= (Lacks q) (Announced (unauthenticated_header id sn next)) _ _
        (on_unauthenticated_header-Lacks id sn d h)
        (λ d1 h1 d' e found. (false, run_framer-Announced (next false) d1 h1 d' e found))

-- If the framer delivers the header of a packet once at most, on demand and for the id of its public
-- header, then the packet is handled to the end from a valid dispatcher, and every session that is
-- there in the end was there before, or is that of an id that a public header of the packet has, with
-- a version and without a reset.
pub process_packet-Announced :
    {Time Delta W : Type 0} (k : ℕ) (H : Host Time Delta W) (L : Laws k H)
    (server client : IpEndPoint) (packet : Packet) (d : Dispatcher Time Delta W)
    → IsFramed none (H.library.framer_run d.framer_version packet)
    → IsValid k d
    → Runs
        (λ d'.
          (q : ℕ)
          → (contains q d'.session_map ≡ false)
            ⊎ (contains q d.session_map ≡ true)
            ⊎ Announces q (H.library.framer_run d.framer_version packet))
        (process_packet H server client packet d)
unfolding process_packet
process_packet-Announced k H L server client packet d f v =
    let (d', run, valid) = process_packet-IsValid k H L server client packet d f v in
    let packet_run = H.library.framer_run d.framer_version packet in
    (
      d',
      run,
      λ q.
          is_known_or (contains q d'.session_map) (contains q d.session_map)
            (λ h found. run_framer-Announced k H L q packet_run _ h d' run found),
    )
