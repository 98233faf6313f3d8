-- ===== src/Dispatcher/Routing.antt =====
-- quic_dispatcher.cc: which part of the server a packet reaches.
-- `none` is a run that does not go on, as in the time-wait list, or `front()` of an empty vector.
pub mod Safety
pub mod Opened
pub mod Announced
pub mod Packets
use cmuquic.Prelude.{
  ℕ, zero, suc, ◌≡◌, Bool, true, false, not, Option, none, some, List, [], ◌∷◌, ◌++◌, ◌==◌,
  if◌then◌else◌, ◌>>=◌,
}
use mathlib.Core.List.{head?}
use cmuquic.Prelude.Assoc.{lookup, erase}
use cmuquic.Net.{Packet, IpEndPoint}
use cmuquic.Blocked.{Channel}
use cmuquic.TimeWait.Data.{Env, TimeWait}
use cmuquic.TimeWait.Wire
use cmuquic.TimeWait.Expiry.{
  add_connection_id_to_time_wait, is_connection_id_in_time_wait,
  get_quic_version_from_connection_id,
}
use cmuquic.Library.{
  Library, Session, PublicHeader, FramerRun, finished, error, public_header, version_mismatch,
  unauthenticated_header,
}
use cmuquic.Dispatcher.Data.{Dispatcher, Host, world, with_world}
use cmuquic.Dispatcher.Closing.{react}

module _ {Time Delta W : Type 0} (H : Host Time Delta W) where
  -- `HandlePacketForTimeWait`: whether to parse on, and the framer's version for it.
  unfoldable pub handle_packet_for_time_wait :
      PublicHeader → Dispatcher Time Delta W → Option (Bool × Dispatcher Time Delta W)
  handle_packet_for_time_wait header d =
      if header.reset_flag
      then some (false, d)
      else get_quic_version_from_connection_id H.env header.connection_id d.time_wait >>= λ version.
          some (true, record d { framer_version = version })

  -- The calls of `AddConnectionIdToTimeWait` for an id without a session.
  unfoldable pub reject_connection_id :
      ℕ → ℕ → Dispatcher Time Delta W → Option (Dispatcher Time Delta W)
  reject_connection_id id version d = do
    tw ← add_connection_id_to_time_wait H.env (world d) id version none d.time_wait
    some (record d { time_wait = tw })

  -- `CreateQuicSession`, with `InitializeSession` and `SetPacketNum` of the session.
  unfoldable pub create_quic_session :
      ℕ
      → IpEndPoint
      → IpEndPoint
      → Dispatcher Time Delta W
      → Option Session × Dispatcher Time Delta W
  create_quic_session id server client d =
      let (w, address) = H.library.new_session (world d) id client in
      let w' = H.library.initialize_session w address in
      let s : Session = record {
        address = address;
        connection_id = id;
        has_crypto_stream = true;
        packet_num = d.packet_num;
      } in
      (some s, with_world w' d)

  -- `AdditionalValidityChecksThenCreateSession`, once `CreateQuicSession` has returned.
  unfoldable pub admit_session :
      PublicHeader
      → ℕ
      → Option Session × Dispatcher Time Delta W
      → Option (Option Session × Dispatcher Time Delta W)
  admit_session header id (none, d) = do
    version ← head? header.versions
    if not (H.library.is_supported_version version) then some (none, d) else (do
      d' ← reject_connection_id id version d
      (_, d'') ← handle_packet_for_time_wait header d'
      some (none, d''))
  admit_session header id (some s, d) =
      some (some s, record d { session_map = d.session_map ++ (id, s) ∷ [] })

  unfoldable pub additional_validity_checks_then_create_session :
      PublicHeader → ℕ → Dispatcher Time Delta W → Option (Option Session × Dispatcher Time Delta W)
  additional_validity_checks_then_create_session header id d =
      admit_session header id
        (create_quic_session id d.current_server_address d.current_client_address d)

  -- The end of `OnUnauthenticatedPublicHeader`: the packet goes to the session, if there is one.
  unfoldable pub deliver :
      Option Session × Dispatcher Time Delta W → Option (Bool × Dispatcher Time Delta W)
  deliver (none, d) = some (false, d)
  deliver (some s, d) = do
    d' ←
        react H
          (H.library.process_udp_packet (world d) s d.current_server_address
            d.current_client_address d.current_packet)
          d
    some (false, d')

  -- The branch of `OnUnauthenticatedPublicHeader` for an id without a session.
  unfoldable pub on_unknown_connection_id :
      PublicHeader → Dispatcher Time Delta W → Option (Bool × Dispatcher Time Delta W)
  on_unknown_connection_id header d =
      if is_connection_id_in_time_wait H.env header.connection_id d.time_wait
      then handle_packet_for_time_wait header d
      else if header.reset_flag
      then some (false, d)
      else if not header.version_flag
      then (do
        version ← head? d.supported_versions
        d' ← reject_connection_id header.connection_id version d
        handle_packet_for_time_wait header d')
      else (do
        r ← additional_validity_checks_then_create_session header header.connection_id d
        deliver r)

  -- `OnUnauthenticatedPublicHeader`.
  unfoldable pub on_unauthenticated_public_header :
      PublicHeader → Dispatcher Time Delta W → Option (Bool × Dispatcher Time Delta W)
  on_unauthenticated_public_header header d =
      if d.current_client_address.port == 0
      then some (false, d)
      else elim (lookup header.connection_id d.session_map) [
        | none ↦ on_unknown_connection_id header d
        | some s ↦ deliver (some s, d)
      ]

  -- `OnUnauthenticatedHeader`.
  unfoldable pub on_unauthenticated_header :
      ℕ → ℕ → Dispatcher Time Delta W → Option (Dispatcher Time Delta W)
  on_unauthenticated_header id sequence_number d = do
    (tw, channel) ←
        Wire.process_packet H.env d.current_server_address d.current_client_address id
          sequence_number d.time_wait d.channel
    some (record d { time_wait = tw; channel = channel })

  -- `QuicFramerVisitor::OnProtocolVersionMismatch`.
  unfoldable pub on_protocol_version_mismatch : Dispatcher Time Delta W → Bool
  on_protocol_version_mismatch d =
      is_connection_id_in_time_wait H.env d.visitor_connection_id d.time_wait

  -- `QuicFramer::ProcessPacket` with the calls of the visitor.
  unfoldable pub run_framer : FramerRun → Dispatcher Time Delta W → Option (Dispatcher Time Delta W)
  run_framer finished d = some d
  run_framer (error e next) d = run_framer next d
  run_framer (public_header header next) d =
      on_unauthenticated_public_header header
        (record d { visitor_connection_id = header.connection_id })
      >>= λ r. run_framer (next r.0 r.1.framer_version) r.1
  run_framer (version_mismatch v next) d = run_framer (next (on_protocol_version_mismatch d)) d
  run_framer (unauthenticated_header id sequence_number next) d =
      on_unauthenticated_header id sequence_number d >>= λ d'. run_framer (next false) d'

  -- `ProcessPacket`.
  unfoldable pub process_packet :
      IpEndPoint → IpEndPoint → Packet → Dispatcher Time Delta W → Option (Dispatcher Time Delta W)
  process_packet server client packet d =
      run_framer (H.library.framer_run d.framer_version packet) (record d {
        current_server_address = server;
        current_client_address = client;
        current_packet = packet;
      })
