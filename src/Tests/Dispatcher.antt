-- ===== src/Tests/Dispatcher.antt =====
-- The theorems on the dispatcher, on the small world.
use cmuquic.Prelude.{ℕ, ◌⊎◌, ◌≡◌, refl, true, false, [], ◌∷◌, inl, Runs, arith}
use cmuquic.Prelude.Assoc.{lookup, contains}
use cmuquic.Writer.{is_write_blocked}
use cmuquic.Library.{PublicHeader, Reaction, calls, done, session_blocked, connection_closed}
use cmuquic.Dispatcher.Invariant.{IsValid}
use cmuquic.Dispatcher.Closing.{react, on_connection_closed}
use cmuquic.Dispatcher.Closing.Blocking.{Settled, react-Settled}
use cmuquic.Dispatcher.Closing.Sessions.{Loses, react-Closes}
use cmuquic.Dispatcher.Closing.Moves.{Moved, on_connection_closed-Moved}
use cmuquic.Dispatcher.Routing.{process_packet, on_unauthenticated_public_header}
use cmuquic.Dispatcher.Routing.Safety.{Answered}
use cmuquic.Dispatcher.Routing.Opened.{Admitted, on_unauthenticated_public_header-Admitted}
use cmuquic.Dispatcher.Routing.Announced.{Announces, process_packet-Announced}
use cmuquic.Dispatcher.Routing.Packets.{process_packet-IsValid}
use cmuquic.Dispatcher.Writing.{on_can_write, shutdown}
use cmuquic.Dispatcher.Data.{world, with_world}
use cmuquic.Dispatcher.Writing.Progress.{Rests}
use cmuquic.Dispatcher.Writing.Turns.{HadTurns, on_can_write-HadTurns}
use cmuquic.Dispatcher.States
use cmuquic.Dispatcher.States.{
  Input, packet, writable, clean_up_alarm, library_calls, shut_down, passes, new_dispatcher,
  happen_all,
}
use cmuquic.Dispatcher.States.Reached.{happen_all-new_dispatcher}
use cmuquic.Dispatcher.Writing.Shutdown.{shutdown-Runs}
use cmuquic.Prelude.{List}
use cmuquic.Prelude.Int.{pos, negsuc}
use cmuquic.Socket.{ReadResult}
use cmuquic.Server.{EventBits, on_event}
use cmuquic.Server.Events.{Handled, on_event-Runs}
use cmuquic.Tests.World.{World, host, host-Laws, host-BlockingLaws, client, server}
use cmuquic.Tests.Servers.{two_sessions, two_sessions-IsValid, session_5, blocked_world}

-- The library closes the connection of session 5, and then asks to write again.
abbrev closing : Reaction World
closing =
    calls (connection_closed session_5 16 true) blocked_world
      (λ w. calls (session_blocked session_5) w (λ w'. done w'))

abbrev unknown : PublicHeader
unknown = record { connection_id = 7; reset_flag = false; version_flag = true; versions = 25 ∷ [] }

process_packet-IsValid_example :
    Runs (IsValid 1) (process_packet host server client (1 ∷ []) two_sessions)
process_packet-IsValid_example =
    process_packet-IsValid 1 host host-Laws server client (1 ∷ []) two_sessions
      (λ v. tt, λ v. (refl, tt)) two_sessions-IsValid

process_packet-Announced_example :
    Runs
      (λ d'.
        (q : ℕ)
        → (contains q d'.session_map ≡ false)
          ⊎ (contains q two_sessions.session_map ≡ true)
          ⊎ Announces q (host.library.framer_run two_sessions.framer_version (1 ∷ [])))
      (process_packet host server client (1 ∷ []) two_sessions)
process_packet-Announced_example =
    process_packet-Announced 1 host host-Laws server client (1 ∷ []) two_sessions
      (λ v. tt, λ v. (refl, tt)) two_sessions-IsValid

on_can_write-HadTurns_example :
    Runs
      (λ d'.
        Rests 1 host d'
        × HadTurns host
            (with_world (host.env.writer.set_writable (world two_sessions)) two_sessions)
            d')
      (on_can_write host two_sessions)
on_can_write-HadTurns_example =
    on_can_write-HadTurns 1 host host-Laws host-BlockingLaws (λ w a. ground arith) two_sessions
      two_sessions-IsValid

shutdown-Runs_example :
    Runs
      (λ d'. IsValid 1 d' × (d'.session_map ≡ []) × (d'.closed_session_list ≡ []))
      (shutdown host two_sessions)
shutdown-Runs_example =
    shutdown-Runs 1 host host-Laws (λ w s. inl refl) two_sessions two_sessions-IsValid

on_connection_closed-Moved_example :
    Runs
      (Moved 1 host host-Laws 5 session_5 two_sessions)
      (on_connection_closed host 5 16 two_sessions)
unfolding lookup
on_connection_closed-Moved_example =
    on_connection_closed-Moved 1 host host-Laws 5 16 session_5 two_sessions two_sessions-IsValid
      refl

on_unauthenticated_public_header-Admitted_example :
    Runs
      (λ r. Answered 1 host host-Laws 7 r × Admitted unknown two_sessions r.1)
      (on_unauthenticated_public_header host unknown two_sessions)
on_unauthenticated_public_header-Admitted_example =
    on_unauthenticated_public_header-Admitted 1 host host-Laws unknown two_sessions
      two_sessions-IsValid

react-Settled_example :
    Runs (Settled 1 host host-Laws host-BlockingLaws two_sessions) (react host closing two_sessions)
unfolding is_write_blocked
react-Settled_example =
    react-Settled 1 host host-Laws host-BlockingLaws closing two_sessions
      (refl, λ w. (ground arith, λ w'. ground arith)) two_sessions-IsValid

react-Closes_example :
    Runs
      (λ d'. Loses 1 host host-Laws 5 two_sessions d' × (contains 5 d'.session_map ≡ false))
      (react host closing two_sessions)
react-Closes_example =
    react-Closes 1 host host-Laws 5 closing two_sessions (inl refl) two_sessions-IsValid

abbrev bits : EventBits
bits = record { epollin = 1; epollout = 4 }

-- A packet, and then a read that fails.
abbrev reads : List ReadResult
reads =
    record {
      bytes_read = pos 1;
      errno = 0;
      buffer = 1 ∷ [];
      dropped_packets = 0;
      self_address = [];
      peer_address = client;
    }
    ∷ record {
      bytes_read = negsuc 0;
      errno = 11;
      buffer = [];
      dropped_packets = 0;
      self_address = [];
      peer_address = client;
    }
    ∷ []

on_event-Runs_example : Runs (Handled 1 host bits 5) (on_event host bits 443 5 reads two_sessions)
on_event-Runs_example =
    on_event-Runs 1 host host-Laws host-BlockingLaws (λ v p. (λ v. tt, λ v. (refl, tt)))
      (λ w a. ground arith) bits 443 5 reads two_sessions two_sessions-IsValid

-- A packet that opens a session, a call of the library, the alarms, a later world, and the end.
abbrev happenings : List (Input World)
happenings =
    packet server client (1 ∷ [])
    ∷ library_calls (λ w. done w)
    ∷ passes (λ w. w)
    ∷ clean_up_alarm
    ∷ writable
    ∷ shut_down
    ∷ States.delete_sessions_alarm
    ∷ packet server client (1 ∷ [])
    ∷ []

happen_all-new_dispatcher_example :
    Runs
      (IsValid 1)
      (happen_all host happenings (new_dispatcher host blocked_world (0, 100) (25 ∷ []) 25 3))
happen_all-new_dispatcher_example =
    happen_all-new_dispatcher 1 host host-Laws host-BlockingLaws (λ v p. (λ v. tt, λ v. (refl, tt)))
      (λ w a. ground arith) (λ w s. inl refl) happenings blocked_world (0, 100) (25 ∷ []) 25 3 refl
