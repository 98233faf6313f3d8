-- ===== src/Lib.antt =====
-- A model of a QUIC server and client that run over a user-space UDP stack, and their correctness.
-- Both wait in an epoll server, which calls back those that registered descriptors and alarms.
-- Packets come from a socket to the dispatcher, which hands each one to the session of its
-- connection id, opens a session for it, or rejects it. Ids of closed connections stay in the
-- time-wait list for a while, where late packets are answered by an exponential back-off. All
-- write through one socket: whoever finds it blocked waits in the write-blocked list of the
-- dispatcher.
--
-- Which file models what (source paths are under net/tools/quic):
-- - Prelude: association lists with the order of insertion, integers, bits, chains of options.
-- - Net: endpoints, `QuicPacketWriter` and `QuicTime` as interfaces.
-- - Socket: quic_socket_utils.cc (`SetGetAddressInfo`, `SetSendBufferSize`,
--   `SetReceiveBufferSize`, `ReadPacket`, `WritePacket`) over the socket calls of the stack.
-- - Writer: quic_default_packet_writer.cc, an implementation of the interface in Net.
-- - Blocked: the write-blocked list of quic_dispatcher.cc (`OnWriteBlocked`, `HasPendingWrites`).
-- - TimeWait: quic_time_wait_list_manager.cc. Data has its records and `ShouldSendResponse`; Wire
--   `ProcessPacket`, `SendPublicReset`, `SendOrQueuePacket`, `WriteToWire`, `OnCanWrite`; Expiry
--   `AddConnectionIdToTimeWait`, `TrimTimeWaitListIfNeeded`, `CleanUpOldConnectionIds`,
--   `SetConnectionIdCleanUpAlarm`, and the queries.
-- - Library: what the server calls of the QUIC library, as an interface. A call that may call back
--   into a session is a `Reaction`, a tree whose branches are the states in which the server
--   returns; a run of the framer is a tree of visitor calls, whose branches are the visitor's
--   answers.
-- - Dispatcher: quic_dispatcher.cc, with the callbacks of quic_server_session.cc. Closing has
--   `OnConnectionClosed`, `CleanUpSession`, `DeleteSessions`; Routing `ProcessPacket`, the framer
--   visitor, `OnUnauthenticatedPublicHeader` and what it calls; Writing `OnCanWrite` and
--   `Shutdown`; States the constructor and the sequences of what may happen.
-- - Epoll: ../epoll_server/epoll_server.cc. Registry has `RegisterFD`, `UnregisterFD`, `ModifyFD`,
--   `SetFDReady`, `SetFDNotReady`, `HandleEvent` and the queries; Loop `CallReadyListCallbacks`
--   and what `WaitForEventsAndCallHandleEvents` does with the reported events; Waiting the time to
--   wait.
-- - Alarms: the alarms of the same file, and `QuicEpollAlarm` of quic_epoll_connection_helper.cc.
--   Data has the map and `EpollAlarm`; Registry `RegisterAlarm`, `UnregisterAlarm`,
--   `UnregisterIfRegistered`, `SetImpl` and `CancelImpl`; Loop `CallAndReregisterAlarmEvents`.
-- - Cycle: `WaitForEventsAndExecuteCallbacks` of the same file, over Epoll and Alarms together,
--   and, in Shutdown, the destructor. Events and Firings show that both halves keep what their
--   callbacks keep.
-- - Server: quic_server.cc. `OnEvent` with `ReadAndDispatchSinglePacket`, over the dispatcher;
--   and, in Listening, `Listen` over the epoll server; Lifetime has the constructor and
--   `Shutdown`.
-- - Client: quic_client.cc. Data has its members; Opening `CreateUDPSocket` and `Initialize`;
--   Lifetime `Connect`, `Disconnect`, `OnEvent` with `ReadAndProcessPacket`, and
--   `CreateClientStream`.
-- - Stream: quic_server_stream.cc, with `CreateIncomingDynamicStream` of quic_server_session.cc.
-- - Tests: a small world in which every theorem is applied.
--
-- How state is modelled. The world outside, which the packet writer, the clock and the library
-- read and write, is a type parameter `W`; the dispatcher's record holds the current one, and
-- every call passes it on. `Option` is a run that may not go on: `none` stands for a loop that
-- does not end, for a DCHECK that fails (an id missing from the time-wait list), and for `front()`
-- of an empty vector. A linked hash map is a list in its order; the hash map of sessions is a list
-- in the order of insertion, and its order shows only in `Shutdown`, which takes sessions in an
-- unspecified order. Integers of 32 bits are bit patterns with the wrap-around written out. An
-- alarm is its deadline in the dispatcher and the time-wait list, and an object with a token in
-- the epoll server. The two halves of the epoll server see each other as part of their world: the
-- descriptors' callbacks run on an `EpollServer (Alarms W)`, the alarms on an `Alarms (EpollServer
-- W)`. An iterator of the map of alarms is a number that is used once; one that is not in the map
-- is not valid. What an alarm does is a tree of the calls of the server that it makes (`Firing`).
-- Logging is left out, and with it `OnConnectionAddedToTimeWaitList`, which only logs.
--
-- Fuel. The loops of `CleanUpOldConnectionIds` and `TrimTimeWaitListIfNeeded` have one round more
-- than there are ids; `OnCanWrite` of the dispatcher one more than there are waiting writers;
-- `Shutdown` one more than there are sessions; `CallReadyListCallbacks` one more than there are
-- ready descriptors. Each round takes one of these away. The loop over the alarms has two turns
-- for each entry, and one more: an entry that is skipped needs one, and one that fires needs one
-- and may register an entry that is skipped. The loop of `Connect` waits for the network; its fuel
-- is the caller's, and is enough when it exceeds a measure that each wait decreases.
--
-- What is taken as given: the order of `QuicTime`; that a blocked write leaves the writer blocked
-- and that `SetWritable` unblocks it; for `OnCanWrite`, that only `SetWritable` unblocks the
-- writer; for `Shutdown`, that the library calls back when it is told to close a connection; for a
-- packet, that the framer delivers its header once at most and for the id of its public header;
-- for the epoll server, that `epoll_ctl` works as documented on its set of descriptors, which no
-- callback changes, and that only `OnEvent` and `OnAlarm` call the epoll server back; for the
-- alarms, that what they set is not set and later than now, and that a time that they return is
-- due for certain alarms only; for the client, that the library's calls leave the descriptors and
-- the invariant of the alarms as they are, that a connection that is closed stays closed, and for
-- `Connect` that each wait brings the handshake nearer to its end. The conversions to socket
-- addresses succeed. The reads of one event are a finite sequence, given with the event.
--
-- Not modelled: the sessions and streams of the client, which hand every call to the library;
-- `LogStateOnCrash` and other output of the epoll server; the set-up of the library's crypto
-- configuration; the factories of packet writers; the parts of quic_socket_utils.cc that no built
-- code calls; and the performance programs.
pub mod Prelude
pub mod Net
pub mod Socket
pub mod Writer
pub mod Blocked
pub mod TimeWait
pub mod Library
pub mod Dispatcher
pub mod Epoll
pub mod Alarms
pub mod Cycle
pub mod Server
pub mod Client
pub mod Stream
pub mod Tests
