-- ===== src/Dispatcher.antt =====
-- net/tools/quic/quic_dispatcher.{h,cc} and quic_server_session.{h,cc}.
pub mod Data
pub mod Invariant
pub mod Closing
pub mod Routing
pub mod Writing
pub mod States
