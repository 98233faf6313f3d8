-- ===== src/Alarms.antt =====
-- The alarms of net/tools/epoll_server/epoll_server.cc and net/tools/quic/quic_epoll_connection_helper.cc.
pub mod Data
pub mod Registry
pub mod Loop
