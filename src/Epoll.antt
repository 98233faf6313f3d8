-- ===== src/Epoll.antt =====
-- net/tools/epoll_server/epoll_server.cc: the descriptors that are watched, and those that are ready.
pub mod Data
pub mod Registry
pub mod Loop
pub mod Waiting
