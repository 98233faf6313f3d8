-- ===== src/Tests.antt =====
-- Runs of the models: a world of one socket in which every theorem is applied.
mod Alarms
mod Cycle
mod Streams
mod Clients
mod World
mod Servers
mod TimeWait
mod Dispatcher
mod Epoll
