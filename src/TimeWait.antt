-- ===== src/TimeWait.antt =====
-- net/tools/quic/quic_time_wait_list_manager.{h,cc}: the connection ids of closed connections.
pub mod Data
pub mod Wire
pub mod Expiry
