-- ===== src/Client.antt =====
-- net/tools/quic/quic_client.{h,cc}: `QuicClient`.
pub mod Data
pub mod Opening
pub mod Lifetime
