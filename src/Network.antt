-- ===== src/Network.antt =====
-- app/core/network.
pub mod ClientIp
