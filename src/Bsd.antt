-- ===== src/Bsd.antt =====
-- sysmodule/source/bsd: the sockets of a game, as the sysmodule proxies them.
pub mod EphemeralPortPool
pub mod Types
pub mod ProxySocket
pub mod PendingRing
pub mod ProxySocketManager
mod Tests
