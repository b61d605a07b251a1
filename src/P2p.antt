-- ===== src/P2p.antt =====
-- sysmodule/source/p2p: the direct connection between two players.
pub mod ReceiveLoop
mod Tests
