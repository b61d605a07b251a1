-- ===== src/Network.antt =====
-- sysmodule/source/network: the connection to the server.
pub mod ConnectionState
pub mod Reconnect
pub mod SendQueue
pub mod Socket
pub mod TcpInterface
pub mod TcpClient
pub mod Client
mod Tests
