-- ===== src/Protocol.antt =====
-- sysmodule/source/protocol: the packets of the RyuLdn protocol and their framing.
pub mod Header
pub mod Codec
pub mod PacketBuffer
mod Tests
