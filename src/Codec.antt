-- ===== src/Codec.antt =====
-- The wire format: the byte writer and reader, and the control packets.
pub mod Writer
pub mod Reader
pub mod PacketType
pub mod Packets
mod Tests
