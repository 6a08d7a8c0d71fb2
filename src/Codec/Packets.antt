-- ===== src/Codec/Packets.antt =====
-- inc/litemqtt/packets.hpp: the control packets.
pub mod Frame
pub mod Connect
pub mod Publish
pub mod Subscribe
pub mod Acks
pub mod Any
