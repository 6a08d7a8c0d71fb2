-- ===== src/Connection.antt =====
-- inc/litemqtt/connection.hpp: the transport, its framing of the byte stream and its write queue.
pub mod Asio
pub mod Framing
pub mod Writes
mod Tests
