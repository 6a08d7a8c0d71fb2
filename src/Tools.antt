-- ===== src/Tools.antt =====
-- tools/reconnect_stress.cc and tools/reconnect_probe.cc: the parts of the stress and the probe program
-- that judge the library, their brokers and the account of publishes.
pub mod Broker
pub mod Stats
pub mod Links
pub mod Probe
pub mod Schedule
mod Tests
