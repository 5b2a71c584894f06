-- ===== src/Jackdbus.antt =====
-- The daemon's view of JACK in a build with jackdbus: lashd/jackdbus_mgr.c and what it uses of
-- lashd/jack_mgr_client.c. `Types` has the structures, `Graph` the graph that jackdbus sends,
-- `Patches` what is saved of it, `Reconnect` the connections that a client had, and `Signals` the
-- handlers.
pub mod Types
pub mod Reconnect
pub mod Graph
pub mod Patches
pub mod Signals
pub mod Handler
pub mod Current
pub mod Stopped
pub mod Crash
pub mod Saved
pub mod Cycle
mod Tests
