-- ===== src/JackMgr.antt =====
-- lashd/jack_mgr.c, lashd/jack_mgr_client.c and lashd/jack_fport.c, in a build without jackdbus: the
-- clients that the daemon knows in JACK, their connections, and the ports of clients that it does
-- not know. `none` is a function that reads through a null pointer.
pub mod Types
pub mod Resume
pub mod Registry
pub mod Patches
pub mod Events
pub mod Messages
pub mod Returns
pub mod Accounts
pub mod Halves
pub mod Names
pub mod Foreign
mod Tests
