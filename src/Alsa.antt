-- ===== src/Alsa.antt =====
-- The ALSA side of the daemon. `Seq` is what the code relies on of libasound, `Number` the reading
-- of numbers, `Patch` is lashd/alsa_patch.c, a subscription between two sequencer ports, `Client`
-- lashd/alsa_client.c, a client with its lists of patches, and `Manager` lashd/alsa_mgr.c.
pub mod Seq
pub mod Number
pub mod Patch
pub mod Client
pub mod Manager
mod Tests
