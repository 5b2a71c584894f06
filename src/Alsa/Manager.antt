-- ===== src/Alsa/Manager.antt =====
-- lashd/alsa_mgr.c and lashd/alsa_fport.c: the daemon's knowledge of the ALSA sequencer. A foreign
-- port is one whose client the daemon does not know.
pub mod Types
pub mod Resume
pub mod Registry
pub mod Patches
pub mod Events
pub mod Numbers
pub mod Foreign
pub mod Unique
pub mod Accounts
