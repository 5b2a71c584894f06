-- ===== src/Alsa/Patch.antt =====
-- struct _alsa_patch and the functions of lashd/alsa_patch.c on it. Freeing memory is left out.
pub mod Types
pub mod Xml
pub mod Compare
pub mod Ids
