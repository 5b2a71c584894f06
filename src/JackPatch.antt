-- ===== src/JackPatch.antt =====
-- lashd/jack_patch.c: a connection between two JACK ports. `Types` is the structure and its
-- descriptions, `Xml` the functions for the project file, `ByDescription` those of a build
-- with jackdbus, and `Manager` those of a build without.
pub mod Types
pub mod Xml
pub mod ByDescription
pub mod Manager
mod Tests
