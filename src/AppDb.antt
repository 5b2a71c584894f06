-- ===== src/AppDb.antt =====
-- The application database, lashd/appdb.c: the desktop entries that have an X-LASH key. `Parse` reads
-- a desktop entry, and `Load` searches the directories. Memory never runs out here.
pub mod Parse
pub mod Load
mod Tests
