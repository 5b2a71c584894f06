-- ===== src/DataSet/RoundTrip.antt =====
-- A data set from a client to the daemon, to the disk, and back. `Entry` follows one entry, `Commit`
-- the store that the daemon fills, `Lists` all entries of a message, and `Loaded` the data set
-- as a whole.
pub mod Entry
pub mod Steps
pub mod Commit
pub mod Lists
pub mod Loaded
