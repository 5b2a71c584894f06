-- ===== src/Store.antt =====
-- lashd/store.c: the key-value store in which the server keeps a client's data set. `Types` and
-- `Memory` are the store in memory, `Encoding` is the format of a config file, `Info` that of the
-- info file, `Disk` the directory, and `Write` and `Read` the operations that go to it.
pub mod Types
pub mod Memory
pub mod Encoding
pub mod Info
pub mod Disk
pub mod Write
pub mod Read
mod Tests
