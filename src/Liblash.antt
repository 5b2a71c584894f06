-- ===== src/Liblash.antt =====
-- The old interface of the client library: `Event` is liblash/event.c, `Queue` the handling of
-- events in liblash/lash.c and liblash/client.c, `Tasks` the method Save in
-- liblash/dbus_iface_client.c, and `Args` the taking out of arguments.
pub mod Event
pub mod Queue
pub mod Answers
pub mod Args
pub mod Tasks
mod Tests
