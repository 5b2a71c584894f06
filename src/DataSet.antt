-- ===== src/DataSet.antt =====
-- The way of a data set between a client, the daemon and the disk. `Types` has what a D-Bus message
-- holds of a data set, with method_iter_append_dict_entry and method_iter_get_dict_entry of
-- dbus/method.c, `Client` the functions of liblash/lash_config.c that write and read one, `Server`
-- the handler of CommitDataSet in lashd/dbus_iface_server.c and store_create_config_array of
-- lashd/store.c, which makes the message of LoadDataSet, and `RoundTrip` follows a data set all the
-- way. `Refused` is about data sets that the daemon does not take.
pub mod Types
pub mod Client
pub mod Server
pub mod RoundTrip
pub mod Refused
mod Tests
