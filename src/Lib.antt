-- ===== src/Lib.antt =====
-- LASH, the audio session handler: a model of the daemon lashd and of the client library, and
-- of what their parts promise.
--
-- The daemon keeps projects. A project has clients, which are programs that it starts, saves and
-- restores. The parts that are modelled, from the repository's root:
--
--   * Dependency: the dependency lists of clients, lashd/client_dependency.c, with the handlers
--     AddDependency and RemoveDependency of lashd/dbus_iface_control.c. Graph, Circular, Acyclic,
--     Preserved, SelfLoop and Load are about the search for circles, Lists about the unsatisfied
--     dependencies.
--   * Restore: which lost clients are launched when, server_project_restore of lashd/server.c and
--     project_satisfy_client_dependency of lashd/project.c. It uses Dependency: a client is launched
--     when its list of unsatisfied dependencies becomes empty.
--   * Store: the key-value store in which the daemon keeps the data set of a client,
--     lashd/store.c. A save of a client's data set ends in store_write.
--   * Tasks: the save of a project and the progress reports of its clients, project_save,
--     project_client_progress and project_client_task_completed of lashd/project.c,
--     client_task_progressed, client_task_completed and client_disconnected of lashd/client.c, and
--     the handler of Progress in lashd/dbus_iface_server.c. Its signal `satisfy_dependency` is the
--     call that Restore models, and `store_written` the result of store_write.
--   * JackPatch: connections between JACK ports, lashd/jack_patch.c, for both of its builds.
--   * JackMgr: the daemon's view of JACK in a build without jackdbus, lashd/jack_mgr.c,
--     lashd/jack_mgr_client.c and lashd/jack_fport.c: the clients and their patches, the ports of
--     clients that the daemon does not know, and the messages of JACK's callbacks. libjack and the
--     server are the parameter Jack of JackMgr/Types.
--   * Jackdbus: the same for a build with jackdbus, lashd/jackdbus_mgr.c, which binds what JackMgr
--     does: the graph that jackdbus sends, the clients that are no clients of LASH, the connections
--     that are asked for again, and the signals of jackdbus. What jackdbus answers is a parameter.
--   * Alsa: the daemon's view of the ALSA sequencer, for builds with ALSA. Patch is
--     lashd/alsa_patch.c, Client lashd/alsa_client.c, and Manager lashd/alsa_mgr.c and
--     lashd/alsa_fport.c: the clients and their patches, the ports of clients that the daemon does
--     not know, and the events of the sequencer. libasound and the kernel's sequencer are the
--     parameters of Seq.
--   * Liblash: the events of the client library's old interface, liblash/event.c, and how a client
--     gets and sends them, in liblash/lash.c and liblash/client.c. They are the other side of Tasks:
--     an event asks for a task, and the answer is the Progress call that the daemon counts. Tasks is
--     the method Save in liblash/dbus_iface_client.c, which a callback answers at once, and a client
--     of the old interface with an event. Args is lash_extract_args of liblash/lash.c.
--   * DataSet: the way of a data set from a client to the disk and back: the functions of
--     liblash/lash_config.c that write and read its entries, the dict entries of dbus/method.c, the
--     handler of CommitDataSet in lashd/dbus_iface_server.c, and store_create_config_array of
--     lashd/store.c. It uses Tasks for the end of the client's task and Store for what is kept.
--   * AppDb: the database of applications, lashd/appdb.c: the parser of desktop entries, and the
--     search for them in the directories of the XDG Base Directory Specification. The file system and
--     the environment are the parameter System.
--   * Naming: the names of new clients and projects, project_get_unique_client_name and
--     project_new_client of lashd/project.c, server_create_new_project_name of lashd/server.c.
--   * Uuid and Xml: what the code relies on of libuuid and libxml2, as records of functions and
--     laws, which the definitions take as parameters. Prelude: shared notation and lemmas.
--
-- Functions keep the source's names, less the prefix of their component, and each file says which
-- code it is about. A structure is a record of the fields that its code reads and writes, a list
-- of the source is the sequence of its entries, a null pointer is `none`, and a C string is the
-- list of its bytes. Stateful functions take the state and return it together with their results;
-- signals on the bus are returned as a list in the order in which they are sent. Integers are
-- natural numbers with the wrap-around of their C type written out. Where the code can come to read
-- freed memory or through a null pointer, that is the result `none`.
--
-- The search for circles recurs without a bound in C, and on fuel here, where `none` says that the
-- fuel ran out. With a rank that falls along every dependency, more fuel than the rank of the
-- client where the search begins is enough. The loops that try names have a bounded counter in C,
-- and so has the loop of lash_extract_args that closes the gaps: they recur on the number of rounds
-- that are left. A client that reads a data set has a round for each entry and one for the end, which
-- is enough. All other loops are recursion on the list.
--
-- The managers of JACK and ALSA are changed by the daemon and by a thread of their own, under a lock:
-- what happens to one is a sequence of steps, each a whole call that returns, in any order. The server of JACK and
-- the sequencer of the kernel are parameters with a state of their own, which may change between
-- steps.
--
-- A store's directory is a list of files, and which system calls fail is a parameter (Io). Keys
-- that are no plain file names, because they have a slash or name a directory, are outside the
-- model. Not modelled are the project files, the rest of the client library, and the wrappers
-- around libdbus, the file system and processes.
pub mod Prelude
pub mod Uuid
pub mod Xml
pub mod Dependency
pub mod Restore
pub mod Store
pub mod Tasks
pub mod JackPatch
pub mod Naming
pub mod Alsa
pub mod AppDb
pub mod JackMgr
pub mod Jackdbus
pub mod Liblash
pub mod DataSet
