-- ===== src/Tasks.antt =====
-- The tasks of a project: saving the clients of a session, and the progress that they report.
-- `Types` has the fields of `struct lash_client` and `struct _project` that take part, `Client`
-- the functions of lashd/project.c and lashd/client.c for one client, `Session` the handlers that
-- pick a client of the project, and project_save, and `Loss` the loss of a client.
pub mod Types
pub mod Client
pub mod Session
pub mod Loss
mod Tests
