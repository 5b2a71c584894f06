-- ===== src/Restore.antt =====
-- The order in which the clients of a restored project are launched: the loop over the lost
-- clients in server_project_restore (lashd/server.c), and project_satisfy_client_dependency
-- (lashd/project.c), which client_task_completed calls when a client has loaded its data.
-- Launching a client (loader_execute) starts a process, and leaves these lists alone: it is
-- recorded by the client's ID.
pub mod Launches
pub mod Order
mod Tests
use gnu_lash.Prelude.{
  ℕ, zero, suc, ◌+◌, Bool, true, false, List, [], ◌∷◌, is_empty, if◌then◌else◌, ◌++◌,
}
use gnu_lash.Uuid.{Uuid, UuidLib}
use gnu_lash.Dependency.{Node, sanity_check, init_unsatisfied, remove_dependency}

module _ (lib : UuidLib) where
  -- One round of the loop in server_project_restore: the client, and whether it is launched.
  pub restore_client : List Node → Node → Node × Bool
  restore_client lost_clients client =
      let ready = init_unsatisfied (sanity_check lib lost_clients client) in
      (ready, is_empty ready.unsatisfied_deps)

  -- One round of the loop in project_satisfy_client_dependency for the client `id`.
  pub satisfy_client : Uuid → Node → Node × Bool
  satisfy_client id client =
      if is_empty client.unsatisfied_deps
      then (client, false)
      else (let unsatisfied = remove_dependency lib client.unsatisfied_deps id in
          (record client { unsatisfied_deps = unsatisfied }, is_empty unsatisfied))

  launched_id : Node × Bool → List Uuid → List Uuid
  launched_id (client, launched) ids = if launched then client.id ∷ ids else ids

  -- The whole loops: the lost clients, and the IDs of those that are launched, in order. The
  -- sanity check reads IDs only, which no round changes.
  pub restore_clients : List Node → List Node → List Node × List Uuid
  unfolding launched_id
  restore_clients lost_clients [] = ([], [])
  restore_clients lost_clients (client ∷ clients) =
      let r = restore_client lost_clients client in
      let (rest, ids) = restore_clients lost_clients clients in (r.0 ∷ rest, launched_id r ids)

  pub satisfy_client_dependency : List Node → Uuid → List Node × List Uuid
  unfolding launched_id
  satisfy_client_dependency [] id = ([], [])
  satisfy_client_dependency (client ∷ clients) id =
      let r = satisfy_client id client in
      let (rest, ids) = satisfy_client_dependency clients id in (r.0 ∷ rest, launched_id r ids)

  -- How often a client is launched while the clients in the list finish loading, one by one.
  pub launches : List Uuid → Node → ℕ
  launches [] client = 0
  launches (id ∷ ids) client =
      let (client', launched) = satisfy_client id client in
      (if launched then 1 else 0) + launches ids client'

  pub launches_after_restore : List Node → List Uuid → Node → ℕ
  launches_after_restore lost_clients ids client =
      let (ready, launched) = restore_client lost_clients client in
      (if launched then 1 else 0) + launches ids ready

  -- The IDs of all clients that are launched while the clients in the list finish loading. A client
  -- that comes up leaves the list of lost clients; here it stays, with nothing to wait for.
  pub satisfy_all : List Uuid → List Node → List Uuid
  satisfy_all [] clients = []
  satisfy_all (id ∷ ids) clients =
      let (clients', launched) = satisfy_client_dependency clients id in
      launched ++ satisfy_all ids clients'

  pub restore_all : List Node → List Uuid → List Uuid
  restore_all lost_clients ids =
      let (clients, launched) = restore_clients lost_clients lost_clients in
      launched ++ satisfy_all ids clients
