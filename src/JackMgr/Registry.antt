-- ===== src/JackMgr/Registry.antt =====
-- The clients that the daemon tells the manager of, and the ports that JACK announces.
use gnu_lash.Prelude.{
  ℕ, ◌==◌, Bool, true, false, Option, none, some, List, [], ◌∷◌, ◌++◌, Str, str_eq, ◌>>=◌, is_empty,
  if◌then◌else◌,
}
use gnu_lash.Uuid.{Uuid, UuidLib}
use gnu_lash.JackPatch.Types.{JackPatch}
use gnu_lash.JackPatch.Manager.{MgrClient, split_port}
use gnu_lash.JackMgr.Types.{
  Jack, JackMgr, JackClient, JackFport, ends, added_client, fport_new, find_by_id, delete_client,
}
use gnu_lash.JackMgr.Resume.{resume_old}

-- The list after its first port with the number is taken out.
unfoldable pub delete_fport : ℕ → List JackFport → List JackFport
delete_fport id [] = []
delete_fport id (f ∷ fs) = let rest = delete_fport id fs in if id == f.id then fs else f ∷ rest

module _ {World : Type 0} where
  unfoldable pub remove_foreign_port : JackMgr World → ℕ → JackMgr World
  unfolding delete_fport
  remove_foreign_port mgr id = record mgr { foreign_ports = delete_fport id mgr.foreign_ports }

module _ {World : Type 0} (lib : UuidLib) where
  -- jack_mgr_remove_client behind the look-up. Backup patches go to the front of the list that the
  -- caller gives, but list_splice leaves the client's own head pointing at them: then
  -- jack_mgr_client_destroy frees them, goes on into the caller's list, and takes its head for a patch.
  -- That is `none`.
  unfoldable pub remove_found :
      JackMgr World
      → Uuid
      → Option (List JackPatch)
      → Option JackClient
      → Option (JackMgr World × Option (List JackPatch))
  unfolding delete_client
  remove_found mgr id backup_patches none = some (mgr, backup_patches)
  remove_found mgr id none (some client) =
      some (record mgr { clients = delete_client lib mgr.clients id }, none)
  remove_found mgr id (some patches) (some client) =
      if is_empty client.backup_patches
      then some (record mgr { clients = delete_client lib mgr.clients id }, some patches)
      else none

  unfoldable pub remove_client :
      JackMgr World
      → Uuid
      → Option (List JackPatch)
      → Option (JackMgr World × Option (List JackPatch))
  unfolding find_by_id remove_found
  remove_client mgr id backup_patches =
      remove_found mgr id backup_patches (find_by_id lib mgr.clients id)

module _ {World : Type 0} (lib : UuidLib) (jack : Jack World) where
  -- jack_mgr_new_client_port for a client, in a list with these ends.
  unfoldable pub new_client_port :
      World → List MgrClient → Str → JackClient → Option (World × JackClient)
  unfolding resume_old
  new_client_port w known port client =
      resume_old lib jack client.old_patches w known client.name port >>= λ (w', old).
      some (w', record client { old_patches = old })

  -- The loop of jack_mgr_check_client_ports: the ports of the client are no longer foreign.
  unfoldable pub check_ports :
      List JackFport
      → World
      → List MgrClient
      → JackClient
      → Option (World × JackClient × List JackFport)
  unfolding new_client_port
  check_ports [] w known client = some (w, client, [])
  check_ports (f ∷ fs) w known client =
      let mine = str_eq client.name f.client_name in
      (if mine then new_client_port w known f.port_name client else some (w, client))
      >>= λ (w', client').
          (check_ports fs w' known client' >>= λ (w'', client'', rest).
          some (w'', client'', if mine then rest else f ∷ rest))

  -- jack_mgr_add_client, with jack_mgr_check_client_ports
  unfoldable pub add_client : JackMgr World → Uuid → Str → List JackPatch → Option (JackMgr World)
  unfolding check_ports added_client
  add_client mgr id name jack_patches =
      let client = added_client name id jack_patches in
      check_ports mgr.foreign_ports mgr.server (ends (mgr.clients ++ (client ∷ []))) client
      >>= λ (w, client', rest).
          some (record mgr {
            clients = mgr.clients ++ (client' ∷ []);
            foreign_ports = rest;
            server = w;
          })

  -- The loop of jack_mgr_port_notification: the first client with the name, if there is one.
  unfoldable pub notify_client :
      List JackClient → World → List MgrClient → Str → Str → Option (Bool × World × List JackClient)
  unfolding new_client_port
  notify_client [] w known name port = some (false, w, [])
  notify_client (c ∷ cs) w known name port =
      let later = notify_client cs w known name port in
      if str_eq c.name name
      then (new_client_port w known port c >>= λ (w', c'). some (true, w', c' ∷ cs))
      else (later >>= λ (found, w', cs'). some (found, w', c ∷ cs'))

  -- jack_mgr_port_notification behind strchr.
  unfoldable pub register_port :
      JackMgr World → ℕ → Str → Option (Str × Str) → Option (JackMgr World)
  unfolding notify_client fport_new
  register_port mgr id name none = some mgr
  register_port mgr id name (some (client_name, port)) =
      notify_client mgr.clients mgr.server (ends mgr.clients) client_name port
      >>= λ (found, w, clients).
          (if found
            then some (record mgr { clients = clients; server = w })
            else some
                (record mgr { foreign_ports = mgr.foreign_ports ++ (fport_new id name ∷ []) }))

  unfoldable pub port_named : JackMgr World → ℕ → Option Str → Option (JackMgr World)
  unfolding register_port split_port
  port_named mgr id none = some mgr
  port_named mgr id (some name) = register_port mgr id name (split_port name)

  unfoldable pub port_notification : JackMgr World → ℕ → Option (JackMgr World)
  unfolding port_named
  port_notification mgr id = port_named mgr id (jack.port_by_id mgr.server id)
