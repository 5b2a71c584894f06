-- ===== src/Alsa/Manager/Registry.antt =====
-- The clients that the daemon tells the manager of, and the ports that the sequencer announces.
use gnu_lash.Prelude.{
  ℕ, ◌==◌, ◌&&◌, Option, none, some, List, [], ◌∷◌, ◌++◌, find?, is_empty, if◌then◌else◌,
}
use gnu_lash.Uuid.{Uuid, UuidLib}
use gnu_lash.Alsa.Seq.{SeqLib, Sequencer}
use gnu_lash.Alsa.Patch.Types.{AlsaPatch}
use gnu_lash.Alsa.Client.{AlsaClient, client_new}
use gnu_lash.Alsa.Manager.Types.{AlsaMgr, Fport, fport_new_with_all, get_client, delete_client}
use gnu_lash.Alsa.Manager.Resume.{new_client_port}

-- The list after its first entry with the port is taken out.
unfoldable pub delete_fport : ℕ → ℕ → List Fport → List Fport
delete_fport client port [] = []
delete_fport client port (f ∷ fs) =
    let rest = delete_fport client port fs in
    if f.client == client && f.port == port then fs else f ∷ rest

module _ {Sub World : Type 0} where
  -- alsa_mgr_port_removed
  unfoldable pub port_removed : AlsaMgr Sub World → ℕ → ℕ → AlsaMgr Sub World
  unfolding delete_fport
  port_removed mgr client port = record mgr {
    foreign_ports = delete_fport client port mgr.foreign_ports;
  }

module _ {Sub World : Type 0} (lib : UuidLib) where
  -- alsa_mgr_remove_client behind the look-up. Backup patches go to the front of the list that the
  -- caller gives, but list_splice leaves the client's own head pointing at them: then
  -- alsa_client_destroy frees them, goes on into the caller's list, and takes its head for a patch. That
  -- is `none`.
  unfoldable pub remove_found :
      AlsaMgr Sub World
      → Uuid
      → Option (List (AlsaPatch Sub))
      → Option (AlsaClient Sub)
      → Option (AlsaMgr Sub World × Option (List (AlsaPatch Sub)))
  unfolding delete_client
  remove_found mgr id backup_patches none = some (mgr, backup_patches)
  remove_found mgr id none (some client) =
      some (record mgr { clients = delete_client lib mgr.clients id }, none)
  remove_found mgr id (some patches) (some client) =
      if is_empty client.backup_patches
      then some (record mgr { clients = delete_client lib mgr.clients id }, some patches)
      else none

  unfoldable pub remove_client :
      AlsaMgr Sub World
      → Uuid
      → Option (List (AlsaPatch Sub))
      → Option (AlsaMgr Sub World × Option (List (AlsaPatch Sub)))
  unfolding get_client remove_found
  remove_client mgr id backup_patches =
      remove_found mgr id backup_patches (get_client lib mgr.clients id)

module _ {Sub World : Type 0} (lib : UuidLib) (seq : SeqLib Sub)
    (kernel : Sequencer Sub World) where
  -- The loop of alsa_mgr_check_client_fports: the ports of the client are no longer foreign.
  unfoldable pub check_fports :
      AlsaMgr Sub World → Uuid → ℕ → List Fport → AlsaMgr Sub World × List Fport
  unfolding new_client_port
  check_fports mgr id alsa_id [] = (mgr, [])
  check_fports mgr id alsa_id (f ∷ fs) =
      let mine = f.client == alsa_id in
      let mgr' = if mine then new_client_port lib seq kernel mgr id f.port else mgr in
      let (mgr'', rest) = check_fports mgr' id alsa_id fs in
      (mgr'', if mine then rest else f ∷ rest)

  unfoldable pub check_found :
      AlsaMgr Sub World → Uuid → Option (AlsaClient Sub) → AlsaMgr Sub World
  unfolding check_fports
  check_found mgr id none = mgr
  check_found mgr id (some client) =
      let (mgr', rest) = check_fports mgr id client.client_id mgr.foreign_ports in
      record mgr' { foreign_ports = rest }

  unfoldable pub check_client_fports : AlsaMgr Sub World → Uuid → AlsaMgr Sub World
  unfolding check_found get_client
  check_client_fports mgr id = check_found mgr id (get_client lib mgr.clients id)

  -- alsa_mgr_add_client
  unfoldable pub add_client :
      AlsaMgr Sub World → Uuid → ℕ → List (AlsaPatch Sub) → AlsaMgr Sub World
  unfolding check_client_fports client_new
  add_client mgr id alsa_client_id alsa_patches =
      let client = record (client_new lib seq) {
        client_id = alsa_client_id;
        id = id;
        old_patches = alsa_patches;
      } in
      check_client_fports (record mgr { clients = mgr.clients ++ (client ∷ []) }) id

  -- alsa_mgr_new_port behind its loop, which ends at the first client with the number.
  unfoldable pub register_port :
      AlsaMgr Sub World → ℕ → ℕ → Option (AlsaClient Sub) → AlsaMgr Sub World
  unfolding new_client_port fport_new_with_all
  register_port mgr client port (some c) = new_client_port lib seq kernel mgr c.id port
  register_port mgr client port none = record mgr {
    foreign_ports = mgr.foreign_ports ++ (fport_new_with_all client port ∷ []);
  }

  unfoldable pub new_port : AlsaMgr Sub World → ℕ → ℕ → AlsaMgr Sub World
  unfolding register_port
  new_port mgr client port =
      register_port mgr client port
        (find? (λ (c : AlsaClient Sub). c.client_id == client) mgr.clients)
