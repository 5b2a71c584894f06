-- ===== src/Alsa/Manager/Patches.antt =====
-- The patches of the clients: read from the sequencer, backed up, and handed out.
use gnu_lash.Prelude.{
  ℕ, ◌+◌, ◌==◌, Bool, true, false, ltb, Option, none, some, List, [], ◌∷◌, ◌++◌, map, if◌then◌else◌,
}
use gnu_lash.Uuid.{Uuid, UuidLib}
use gnu_lash.Alsa.Seq.{Fields, Addr, SeqLib, Sequencer}
use gnu_lash.Alsa.Patch.Types.{AlsaPatch, query_to_sub, patch_new_with_query, switch_clients}
use gnu_lash.Alsa.Patch.Compare.{patch_compare}
use gnu_lash.Alsa.Patch.Ids.{patch_set}
use gnu_lash.Alsa.Client.{AlsaClient, dup_patches}
use gnu_lash.Alsa.Manager.Types.{AlsaMgr, get_client}

abbrev pub backup_timeout : ℕ
backup_timeout = 30

module _ {Sub : Type 0} (lib : UuidLib) (seq : SeqLib Sub) where
  -- The loop over `dest` in alsa_mgr_get_client_patches: an equal patch is there already.
  unfoldable pub has_patch : List (AlsaPatch Sub) → AlsaPatch Sub → Bool
  has_patch [] patch = false
  has_patch (p ∷ ps) patch =
      let rest = has_patch ps patch in if patch_compare seq patch p == 0 then true else rest

  unfoldable pub add_unique :
      List (AlsaClient Sub) → List (AlsaPatch Sub) → List (AlsaPatch Sub) → List (AlsaPatch Sub)
  unfolding has_patch
  add_unique clients dest [] = dest
  add_unique clients dest (p ∷ ps) =
      let patch = patch_set lib seq p clients in
      add_unique clients (if has_patch dest patch then dest else dest ++ (patch ∷ [])) ps

  -- The body of the loop of alsa_mgr_get_alsa_patches_with_port, with `write` for the type
  -- SND_SEQ_QUERY_SUBS_WRITE: the static subscription and the patches.
  unfoldable pub patches_of_queries : Bool → Sub → List Fields → Sub × List (AlsaPatch Sub)
  patches_of_queries write scratch [] = (scratch, [])
  patches_of_queries write scratch (query ∷ queries) =
      let patch = patch_new_with_query lib seq scratch query in
      let (scratch', rest) =
        patches_of_queries write (query_to_sub lib seq scratch query) queries in
      (scratch', (if write then switch_clients lib seq patch else patch) ∷ rest)

  -- The body of the loop of alsa_mgr_backup_patches.
  unfoldable pub backup_client : List (AlsaClient Sub) → AlsaClient Sub → AlsaClient Sub
  backup_client clients c = record c {
    backup_patches = map (λ p. patch_set lib seq p clients) (dup_patches lib seq c []);
  }

module _ {Sub World : Type 0} (lib : UuidLib) (seq : SeqLib Sub) where
  -- alsa_mgr_get_client_patches behind the look-up of the client.
  unfoldable pub unique_patches :
      AlsaMgr Sub World → List (AlsaPatch Sub) → Option (AlsaClient Sub) → List (AlsaPatch Sub)
  unfolding add_unique
  unique_patches mgr dest none = dest
  unique_patches mgr dest (some client) =
      add_unique lib seq mgr.clients dest (dup_patches lib seq client [])

  unfoldable pub get_client_patches :
      AlsaMgr Sub World → Uuid → List (AlsaPatch Sub) → List (AlsaPatch Sub)
  unfolding get_client unique_patches
  get_client_patches mgr id dest = unique_patches mgr dest (get_client lib mgr.clients id)

  -- alsa_mgr_backup_patches, at the time `now`.
  unfoldable pub backup_patches : AlsaMgr Sub World → ℕ → AlsaMgr Sub World
  unfolding backup_client
  backup_patches mgr now = if ltb now (mgr.last_backup + backup_timeout) then mgr else record mgr {
    clients = map (backup_client lib seq mgr.clients) mgr.clients;
    last_backup = now;
  }

module _ {Sub World : Type 0} (lib : UuidLib) (seq : SeqLib Sub)
    (kernel : Sequencer Sub World) where
  -- The loop of alsa_mgr_redo_client_patches over the ports of the client.
  unfoldable pub patches_of_ports : World → Sub → List Addr → Sub × List (AlsaPatch Sub)
  unfolding patches_of_queries
  patches_of_ports w scratch [] = (scratch, [])
  patches_of_ports w scratch (port ∷ ports) =
      let (s, read) = patches_of_queries lib seq false scratch (kernel.readers w port) in
      let (s', written) = patches_of_queries lib seq true s (kernel.writers w port) in
      let (s'', rest) = patches_of_ports w s' ports in (s'', read ++ (written ++ rest))

  -- The loop of alsa_mgr_redo_patches: the patches of each client are read anew.
  unfoldable pub redo_all : World → Sub → List (AlsaClient Sub) → Sub × List (AlsaClient Sub)
  unfolding patches_of_ports
  redo_all w scratch [] = (scratch, [])
  redo_all w scratch (c ∷ cs) =
      let (s, patches) = patches_of_ports w scratch (kernel.ports w c.client_id) in
      let (s', rest) = redo_all w s cs in (s', record c { patches = patches } ∷ rest)

  unfoldable pub redo_patches : AlsaMgr Sub World → AlsaMgr Sub World
  unfolding redo_all
  redo_patches mgr =
      let (scratch, clients) = redo_all mgr.sequencer mgr.scratch mgr.clients in
      record mgr { scratch = scratch; clients = clients }
