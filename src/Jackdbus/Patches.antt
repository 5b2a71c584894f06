-- ===== src/Jackdbus/Patches.antt =====
-- The patches of a client that are saved with it, and the removal of a client.
use gnu_lash.Prelude.{
  Bool, true, false, Option, none, some, List, [], ◌∷◌, ◌++◌, ◌>>=◌, if◌then◌else◌,
}
use gnu_lash.Uuid.{Uuid, UuidLib}
use gnu_lash.JackPatch.Types.{JackPatch}
use gnu_lash.JackPatch.ByDescription.{new_with_all}
use gnu_lash.JackMgr.Types.{dup_patch_list}
use gnu_lash.Jackdbus.Types.{JackClient, JackdbusMgr, Graph, GraphPatch, find_by_id, delete_client}
use gnu_lash.Jackdbus.Reconnect.{get_patch_uuids}
use gnu_lash.Jackdbus.Graph.{graph_free}

module _ (lib : UuidLib) where
  -- The list in front of which the patch stands, if it is one of the client.
  unfoldable pub patch_before :
      GraphPatch
      → Option (Option Uuid × Option Uuid)
      → Option (List JackPatch × Bool)
      → Option (List JackPatch × Bool)
  patch_before p none rest = rest
  patch_before p (some (uuid1, uuid2)) rest =
      new_with_all lib uuid1 uuid2 (some p.client1_name) (some p.client2_name) (some p.port1_name)
        (some p.port2_name)
      >>= λ patch. (rest >>= λ (later, complete). some (patch ∷ later, complete))

  -- The loop of lashd_jackdbus_mgr_get_client_patches: the patches, and whether it comes to its end.
  unfoldable pub patches_in :
      List (Option GraphPatch) → List JackClient → JackClient → Option (List JackPatch × Bool)
  unfolding get_patch_uuids patch_before
  patches_in [] clients client = some ([], true)
  patches_in (none ∷ patches) clients client = some ([], false)
  patches_in (some p ∷ patches) clients client =
      patch_before p (get_patch_uuids lib clients client p.client1_id p.client2_id)
        (patches_in patches clients client)

  -- The first client with the ID has these patches as its backup.
  unfoldable pub set_backup : List JackClient → Uuid → List JackPatch → List JackClient
  set_backup [] id patches = []
  set_backup (c ∷ cs) id patches =
      let rest = set_backup cs id patches in
      if lib.same id c.id then record c { backup_patches = patches } ∷ cs else c ∷ rest

  -- lashd_jackdbus_mgr_get_client_patches behind the loop.
  unfoldable pub finish_patches :
      JackdbusMgr → Uuid → List JackPatch → Bool → Option (JackdbusMgr × (List JackPatch × Bool))
  unfolding set_backup graph_free
  finish_patches mgr id dest false = some (graph_free mgr, (dest, false))
  finish_patches mgr id dest true = dup_patch_list lib dest >>= λ copies.
      some (record mgr { clients = set_backup mgr.clients id copies }, (dest, true))

  unfoldable pub patches_of :
      JackdbusMgr
      → Uuid
      → List JackPatch
      → Option (List (Option GraphPatch))
      → Option JackClient
      → Option (JackdbusMgr × (List JackPatch × Bool))
  unfolding patches_in finish_patches
  patches_of mgr id dest patches none = some (mgr, (dest, false))
  patches_of mgr id dest none (some client) = finish_patches mgr id dest false
  patches_of mgr id dest (some patches) (some client) =
      patches_in patches mgr.clients client >>= λ (found, complete).
      finish_patches mgr id (dest ++ found) complete

  unfoldable pub patches_from :
      JackdbusMgr
      → Uuid
      → List JackPatch
      → Option Graph
      → Option (JackdbusMgr × (List JackPatch × Bool))
  unfolding patches_of find_by_id
  patches_from mgr id dest none = some (mgr, (dest, false))
  patches_from mgr id dest (some graph) =
      patches_of mgr id dest graph.patches (find_by_id lib mgr.clients id)

  -- lashd_jackdbus_mgr_get_client_patches: the manager, the list of the caller, and the result.
  unfoldable pub get_client_patches :
      JackdbusMgr → Uuid → List JackPatch → Option (JackdbusMgr × (List JackPatch × Bool))
  unfolding patches_from
  get_client_patches mgr id dest = patches_from mgr id dest mgr.graph

  -- The list of the caller behind lashd_jackdbus_mgr_remove_client, if there is one: the backup
  -- patches are put in front.
  unfoldable pub give_backup : JackClient → Option (List JackPatch) → Option (List JackPatch)
  give_backup client none = none
  give_backup client (some patches) = some (client.backup_patches ++ patches)

  unfoldable pub remove_found :
      JackdbusMgr
      → Uuid
      → Option (List JackPatch)
      → Option JackClient
      → JackdbusMgr × Option (List JackPatch) × Bool
  unfolding delete_client give_backup
  remove_found mgr id backup_patches none = (mgr, backup_patches, false)
  remove_found mgr id backup_patches (some client) = (
    record mgr { clients = delete_client lib mgr.clients id },
    give_backup client backup_patches,
    true,
  )

  unfoldable pub remove_client :
      JackdbusMgr → Uuid → Option (List JackPatch) → JackdbusMgr × Option (List JackPatch) × Bool
  unfolding find_by_id remove_found
  remove_client mgr id backup_patches =
      remove_found mgr id backup_patches (find_by_id lib mgr.clients id)
