-- ===== src/JackMgr/Patches.antt =====
-- The patches of the clients: read from JACK, backed up, and handed out.
use gnu_lash.Prelude.{
  ℕ, ◌+◌, Bool, true, false, ltb, Option, none, some, List, [], ◌∷◌, ◌++◌, Str, str_eq, codes,
  ◌>>=◌, if◌then◌else◌,
}
use gnu_lash.Uuid.{Uuid, UuidLib}
use gnu_lash.JackPatch.Types.{JackPatch, patch_new}
use gnu_lash.JackPatch.Manager.{MgrClient, patch_set, switch_clients, set_src, set_dest}
use gnu_lash.JackMgr.Types.{Jack, JackMgr, JackClient, JackFport, ends, find_by_id, dup_patch_list}

abbrev pub backup_interval : ℕ
backup_interval = 30

-- strcmp of two names is 0, where neither is null.
unfoldable pub same_name : Option Str → Option Str → Option Bool
same_name (some s) (some t) = some (str_eq s t)
same_name (some s) none = none
same_name none t = none

abbrev and_then : Option Bool → Option Bool → Option Bool
and_then first second = first >>= λ b. (if b then second else some false)

unfoldable pub same_ends : JackPatch → JackPatch → Option Bool
unfolding same_name
same_ends p q = and_then (same_name p.src_client q.src_client) (
    and_then (same_name p.src_port q.src_port)
      (and_then (same_name p.dest_client q.dest_client) (same_name p.dest_port q.dest_port)))

-- The loop over `dest` in jack_mgr_client_dup_uniq_patches: an equal patch is there already.
unfoldable pub has_patch : List JackPatch → JackPatch → Option Bool
unfolding same_ends
has_patch [] patch = some false
has_patch (p ∷ ps) patch =
    let rest = has_patch ps patch in
    (same_ends patch p >>= λ same. (if same then some true else rest))

unfoldable pub add_unique :
    List JackPatch → List MgrClient → List JackPatch → Option (List JackPatch)
unfolding has_patch
add_unique [] known dest = some dest
add_unique (p ∷ ps) known dest = patch_set p known >>= λ patch.
    (has_patch dest patch >>= λ found.
    add_unique ps known (if found then dest else dest ++ (patch ∷ [])))

-- patch_set for each patch of a list.
unfoldable pub set_all : List JackPatch → List MgrClient → Option (List JackPatch)
set_all [] known = some []
set_all (p ∷ ps) known = patch_set p known >>= λ q. (set_all ps known >>= λ qs. some (q ∷ qs))

module _ (lib : UuidLib) where
  -- jack_mgr_client_dup_uniq_patches behind the look-up of the client.
  unfoldable pub unique_patches :
      List JackClient → Option JackClient → List JackPatch → Option (List JackPatch)
  unfolding add_unique
  unique_patches clients none dest = some dest
  unique_patches clients (some client) dest =
      dup_patch_list lib client.patches >>= λ patches. add_unique patches (ends clients) dest

  unfoldable pub dup_uniq_patches :
      List JackClient → Uuid → List JackPatch → Option (List JackPatch)
  unfolding unique_patches find_by_id
  dup_uniq_patches clients id dest = unique_patches clients (find_by_id lib clients id) dest

  -- The loop of jack_mgr_backup_patches.
  unfoldable pub backup_all : List JackClient → List MgrClient → Option (List JackClient)
  unfolding set_all
  backup_all [] known = some []
  backup_all (c ∷ cs) known = dup_patch_list lib c.patches >>= λ copies.
      (set_all copies known >>= λ backup.
      (backup_all cs known >>= λ rest. some (record c { backup_patches = backup } ∷ rest)))

module _ {World : Type 0} (lib : UuidLib) (jack : Jack World) where
  -- jack_mgr_get_client_patches
  unfoldable pub get_client_patches :
      JackMgr World → Uuid → List JackPatch → Option (List JackPatch)
  unfolding dup_uniq_patches
  get_client_patches mgr id dest = dup_uniq_patches lib mgr.clients id dest

  -- jack_mgr_backup_patches, at the time `now`.
  unfoldable pub backup_patches : JackMgr World → ℕ → Option (JackMgr World)
  unfolding backup_all
  backup_patches mgr now =
      if ltb now (mgr.last_backup + backup_interval)
      then some mgr
      else (backup_all lib mgr.clients (ends mgr.clients) >>= λ clients.
          some (record mgr { clients = clients; last_backup = now }))

  -- The inner loop of jack_mgr_get_patches_with_type, over the connections of a port.
  unfoldable pub patches_of_port : Bool → Str → List Str → Option (List JackPatch)
  patches_of_port input port [] = some []
  patches_of_port input port (other ∷ others) = set_src lib (patch_new lib) port >>= λ p.
      (set_dest lib p other >>= λ q.
      (patches_of_port input port others >>= λ rest.
      some ((if input then switch_clients q else q) ∷ rest)))

  unfoldable pub patches_of_ports : Bool → World → List Str → Option (List JackPatch)
  unfolding patches_of_port
  patches_of_ports input w [] = some []
  patches_of_ports input w (port ∷ ports) =
      patches_of_port input port (jack.connections w port) >>= λ found.
      (patches_of_ports input w ports >>= λ rest. some (found ++ rest))

  unfoldable pub get_patches_with_type : World → Str → Bool → Option (List JackPatch)
  unfolding patches_of_ports
  get_patches_with_type w client_name input =
      patches_of_ports input w (jack.get_ports w (client_name ++ codes ":.*") input)

  -- jack_mgr_get_patches: those of the input ports are spliced in front of those of the outputs.
  unfoldable pub get_patches : World → JackClient → Option JackClient
  unfolding get_patches_with_type
  get_patches w client = get_patches_with_type w client.name false >>= λ outputs.
      (get_patches_with_type w client.name true >>= λ inputs.
      some (record client { patches = inputs ++ outputs }))

  unfoldable pub get_all_patches : World → List JackClient → Option (List JackClient)
  unfolding get_patches
  get_all_patches w [] = some []
  get_all_patches w (c ∷ cs) =
      get_patches w c >>= λ c'. (get_all_patches w cs >>= λ cs'. some (c' ∷ cs'))

  -- jack_mgr_check_foreign_ports: the ports that are still there.
  unfoldable pub check_foreign_ports : World → List JackFport → List JackFport
  check_foreign_ports w [] = []
  check_foreign_ports w (f ∷ fs) =
      let rest = check_foreign_ports w fs in
      elim (jack.port_by_id w f.id) [ none ↦ rest | some name ↦ f ∷ rest ]

  unfoldable pub graph_reorder_notification : JackMgr World → Option (JackMgr World)
  unfolding get_all_patches check_foreign_ports
  graph_reorder_notification mgr = get_all_patches mgr.server mgr.clients >>= λ clients.
      some (record mgr {
        clients = clients;
        foreign_ports = check_foreign_ports mgr.server mgr.foreign_ports;
      })
