-- ===== src/Jackdbus/Saved.antt =====
-- The patches that are saved with a client.
use gnu_lash.Prelude.{
  ℕ, ◌≢◌, ◌⊎◌, arith, ◌>>=◌, ◌==◌, ◌≡◌, refl, ap, ◌∙◌, true, ◌||◌, inl, inr, Option, none, some,
  List, [], ◌∷◌, ◌++◌, Str, Bool-cases, if◌then◌else◌,
}
use gnu_lash.Uuid.{Uuid, UuidLib}
use gnu_lash.JackPatch.Types.{
  JackPatch, patch_new, set_descs, set_src_desc, set_dest_desc, description, patch_dup,
}
use gnu_lash.JackPatch.ByDescription.{new_with_all, id_or, name_or}
use gnu_lash.JackMgr.Types.{dup_patch_list}
use gnu_lash.Jackdbus.Types.{
  JackdbusMgr, JackClient, Graph, GraphPatch, find_by_id, find_by_jackdbus_id,
}
use gnu_lash.Jackdbus.Reconnect.{end_uuid, get_patch_uuids}
use gnu_lash.Jackdbus.Patches.{
  patch_before, patches_in, set_backup, finish_patches, patches_of, patches_from,
  get_client_patches,
}

-- All structures of the array can be read.
abbrev pub all_read : List GraphPatch → List (Option GraphPatch)
all_read [] = []
all_read (p ∷ ps) = some p ∷ all_read ps

module _ (lib : UuidLib) where
  -- The ID and the name of an end that is saved: the ID alone for a LASH client, and the name alone for
  -- any other.
  abbrev pub saved_id : Option Uuid → Uuid
  saved_id none = lib.null
  saved_id (some id) = id

  abbrev pub saved_name : Option Uuid → Str → Option Str
  saved_name none name = some name
  saved_name (some id) name = none

  abbrev pub saved_desc : Option Uuid → Str → Str → Str
  saved_desc none name port = name ++ (b':' ∷ port)
  saved_desc (some id) name port = lib.unparse id ++ (b':' ∷ port)

  abbrev pub saved_as : Option Uuid → Option Uuid → GraphPatch → JackPatch
  saved_as src dest p = record {
    src_client = saved_name src p.client1_name;
    src_port = some p.port1_name;
    dest_client = saved_name dest p.client2_name;
    dest_port = some p.port2_name;
    src_desc = some (saved_desc src p.client1_name p.port1_name);
    dest_desc = some (saved_desc dest p.client2_name p.port2_name);
    src_client_id = saved_id src;
    dest_client_id = saved_id dest;
  }

  new_with_all-saved_as :
      (src dest : Option Uuid) (p : GraphPatch)
      → new_with_all lib src dest
          (some p.client1_name)
          (some p.client2_name)
          (some p.port1_name)
          (some p.port2_name)
        ≡ some (saved_as src dest p)
  unfolding new_with_all id_or name_or set_descs set_src_desc set_dest_desc description patch_new
  new_with_all-saved_as none none p = refl
  new_with_all-saved_as none (some d) p = refl
  new_with_all-saved_as (some s) none p = refl
  new_with_all-saved_as (some s) (some d) p = refl

  -- A copy of a saved patch is that patch: its descriptions are made again in the same way.
  patch_dup-saved_as :
      (src dest : Option Uuid) (p : GraphPatch)
      → patch_dup lib (saved_as src dest p) ≡ some (saved_as src dest p)
  unfolding patch_dup set_descs set_src_desc set_dest_desc description
  patch_dup-saved_as none none p = refl
  patch_dup-saved_as none (some d) p = refl
  patch_dup-saved_as (some s) none p = refl
  patch_dup-saved_as (some s) (some d) p = refl

module _ (lib : UuidLib) (clients : List JackClient) (client : JackClient) where
  -- The connections with an end at the client, in their order, as they are saved.
  abbrev pub own : List GraphPatch → List JackPatch
  own [] = []
  own (p ∷ ps) =
      if p.client1_id == client.jackdbus_id || p.client2_id == client.jackdbus_id
      then saved_as lib (end_uuid lib clients client p.client1_id)
          (end_uuid lib clients client p.client2_id) p
        ∷ own ps
      else own ps

  patches_in-own :
      (ps : List GraphPatch) → patches_in lib (all_read ps) clients client ≡ some (own ps, true)
  unfolding patches_in get_patch_uuids patch_before
  patches_in-own [] = refl
  patches_in-own (p ∷ ps) =
      elim (Bool-cases (p.client1_id == client.jackdbus_id || p.client2_id == client.jackdbus_id)) [
        | inr e ↦ rw e (patches_in-own ps)
        | inl e ↦ rw e (
            rw
              (new_with_all-saved_as lib (end_uuid lib clients client p.client1_id)
                (end_uuid lib clients client p.client2_id) p)
              (rw (patches_in-own ps) refl))
      ]

  dup_patch_list-own : (ps : List GraphPatch) → dup_patch_list lib (own ps) ≡ some (own ps)
  unfolding dup_patch_list
  dup_patch_list-own [] = refl
  dup_patch_list-own (p ∷ ps) =
      elim (Bool-cases (p.client1_id == client.jackdbus_id || p.client2_id == client.jackdbus_id)) [
        | inr e ↦ rw e (dup_patch_list-own ps)
        | inl e ↦ rw e (
            rw
              (patch_dup-saved_as lib (end_uuid lib clients client p.client1_id)
                (end_uuid lib clients client p.client2_id) p)
              (rw (dup_patch_list-own ps) refl))
      ]

-- The client has the new backup, and is as it was otherwise.
find_by_id-set_backup :
    (lib : UuidLib) (clients : List JackClient) (id : Uuid) (patches : List JackPatch)
    (c : JackClient)
    → find_by_id lib clients id ≡ some c
    → find_by_id lib (set_backup lib clients id patches) id
      ≡ some (record c { backup_patches = patches })
unfolding find_by_id set_backup
find_by_id-set_backup lib [] id patches c h = cc h
find_by_id-set_backup lib (d ∷ ds) id patches c h = elim (Bool-cases (lib.same id d.id)) [
  | inl e ↦ rw e (rw e (cc (rw e at h)))
  | inr e ↦ rw e (rw e (find_by_id-set_backup lib ds id patches c (rw e at h)))
]

-- The ID of the first client with the number in jackdbus, if there is one.
abbrev pub IsIdOf : List JackClient → ℕ → Option Uuid → Type 0
IsIdOf [] number id = id ≡ none
IsIdOf (c ∷ cs) number id =
    ((c.jackdbus_id ≡ number) × (id ≡ some c.id)) ⊎ (c.jackdbus_id ≢ number) × IsIdOf cs number id

find_by_jackdbus_id-IsIdOf :
    (clients : List JackClient) (number : ℕ)
    → IsIdOf clients number (find_by_jackdbus_id clients number >>= λ c. some c.id)
unfolding find_by_jackdbus_id
find_by_jackdbus_id-IsIdOf [] number = refl
find_by_jackdbus_id-IsIdOf (c ∷ cs) number = ground (arith, find_by_jackdbus_id-IsIdOf cs number)

module _ (lib : UuidLib) (clients : List JackClient) (client : JackClient) where
  -- What an end of a connection is known as: the client itself, or what the list says.
  abbrev pub IsKnownAs : ℕ → Option Uuid → Type 0
  IsKnownAs number id =
      ((number ≡ client.jackdbus_id) × (id ≡ some client.id))
      ⊎ (number ≢ client.jackdbus_id) × IsIdOf clients number id

  end_uuid-IsKnownAs : (number : ℕ) → IsKnownAs number (end_uuid lib clients client number)
  unfolding end_uuid
  end_uuid-IsKnownAs number = elim (Bool-cases (number == client.jackdbus_id)) [
    | inl e ↦ rw e (inl (ground arith, refl))
    | inr e ↦ rw e (inr (ground arith, find_by_jackdbus_id-IsIdOf clients number))
  ]

  -- The patch has the ports of the connection, and at each end the ID or the name.
  abbrev pub IsSavedAs : GraphPatch → JackPatch → Type 0
  IsSavedAs p saved =
      (src : Option Uuid) × (dest : Option Uuid) × IsKnownAs p.client1_id src
      × IsKnownAs p.client2_id dest
      × (saved ≡ saved_as lib src dest p)

  -- The patches are those of the connections that have an end at the client, one for each.
  abbrev pub AreOwn : List GraphPatch → List JackPatch → Type 0
  AreOwn [] patches = patches ≡ []
  AreOwn (p ∷ ps) patches =
      (((p.client1_id ≡ client.jackdbus_id) ⊎ (p.client2_id ≡ client.jackdbus_id))
        × ((first : JackPatch) × (rest : List JackPatch) × (patches ≡ first ∷ rest)
            × IsSavedAs p first
            × AreOwn ps rest))
      ⊎ (p.client1_id ≢ client.jackdbus_id)
        × (p.client2_id ≢ client.jackdbus_id)
        × AreOwn ps patches

  own-AreOwn : (ps : List GraphPatch) → AreOwn ps (own lib clients client ps)
  own-AreOwn [] = refl
  own-AreOwn (p ∷ ps) =
      elim (Bool-cases (p.client1_id == client.jackdbus_id || p.client2_id == client.jackdbus_id)) [
        | inr e ↦ rw e (inr (ground arith, ground arith, own-AreOwn ps))
        | inl e ↦ rw e (
            inl (
              ground arith,
              (
                _,
                _,
                refl,
                (_, _, end_uuid-IsKnownAs p.client1_id, end_uuid-IsKnownAs p.client2_id, refl),
                own-AreOwn ps,
              ),
            ))
      ]

-- If the connections of the graph can be read, lashd_jackdbus_mgr_get_client_patches gives an empty
-- list the connections of the client in the graph, in their order: each has the two ports, and at each
-- end this client's ID, or that of the first LASH client with the number of the end in jackdbus, or, if
-- there is none, the name in the graph. The client's backup is then the same list.
pub get_client_patches-own :
    (lib : UuidLib) (mgr : JackdbusMgr) (id : Uuid) (client : JackClient) (g : Graph)
    (ps : List GraphPatch)
    → mgr.graph ≡ some g
    → g.patches ≡ some (all_read ps)
    → find_by_id lib mgr.clients id ≡ some client
    → (patches : List JackPatch) × AreOwn lib mgr.clients client ps patches
      × ((mgr' : JackdbusMgr) × (get_client_patches lib mgr id [] ≡ some (mgr', (patches, true)))
          × (find_by_id lib mgr'.clients id ≡ some (record client { backup_patches = patches })))
unfolding get_client_patches patches_from patches_of finish_patches
get_client_patches-own lib mgr id client g ps has array known =
    let patches = own lib mgr.clients client ps in
    (
      patches,
      own-AreOwn lib mgr.clients client ps,
      (
        record mgr { clients = set_backup lib mgr.clients id patches },
        ap (patches_from lib mgr id []) has
            ∙ ap
                (λ (a : Option (List (Option GraphPatch))).
                  patches_of lib mgr id [] a (find_by_id lib mgr.clients id))
                array
            ∙ ap (patches_of lib mgr id [] (some (all_read ps))) known
            ∙ (rw (patches_in-own lib mgr.clients client ps)
                (rw (dup_patch_list-own lib mgr.clients client ps) refl)),
        find_by_id-set_backup lib mgr.clients id patches client known,
      ),
    )
