-- ===== src/Jackdbus/Reconnect.antt =====
-- The connections of a client: those that it had before it was restored are its old patches, and are
-- asked for when a port appears. `none` is a read through a null pointer.
use gnu_lash.Prelude.{
  ℕ, Bool, false, ◌||◌, Option, none, some, List, [], ◌∷◌, ◌++◌, Str, str_eq, ◌==◌, ◌>>=◌,
  if◌then◌else◌,
}
use gnu_lash.Uuid.{Uuid, UuidLib}
use gnu_lash.JackPatch.Types.{JackPatch}
use gnu_lash.JackPatch.ByDescription.{
  Test, passes, found, not_found, crash, matches, find_by_description,
}
use gnu_lash.Jackdbus.Types.{JackClient, Output, connect, find_by_jackdbus_id, find_by_id}

-- strcmp (field, text) == 0
unfoldable pub same_field : Option Str → Str → Option Bool
same_field none text = none
same_field (some s) text = some (str_eq s text)

-- The call ConnectPortsByName for an end and a port of a patch, which must not be null.
unfoldable pub connect_from : Str → Option Str → Str → Str → Option (List Output)
connect_from client none client2 port2 = none
connect_from client (some port) client2 port2 = some (connect client port client2 port2 ∷ [])

unfoldable pub connect_to : Str → Str → Str → Option Str → Option (List Output)
connect_to client1 port1 client none = none
connect_to client1 port1 client (some port) = some (connect client1 port1 client port ∷ [])

unfoldable pub name_of : Option JackClient → Str
name_of none = []
name_of (some c) = c.name

-- The patches without the first one that passes a test.
unfoldable pub delete_first : (JackPatch → Test) → List JackPatch → List JackPatch
delete_first test [] = []
delete_first test (p ∷ ps) =
    let rest = delete_first test ps in elim (test p) [ passes ↦ ps | _ ↦ p ∷ rest ]

module _ (lib : UuidLib) where
  -- The name of an end: its own, or that of the client with the ID.
  unfoldable pub end_name : List JackClient → Option Str → Uuid → Str
  unfolding find_by_id name_of
  end_name clients none id = name_of (find_by_id lib clients id)
  end_name clients (some name) id = name

  -- The test of one end in lashd_jackdbus_mgr_new_client_port.
  unfoldable pub is_own_end : Uuid → Uuid → Option Str → Str → Option Bool
  unfolding same_field
  is_own_end id patch_id port port_name =
      if lib.same patch_id id then same_field port port_name else some false

  -- A round of the loop of lashd_jackdbus_mgr_new_client_port.
  unfoldable pub reconnect : List JackClient → Uuid → Str → Str → JackPatch → Option (List Output)
  unfolding is_own_end end_name connect_from connect_to
  reconnect clients id client_name port_name patch =
      is_own_end id patch.src_client_id patch.src_port port_name >>= λ is_src.
      (if is_src
        then connect_to client_name port_name
            (end_name clients patch.dest_client patch.dest_client_id) patch.dest_port
        else (is_own_end id patch.dest_client_id patch.dest_port port_name >>= λ is_dest.
            (if is_dest
              then connect_from (end_name clients patch.src_client patch.src_client_id)
                  patch.src_port client_name port_name
              else some [])))

  -- lashd_jackdbus_mgr_new_client_port
  unfoldable pub new_client_port :
      List JackPatch → List JackClient → Uuid → Str → Str → Option (List Output)
  unfolding reconnect
  new_client_port [] clients id client_name port_name = some []
  new_client_port (patch ∷ patches) clients id client_name port_name =
      reconnect clients id client_name port_name patch >>= λ calls.
      (new_client_port patches clients id client_name port_name >>= λ rest. some (calls ++ rest))

  -- The test of the other end in lashd_jackdbus_mgr_new_foreign_port.
  unfoldable pub is_foreign_end : Option Str → Option Str → Str → Str → Option Bool
  unfolding same_field
  is_foreign_end none port client_name port_name = some false
  is_foreign_end (some client) port client_name port_name =
      if str_eq client client_name then same_field port port_name else some false

  unfoldable pub reconnect_foreign : JackClient → Str → Str → JackPatch → Option (List Output)
  unfolding is_foreign_end connect_from connect_to
  reconnect_foreign client client_name port_name patch =
      if lib.same patch.src_client_id client.id
      then (is_foreign_end patch.dest_client patch.dest_port client_name port_name >>= λ is_dest.
          (if is_dest
            then connect_from client.name patch.src_port client_name port_name
            else some []))
      else (is_foreign_end patch.src_client patch.src_port client_name port_name >>= λ is_src.
          (if is_src
            then connect_to client_name port_name client.name patch.dest_port
            else some []))

  -- The inner loop of lashd_jackdbus_mgr_new_foreign_port.
  unfoldable pub reconnect_client : JackClient → List JackPatch → Str → Str → Option (List Output)
  unfolding reconnect_foreign
  reconnect_client client [] client_name port_name = some []
  reconnect_client client (patch ∷ patches) client_name port_name =
      reconnect_foreign client client_name port_name patch >>= λ calls.
      (reconnect_client client patches client_name port_name >>= λ rest. some (calls ++ rest))

  unfoldable pub new_foreign_port : List JackClient → Str → Str → Option (List Output)
  unfolding reconnect_client
  new_foreign_port [] client_name port_name = some []
  new_foreign_port (client ∷ clients) client_name port_name =
      reconnect_client client client.old_patches client_name port_name >>= λ calls.
      (new_foreign_port clients client_name port_name >>= λ rest. some (calls ++ rest))

  -- The ID of an end in lashd_jackdbus_mgr_get_patch_uuids, if it is known.
  unfoldable pub end_uuid : List JackClient → JackClient → ℕ → Option Uuid
  unfolding find_by_jackdbus_id
  end_uuid clients client id =
      if id == client.jackdbus_id
      then some client.id
      else (find_by_jackdbus_id clients id >>= λ c. some c.id)

  -- lashd_jackdbus_mgr_get_patch_uuids, if the result is true.
  unfoldable pub get_patch_uuids :
      List JackClient → JackClient → ℕ → ℕ → Option (Option Uuid × Option Uuid)
  unfolding end_uuid
  get_patch_uuids clients client src_id dest_id =
      if src_id == client.jackdbus_id || dest_id == client.jackdbus_id
      then some (end_uuid clients client src_id, end_uuid clients client dest_id)
      else none

  -- lashd_jackdbus_mgr_del_old_patch behind the look-up of the IDs, for the client's patches.
  unfoldable pub del_described :
      List JackPatch
      → Option (Option Uuid × Option Uuid)
      → Str
      → Str
      → Str
      → Str
      → Option (List JackPatch)
  unfolding find_by_description delete_first
  del_described patches none src_name src_port dest_name dest_port = some patches
  del_described patches (some (src_uuid, dest_uuid)) src_name src_port dest_name dest_port =
      elim (find_by_description lib patches src_uuid src_name src_port dest_uuid dest_name
        dest_port) [
          | found patch ↦ some (
              delete_first (matches lib src_uuid src_name src_port dest_uuid dest_name dest_port)
                patches)
          | not_found ↦ some patches
          | crash ↦ none
        ]

  unfoldable pub del_old_patch :
      List JackClient → JackClient → ℕ → Str → Str → ℕ → Str → Str → Option JackClient
  unfolding get_patch_uuids del_described
  del_old_patch clients client src_id src_name src_port dest_id dest_name dest_port =
      del_described client.old_patches (get_patch_uuids clients client src_id dest_id) src_name
        src_port dest_name dest_port
      >>= λ old. some (record client { old_patches = old })
