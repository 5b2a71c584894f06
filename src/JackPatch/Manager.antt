-- ===== src/JackPatch/Manager.antt =====
-- The functions of lashd/jack_patch.c in a build without jackdbus, where a patch is made from the
-- names of JACK's ports, and clients are known to the daemon's JACK manager. `none` is a null
-- pointer, or the result of a function that reads through one or through an unset pointer.
pub mod Names
use gnu_lash.Prelude.{
  Bool, true, false, Option, none, some, List, [], ◌∷◌, Str, str_eq, ◌==◌, ◌>>=◌, if◌then◌else◌,
}
use gnu_lash.Uuid.{Uuid, UuidLib}
use gnu_lash.JackPatch.Types.{JackPatch, set_src_desc, set_dest_desc}

-- The fields of struct _jack_mgr_client that are read here.
pub record MgrClient : Type 0 where
  pub id : Uuid
  pub name : Str

-- jack_patch_set_client_id: the ID that the patch has afterwards.
unfoldable pub set_client_id : List MgrClient → Option Str → Uuid → Option Uuid
set_client_id [] name id = some id
set_client_id (client ∷ clients) none id = none
set_client_id (client ∷ clients) (some name) id =
    if str_eq client.name name then some client.id else set_client_id clients (some name) id

-- jack_patch_set
unfoldable pub patch_set : JackPatch → List MgrClient → Option JackPatch
patch_set patch clients = set_client_id clients patch.src_client patch.src_client_id >>= λ src_id.
    (set_client_id clients patch.dest_client patch.dest_client_id >>= λ dest_id.
    some (record patch { src_client_id = src_id; dest_client_id = dest_id }))

-- jack_patch_switch_clients
unfoldable pub switch_clients : JackPatch → JackPatch
switch_clients patch = record patch {
  src_client = patch.dest_client;
  dest_client = patch.src_client;
  src_port = patch.dest_port;
  dest_port = patch.src_port;
  src_client_id = patch.dest_client_id;
  dest_client_id = patch.src_client_id;
}

-- jack_patch_set_client_and_port: the name up to its first colon, and the rest. The code writes
-- through what strchr returns, whether or not there is a colon.
unfoldable pub split_port : Str → Option (Str × Str)
split_port [] = none
split_port (c ∷ s) =
    let rest = split_port s in
    if c == b':' then some ([], s) else (rest >>= λ (client, port). some (c ∷ client, port))

module _ (lib : UuidLib) where
  -- The variable `client` behind the loop of jack_patch_unset_client_id: the first client with the
  -- ID, the last of the list if none has it, and `last` if the list is empty.
  unfoldable pub after_loop : Option MgrClient → List MgrClient → Uuid → Option MgrClient
  after_loop last [] id = last
  after_loop last (client ∷ clients) id =
      if lib.same id client.id then some client else after_loop (some client) clients id

  -- jack_patch_unset_client_id. The list head that it tests is never null, and so it never fails.
  unfoldable pub unset_client_id : List MgrClient → Uuid → Option Str
  unset_client_id clients id = after_loop none clients id >>= λ client. some client.name

  unfoldable pub unset_src : JackPatch → List MgrClient → Option JackPatch
  unset_src patch clients =
      if lib.is_null patch.src_client_id
      then some patch
      else (unset_client_id clients patch.src_client_id >>= λ name.
          set_src_desc lib (record patch { src_client = some name }))

  unfoldable pub unset_dest : JackPatch → List MgrClient → Option JackPatch
  unset_dest patch clients =
      if lib.is_null patch.dest_client_id
      then some patch
      else (unset_client_id clients patch.dest_client_id >>= λ name.
          set_dest_desc lib (record patch { dest_client = some name }))

  -- jack_patch_unset, which returns true.
  unfoldable pub patch_unset : JackPatch → List MgrClient → Option (JackPatch × Bool)
  patch_unset patch clients =
      unset_src patch clients >>= λ p. (unset_dest p clients >>= λ q. some (q, true))

  -- jack_patch_set_src and jack_patch_set_dest
  unfoldable pub set_src : JackPatch → Str → Option JackPatch
  set_src patch src = split_port src >>= λ (client, port).
      set_src_desc lib (record patch { src_client = some client; src_port = some port })

  unfoldable pub set_dest : JackPatch → Str → Option JackPatch
  set_dest patch dest = split_port dest >>= λ (client, port).
      set_dest_desc lib (record patch { dest_client = some client; dest_port = some port })
