-- ===== src/JackPatch/Types.antt =====
-- struct _jack_patch (lashd/jack_patch.h), its descriptions and its copy. A null pointer is `none`.
-- A function that can read through a null pointer returns `none` where it does.
use gnu_lash.Prelude.{Option, none, some, ◌∷◌, ◌++◌, Str, ◌>>=◌}
use gnu_lash.Uuid.{Uuid, UuidLib}

pub record JackPatch : Type 0 where
  pub src_client : Option Str
  pub src_port : Option Str
  pub dest_client : Option Str
  pub dest_port : Option Str
  pub src_desc : Option Str
  pub dest_desc : Option Str
  pub src_client_id : Uuid
  pub dest_client_id : Uuid

module _ (lib : UuidLib) where
  -- jack_patch_new: all pointers null, and the null UUIDs
  unfoldable pub patch_new : JackPatch
  patch_new = record {
    src_client = none;
    src_port = none;
    dest_client = none;
    dest_port = none;
    src_desc = none;
    dest_desc = none;
    src_client_id = lib.null;
    dest_client_id = lib.null;
  }

  -- sprintf (desc, "%s:%s", client or ID, port). A null port is read by strlen.
  unfoldable pub description : Option Str → Uuid → Option Str → Option Str
  description client id none = none
  description none id (some port) = some (lib.unparse id ++ b':' ∷ port)
  description (some name) id (some port) = some (name ++ b':' ∷ port)

  -- jack_patch_set_src_desc and jack_patch_set_dest_desc
  unfoldable pub set_src_desc : JackPatch → Option JackPatch
  set_src_desc patch = description patch.src_client patch.src_client_id patch.src_port >>= λ desc.
      some (record patch { src_desc = some desc })

  unfoldable pub set_dest_desc : JackPatch → Option JackPatch
  set_dest_desc patch =
      description patch.dest_client patch.dest_client_id patch.dest_port >>= λ desc.
      some (record patch { dest_desc = some desc })

  unfoldable pub set_descs : JackPatch → Option JackPatch
  unfolding set_src_desc set_dest_desc
  set_descs patch = set_src_desc patch >>= set_dest_desc

  -- jack_patch_dup: all but the descriptions is copied, and those are made anew.
  unfoldable pub patch_dup : JackPatch → Option JackPatch
  unfolding set_descs
  patch_dup other = set_descs (record other { src_desc = none; dest_desc = none })
