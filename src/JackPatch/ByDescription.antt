-- ===== src/JackPatch/ByDescription.antt =====
-- jack_patch_new_with_all and jack_patch_find_by_description of lashd/jack_patch.c, which a build
-- with jackdbus has.
pub mod Search
use gnu_lash.Prelude.{
  Bool, true, false, not, ◌&&◌, ◌||◌, Option, none, some, List, [], ◌∷◌, Str, str_eq, ◌>>=◌,
  if◌then◌else◌,
}
use gnu_lash.Uuid.{Uuid, UuidLib}
use gnu_lash.JackPatch.Types.{JackPatch, patch_new, set_descs}

-- lash_strdup: a null argument gives an empty string.
abbrev pub strdup : Option Str → Str
strdup none = []
strdup (some s) = s

pub data Found : Type 0 where
  found : JackPatch → Found
  not_found crash : Found

-- A test that may read through a null pointer.
pub data Test : Type 0 where
  passes fails reads_null : Test

-- strcmp of a field of the patch with an argument, which is never null in the callers.
unfoldable pub same_text : Option Str → Str → Test
same_text none s = reads_null
same_text (some t) s = if str_eq t s then passes else fails

-- `||` and `continue`: the next test is only made if this one passes.
abbrev pub and_then : Test → Test → Test
and_then passes t = t
and_then fails t = fails
and_then reads_null t = reads_null

module _ (lib : UuidLib) where
  unfoldable pub id_or : Option Uuid → Uuid
  id_or none = lib.null
  id_or (some id) = id

  unfoldable pub name_or : Option Uuid → Option Str → Option Str
  name_or (some id) name = none
  name_or none name = some (strdup name)

  unfoldable pub new_with_all :
      Option Uuid
      → Option Uuid
      → Option Str
      → Option Str
      → Option Str
      → Option Str
      → Option JackPatch
  unfolding set_descs patch_new
  new_with_all src_uuid dest_uuid src_name dest_name src_port dest_port =
      set_descs lib (record (patch_new lib) {
        src_client_id = id_or src_uuid;
        src_client = name_or src_uuid src_name;
        dest_client_id = id_or dest_uuid;
        dest_client = name_or dest_uuid dest_name;
        src_port = some (strdup src_port);
        dest_port = some (strdup dest_port);
      })

  -- The client of one end: by its ID if one is given, by its name otherwise.
  unfoldable pub same_client : Option Uuid → Str → Option Str → Uuid → Test
  unfolding same_text
  same_client none name client id = same_text client name
  same_client (some uuid) name client id =
      if lib.is_null id then fails else (if lib.same uuid id then passes else fails)

  unfoldable pub matches : Option Uuid → Str → Str → Option Uuid → Str → Str → JackPatch → Test
  matches src_uuid src_name src_port dest_uuid dest_name dest_port patch =
      and_then (same_text patch.src_port src_port) (
        and_then (same_text patch.dest_port dest_port) (
          and_then (same_client src_uuid src_name patch.src_client patch.src_client_id)
            (same_client dest_uuid dest_name patch.dest_client patch.dest_client_id)))

  unfoldable pub find_by_description :
      List JackPatch → Option Uuid → Str → Str → Option Uuid → Str → Str → Found
  find_by_description [] src_uuid src_name src_port dest_uuid dest_name dest_port = not_found
  find_by_description (patch ∷ patches) src_uuid src_name src_port dest_uuid dest_name dest_port =
      let rest =
        find_by_description patches src_uuid src_name src_port dest_uuid dest_name dest_port in
      elim (matches src_uuid src_name src_port dest_uuid dest_name dest_port patch) [
        | passes ↦ found patch
        | fails ↦ rest
        | reads_null ↦ crash
      ]
