-- ===== src/JackMgr/Resume.antt =====
-- jack_mgr_new_client_port, which makes the connections again that a client had when it was saved.
use gnu_lash.Prelude.{
  Bool, true, false, not, Option, none, some, List, [], ◌∷◌, Str, str_eq, ◌>>=◌, if◌then◌else◌,
}
use gnu_lash.Uuid.{UuidLib}
use gnu_lash.JackPatch.Types.{JackPatch, patch_dup}
use gnu_lash.JackPatch.Manager.{MgrClient, patch_unset}
use gnu_lash.JackMgr.Types.{Jack}

-- strcmp (s, t) == 0 && strcmp (port, u) == 0, for an end of a patch.
unfoldable pub is_end : Str → Str → Option Str → Option Str → Option Bool
is_end name port none patch_port = none
is_end name port (some client) none = if str_eq name client then none else some false
is_end name port (some client) (some patch_port) =
    some (if str_eq name client then str_eq port patch_port else false)

unfoldable pub has_port : JackPatch → Str → Str → Option Bool
unfolding is_end
has_port patch name port = is_end name port patch.src_client patch.src_port >>= λ found.
    (if found then some true else is_end name port patch.dest_client patch.dest_port)

module _ {World : Type 0} (lib : UuidLib) (jack : Jack World) where
  -- jack_mgr_resume_patch. The descriptions of a patch are never null behind jack_patch_dup.
  unfoldable pub resume_patch : World → JackPatch → Option (World × Bool)
  resume_patch w patch =
      patch.src_desc >>= λ src. (patch.dest_desc >>= λ dest. some (jack.connect w src dest))

  -- The round of the loop behind jack_patch_unset: whether the patch is kept.
  unfoldable pub resume_unset : World → Str → Str → JackPatch × Bool → Option (World × Bool)
  unfolding resume_patch has_port
  resume_unset w name port (unset_patch, false) = some (w, false)
  resume_unset w name port (unset_patch, true) = has_port unset_patch name port >>= λ found.
      (if found
        then (resume_patch w unset_patch >>= λ (w', connected). some (w', not connected))
        else some (w, true))

  unfoldable pub resume_one : World → List MgrClient → Str → Str → JackPatch → Option (World × Bool)
  unfolding resume_unset
  resume_one w clients name port patch = patch_dup lib patch >>= λ copy.
      (patch_unset lib copy clients >>= λ unset. resume_unset w name port unset)

  -- jack_mgr_new_client_port: the patches that stay in the client's list.
  unfoldable pub resume_old :
      List JackPatch → World → List MgrClient → Str → Str → Option (World × List JackPatch)
  unfolding resume_one
  resume_old [] w clients name port = some (w, [])
  resume_old (patch ∷ patches) w clients name port =
      resume_one w clients name port patch >>= λ (w', keep).
      (resume_old patches w' clients name port >>= λ (w'', rest).
      some (w'', if keep then patch ∷ rest else rest))
