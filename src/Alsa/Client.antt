-- ===== src/Alsa/Client.antt =====
-- struct _alsa_client and lashd/alsa_client.c.
use gnu_lash.Prelude.{ℕ, List, [], ◌∷◌, ◌++◌}
use gnu_lash.Uuid.{Uuid, UuidLib}
use gnu_lash.Alsa.Seq.{SeqLib}
use gnu_lash.Alsa.Patch.Types.{AlsaPatch, patch_dup}

pub record AlsaClient (Sub : Type 0) : Type 0 where
  pub client_id : ℕ
  pub id : Uuid
  pub patches : List (AlsaPatch Sub)
  pub old_patches : List (AlsaPatch Sub)
  pub backup_patches : List (AlsaPatch Sub)

module _ {Sub : Type 0} (lib : UuidLib) (seq : SeqLib Sub) where
  -- alsa_client_init and alsa_client_new
  unfoldable pub client_new : AlsaClient Sub
  client_new = record {
    client_id = 0;
    id = lib.null;
    patches = [];
    old_patches = [];
    backup_patches = [];
  }

  unfoldable pub dup_all : List (AlsaPatch Sub) → List (AlsaPatch Sub)
  dup_all [] = []
  dup_all (patch ∷ patches) = patch_dup lib seq patch ∷ dup_all patches

  -- alsa_client_dup_patches: the copies go to the end of `dest`.
  unfoldable pub dup_patches : AlsaClient Sub → List (AlsaPatch Sub) → List (AlsaPatch Sub)
  unfolding dup_all
  dup_patches client dest = dest ++ dup_all client.patches
