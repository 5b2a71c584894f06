-- ===== src/Alsa/Manager/Types.antt =====
-- struct _alsa_mgr, struct _alsa_fport, and the look-up of clients.
use gnu_lash.Prelude.{ℕ, Option, List, [], ◌∷◌, find?, if◌then◌else◌}
use gnu_lash.Uuid.{Uuid, UuidLib}
use gnu_lash.Alsa.Client.{AlsaClient}

pub record Fport : Type 0 where
  pub client : ℕ
  pub port : ℕ

-- alsa_fport_new
unfoldable pub fport_new : Fport
fport_new = record { client = 0; port = 0 }

unfoldable pub fport_new_with_all : ℕ → ℕ → Fport
unfolding fport_new
fport_new_with_all client port = record (record fport_new { client = client }) { port = port }

-- Next to the fields of the manager: the sequencer, and the static variables of query_to_sub and
-- alsa_mgr_backup_patches.
pub record AlsaMgr (Sub World : Type 0) : Type 0 where
  pub clients : List (AlsaClient Sub)
  pub foreign_ports : List Fport
  pub sequencer : World
  pub scratch : Sub
  pub last_backup : ℕ

-- alsa_mgr_new, where the connection to the sequencer succeeds. The static variables are as the
-- process starts with them, and `scratch` stands for the subscription that query_to_sub makes.
unfoldable pub mgr_new : {Sub World : Type 0} → World → Sub → AlsaMgr Sub World
mgr_new w scratch = record {
  clients = [];
  foreign_ports = [];
  sequencer = w;
  scratch = scratch;
  last_backup = 0;
}

module _ {Sub : Type 0} (lib : UuidLib) where
  -- alsa_mgr_get_client
  unfoldable pub get_client : List (AlsaClient Sub) → Uuid → Option (AlsaClient Sub)
  get_client clients id = find? (λ c. lib.same c.id id) clients

  -- The list after the client that alsa_mgr_get_client finds is changed.
  unfoldable pub put_client :
      List (AlsaClient Sub) → Uuid → (AlsaClient Sub → AlsaClient Sub) → List (AlsaClient Sub)
  put_client [] id change = []
  put_client (c ∷ cs) id change =
      let rest = put_client cs id change in if lib.same c.id id then change c ∷ cs else c ∷ rest

  -- The list after that client is taken out.
  unfoldable pub delete_client : List (AlsaClient Sub) → Uuid → List (AlsaClient Sub)
  delete_client [] id = []
  delete_client (c ∷ cs) id =
      let rest = delete_client cs id in if lib.same c.id id then cs else c ∷ rest
