-- ===== src/JackMgr/Types.antt =====
-- The structures, what the code relies on of libjack, and the look-up of clients.
use gnu_lash.Prelude.{
  ℕ, ◌-◌, zero, suc, Bool, Option, none, some, List, [], ◌∷◌, Str, length, ◌==◌, ◌>>=◌, find?,
  if◌then◌else◌,
}
use gnu_lash.Uuid.{Uuid, UuidLib}
use gnu_lash.JackPatch.Types.{JackPatch, patch_dup}
use gnu_lash.JackPatch.Manager.{MgrClient}

-- struct _jack_mgr_client
pub record JackClient : Type 0 where
  pub name : Str
  pub id : Uuid
  pub old_patches : List JackPatch
  pub backup_patches : List JackPatch
  pub patches : List JackPatch

-- jack_mgr_client_new, and what jack_mgr_add_client puts into the client.
unfoldable pub added_client : Str → Uuid → List JackPatch → JackClient
added_client name id jack_patches = record {
  name = name;
  id = id;
  old_patches = jack_patches;
  backup_patches = [];
  patches = [];
}

-- The fields that lashd/jack_patch.c reads.
abbrev pub ends : List JackClient → List MgrClient
ends [] = []
ends (c ∷ cs) = record { id = c.id; name = c.name } ∷ ends cs

pub record JackFport : Type 0 where
  pub id : ℕ
  pub name : Str
  pub client_name : Str
  pub port_name : Str

-- libjack and the JACK server, which is in a state `World` that only it reads and writes.
pub record Jack (World : Type 0) : Type 0 where
  -- jack_connect of a source and a destination: true if it returns 0.
  pub connect : World → Str → Str → World × Bool
  -- The name of the port that jack_port_by_id returns.
  pub port_by_id : World → ℕ → Option Str
  -- The names that jack_get_ports returns for a pattern; the test is whether they are of input ports.
  pub get_ports : World → Str → Bool → List Str
  -- The names that jack_port_get_all_connections returns for the port with the name.
  pub connections : World → Str → List Str

-- Next to the fields of the manager: the JACK server, and the static variable of
-- jack_mgr_backup_patches.
pub record JackMgr (World : Type 0) : Type 0 where
  pub clients : List JackClient
  pub foreign_ports : List JackFport
  pub server : World
  pub last_backup : ℕ

-- jack_mgr_new, as far as the fields of the manager go
unfoldable pub mgr_new : {World : Type 0} → World → JackMgr World
mgr_new w = record { clients = []; foreign_ports = []; server = w; last_backup = 0 }

-- What stands behind the colon that strchr finds.
unfoldable pub after_colon : Str → Option Str
after_colon [] = none
after_colon (c ∷ s) = let rest = after_colon s in if c == b':' then some s else rest

abbrev pub take : ℕ → Str → Str
take zero s = []
take (suc n) [] = []
take (suc n) (c ∷ s) = c ∷ take n s

-- The two halves of a port's name in jack_fport_new.
unfoldable pub halves : Str → Option Str → Str × Str
halves name (some rest) = (take (length name - length rest - 1) name, rest)
halves name none = (name, name)

unfoldable pub fport_new : ℕ → Str → JackFport
unfolding halves after_colon
fport_new id name =
    let (client_name, port_name) = halves name (after_colon name) in
    record { id = id; name = name; client_name = client_name; port_name = port_name }

module _ (lib : UuidLib) where
  -- jack_mgr_client_dup_patch_list: the copies, which go to the end of `dest`.
  unfoldable pub dup_patch_list : List JackPatch → Option (List JackPatch)
  dup_patch_list [] = some []
  dup_patch_list (p ∷ ps) = patch_dup lib p >>= λ q. (dup_patch_list ps >>= λ qs. some (q ∷ qs))

  -- jack_mgr_client_find_by_id
  unfoldable pub find_by_id : List JackClient → Uuid → Option JackClient
  find_by_id clients id = find? (λ c. lib.same id c.id) clients

  -- The list after the client that jack_mgr_client_find_by_id finds is taken out.
  unfoldable pub delete_client : List JackClient → Uuid → List JackClient
  delete_client [] id = []
  delete_client (c ∷ cs) id =
      let rest = delete_client cs id in if lib.same id c.id then cs else c ∷ rest
