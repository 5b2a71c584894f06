-- ===== src/Alsa/Manager/Resume.antt =====
-- alsa_mgr_new_client_port, which makes the connections again that a client had when it was saved.
use gnu_lash.Prelude.{
  ℕ, ◌==◌, Bool, true, false, not, ◌&&◌, ◌||◌, Option, none, some, List, [], ◌∷◌, if◌then◌else◌,
}
use gnu_lash.Uuid.{Uuid, UuidLib}
use gnu_lash.Alsa.Seq.{SeqLib, Sequencer}
use gnu_lash.Alsa.Patch.Types.{AlsaPatch, patch_dup}
use gnu_lash.Alsa.Patch.Ids.{patch_unset}
use gnu_lash.Alsa.Client.{AlsaClient}
use gnu_lash.Alsa.Manager.Types.{AlsaMgr, get_client, put_client}

module _ {Sub World : Type 0} (lib : UuidLib) (seq : SeqLib Sub)
    (kernel : Sequencer Sub World) where
  -- alsa_mgr_resume_patch: true if the connection is made.
  unfoldable pub resume_patch : World → AlsaPatch Sub → World × Bool
  resume_patch w patch = kernel.subscribe w patch.sub

  -- The patch begins or ends at the port.
  unfoldable pub has_port : AlsaPatch Sub → ℕ → ℕ → Bool
  has_port patch number port =
      let f = seq.fields patch.sub in
      (number == f.sender.client && port == f.sender.port)
      || (number == f.dest.client && port == f.dest.port)

  -- One round of the loop: whether the patch is kept.
  unfoldable pub resume_one : World → List (AlsaClient Sub) → ℕ → ℕ → AlsaPatch Sub → World × Bool
  unfolding resume_patch has_port
  resume_one w clients number port patch =
      let (unset_patch, missing) = patch_unset lib seq (patch_dup lib seq patch) clients in
      if not (missing == 0)
      then (w, false)
      else if has_port unset_patch number port
      then (let (w', connected) = resume_patch w unset_patch in (w', not connected))
      else (w, true)

  unfoldable pub resume_old :
      World → List (AlsaClient Sub) → ℕ → ℕ → List (AlsaPatch Sub) → World × List (AlsaPatch Sub)
  unfolding resume_one
  resume_old w clients number port [] = (w, [])
  resume_old w clients number port (patch ∷ patches) =
      let (w', kept) = resume_one w clients number port patch in
      let (w'', rest) = resume_old w' clients number port patches in
      (w'', if kept then patch ∷ rest else rest)

  -- alsa_mgr_new_client_port behind the look-up of the client.
  unfoldable pub resume_client :
      AlsaMgr Sub World → Uuid → ℕ → Option (AlsaClient Sub) → AlsaMgr Sub World
  unfolding put_client resume_old
  resume_client mgr id port none = mgr
  resume_client mgr id port (some client) =
      let (w, old) =
        resume_old mgr.sequencer mgr.clients client.client_id port client.old_patches in
      record mgr {
        sequencer = w;
        clients = put_client lib mgr.clients id (λ c. record c { old_patches = old });
      }

  unfoldable pub new_client_port : AlsaMgr Sub World → Uuid → ℕ → AlsaMgr Sub World
  unfolding get_client resume_client
  new_client_port mgr id port = resume_client mgr id port (get_client lib mgr.clients id)
