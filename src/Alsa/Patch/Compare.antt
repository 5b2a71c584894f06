-- ===== src/Alsa/Patch/Compare.antt =====
-- alsa_patch_compare, which is 0 for patches that make the same connection.
use gnu_lash.Prelude.{ℕ, ◌≡◌, ◌↔◌, Bool, not, ◌||◌, ◌==◌, arith, if◌then◌else◌}
use gnu_lash.Alsa.Seq.{Addr, SeqLib}
use gnu_lash.Alsa.Patch.Types.{AlsaPatch, flag_value}

differ : Addr → Addr → Bool
differ a b = not (a.client == b.client) || not (a.port == b.port)

module _ {Sub : Type 0} (seq : SeqLib Sub) where
  unfoldable pub patch_compare : AlsaPatch Sub → AlsaPatch Sub → ℕ
  unfolding differ
  patch_compare a b =
      let f = seq.fields a.sub in
      let g = seq.fields b.sub in
      if differ f.sender g.sender
      then 1
      else if differ f.dest g.dest
      then 1
      else if not (f.queue == g.queue)
          || not (flag_value f.exclusive == flag_value g.exclusive)
          || not (flag_value f.time_update == flag_value g.time_update)
          || not (flag_value f.time_real == flag_value g.time_real)
      then 1
      else 0

  -- alsa_patch_compare is 0 exactly for patches with the same sender, destination, queue and flags.
  -- It does not look at their IDs.
  pub patch_compare_iff :
      (a b : AlsaPatch Sub) → (patch_compare a b ≡ 0) ↔ (seq.fields a.sub ≡ seq.fields b.sub)
  unfolding patch_compare
  patch_compare_iff a b = ground arith
