-- ===== src/Alsa/Manager/Accounts.antt =====
-- What becomes of the patches that a client had when it was saved.
use gnu_lash.Prelude.{
  ℕ, ◌==◌, ◌≡◌, ◌≢◌, sym, subst, Bool, true, false, inl, inr, ◌⊎◌, List, [], ◌∷◌, In, Bool-cases,
  arith,
}
use gnu_lash.Uuid.{UuidLib}
use gnu_lash.Alsa.Seq.{SeqLib, Sequencer}
use gnu_lash.Alsa.Patch.Types.{AlsaPatch, patch_dup}
use gnu_lash.Alsa.Patch.Ids.{patch_unset}
use gnu_lash.Alsa.Client.{AlsaClient}
use gnu_lash.Alsa.Manager.Resume.{resume_old, resume_one, resume_patch, has_port}

module _ {Sub : Type 0} (lib : UuidLib) (seq : SeqLib Sub) (clients : List (AlsaClient Sub)) where
  -- The patch with the numbers that the clients have now, and how many ends have no client.
  abbrev pub resolved : AlsaPatch Sub → AlsaPatch Sub × ℕ
  resolved patch = patch_unset lib seq (patch_dup lib seq patch) clients

-- `Has w s` says that the connection `s` exists in the sequencer's state `w`: a subscription that
-- succeeds makes one, and none undoes another.
module _ {Sub World : Type 0} (lib : UuidLib) (seq : SeqLib Sub) (kernel : Sequencer Sub World)
    (Has : World → Sub → Type 0)
    (makes : (w : World) (s : Sub)
      → (kernel.subscribe w s).1 ≡ true
      → Has (kernel.subscribe w s).0 s)
    (leaves : (w : World) (s t : Sub) → Has w t → Has (kernel.subscribe w s).0 t)
    (clients : List (AlsaClient Sub)) (number port : ℕ) where
  -- An end has no client, or the connection exists.
  abbrev pub IsSettled : World → AlsaPatch Sub → Type 0
  IsSettled w patch =
      ((resolved lib seq clients patch).1 ≢ 0) ⊎ Has w (resolved lib seq clients patch).0.sub

  -- What one round does with a patch: the last argument is whether it is kept.
  abbrev Verdict : World → AlsaPatch Sub → Bool → Type 0
  Verdict w patch true = (resolved lib seq clients patch).1 ≡ 0
  Verdict w patch false = IsSettled w patch

  resume_one-Verdict :
      (w : World) (patch : AlsaPatch Sub)
      → let (w', keep) = resume_one lib seq kernel w clients number port patch in
        Verdict w' patch keep × ((s : Sub) → Has w s → Has w' s)
  unfolding resume_one resume_patch
  resume_one-Verdict w patch =
      let sub = (resolved lib seq clients patch).0.sub in
      elim (Bool-cases ((resolved lib seq clients patch).1 == 0)) [
        | inr e ↦ rw e (inl (ground arith), λ s h. h)
        | inl e ↦
            elim (Bool-cases
              (has_port lib seq kernel (resolved lib seq clients patch).0 number port)) [
                | inr f ↦ rw (e, f) (ground arith, λ s h. h)
                | inl f ↦ elim (Bool-cases (kernel.subscribe w sub).1) [
                  | inl g ↦ rw (e, f, g) (inr (makes w sub g), λ s. leaves w sub s)
                  | inr g ↦ rw (e, f, g) (ground arith, λ s. leaves w sub s)
                ]
              ]
      ]

  -- Connections that exist stay while the old patches are gone through.
  resume_old-leaves :
      (patches : List (AlsaPatch Sub)) (w : World) (s : Sub)
      → Has w s
      → Has (resume_old lib seq kernel w clients number port patches).0 s
  unfolding resume_old
  resume_old-leaves [] w s h = h
  resume_old-leaves (p ∷ ps) w s h = resume_old-leaves ps _ s ((resume_one-Verdict w p).1 s h)

  -- When a client's port appears, each of its old patches is kept, or an end of it has no client, or
  -- its connection exists in the end. Every patch that is kept has a client at both ends.
  pub resume_old-accounts :
      (w : World) (patches : List (AlsaPatch Sub)) (patch : AlsaPatch Sub)
      → let (w', kept) = resume_old lib seq kernel w clients number port patches in
        (In patch patches → In patch kept ⊎ IsSettled w' patch)
        × (In patch kept → In patch patches × ((resolved lib seq clients patch).1 ≡ 0))
  unfolding resume_old
  resume_old-accounts w [] patch = (λ x. elim x [ ], λ x. elim x [ ])
  resume_old-accounts w (p ∷ ps) patch =
      let (w', keep) = resume_one lib seq kernel w clients number port p in
      let (verdict, stays) = resume_one-Verdict w p in
      let (all, only) = resume_old-accounts w' ps patch in
      elim (Bool-cases keep) [
        | inl e ↦
            let registered : (resolved lib seq clients p).1 ≡ 0 = subst (Verdict w' p) e verdict in
            rw e (
              λ m. elim m [
                | inl q ↦ inl (inl q)
                | inr r ↦ elim (all r) [ inl k ↦ inl (inr k) | inr t ↦ inr t ]
              ],
              λ m. elim m [
                | inl q ↦
                    (inl q, subst (λ x. (resolved lib seq clients x).1 ≡ 0) (sym q) registered)
                | inr r ↦ (inr (only r).0, (only r).1)
              ],
            )
        | inr e ↦
            let rest = (resume_old lib seq kernel w' clients number port ps).0 in
            let settled : IsSettled rest p = elim (subst (Verdict w' p) e verdict) [
              | inl n ↦ inl n
              | inr h ↦ inr (resume_old-leaves ps w' _ h)
            ] in
            rw e (
              λ m. elim m [ inl q ↦ inr (subst (IsSettled rest) (sym q) settled) | inr r ↦ all r ],
              λ m. (inr (only m).0, (only m).1),
            )
      ]
