-- ===== src/Alsa/Manager/Unique.antt =====
-- The patches that are handed out for a client make different connections.
use gnu_lash.Prelude.{
  ◌≡◌, refl, sym, ap, subst, ◌↔◌, true, inl, inr, ◌⊎◌, some, List, [], ◌∷◌, ◌++◌, In,
  In-append_cases, In-append_left, In-append_right, Bool-cases, arith,
}
use gnu_lash.Uuid.{Uuid, UuidLib}
use gnu_lash.Alsa.Seq.{Fields, SeqLib}
use gnu_lash.Alsa.Patch.Types.{AlsaPatch, patch_dup}
use gnu_lash.Alsa.Patch.Compare.{patch_compare_iff}
use gnu_lash.Alsa.Patch.Ids.{patch_set}
use gnu_lash.Alsa.Client.{AlsaClient, dup_all, dup_patches}
use gnu_lash.Alsa.Manager.Types.{AlsaMgr, get_client}
use gnu_lash.Alsa.Manager.Patches.{has_patch, add_unique, unique_patches, get_client_patches}

abbrev pub AllDistinct : List Fields → Type 0
AllDistinct [] = Unit {0}
AllDistinct (f ∷ fs) = ¬ (In f fs) × AllDistinct fs

AllDistinct-append :
    (fs : List Fields) (f : Fields) → AllDistinct fs → ¬ (In f fs) → AllDistinct (fs ++ (f ∷ []))
AllDistinct-append [] f d h = (λ m. m, tt)
AllDistinct-append (g ∷ fs) f d h = (
  λ m. elim (In-append_cases g fs (f ∷ []) m) [
    | inl old ↦ d.0 old
    | inr (inl e) ↦ h (inl (sym e))
    | inr (inr x) ↦ elim x [ ]
  ],
  AllDistinct-append fs f d.1 (λ m. h (inr m)),
)

module _ {Sub : Type 0} (lib : UuidLib) (seq : SeqLib Sub) where
  -- What the getters show of the patches, in order.
  abbrev pub all_fields : List (AlsaPatch Sub) → List Fields
  all_fields [] = []
  all_fields (p ∷ ps) = seq.fields p.sub ∷ all_fields ps

  all_fields-append :
      (ps qs : List (AlsaPatch Sub)) → all_fields (ps ++ qs) ≡ all_fields ps ++ all_fields qs
  all_fields-append [] qs = refl
  all_fields-append (p ∷ ps) qs = ap (λ r. seq.fields p.sub ∷ r) (all_fields-append ps qs)

  all_fields-dup_all : (ps : List (AlsaPatch Sub)) → all_fields (dup_all lib seq ps) ≡ all_fields ps
  unfolding dup_all patch_dup
  all_fields-dup_all [] = refl
  all_fields-dup_all (p ∷ ps) = ap (λ r. seq.fields p.sub ∷ r) (all_fields-dup_all ps)

  has_patch_iff :
      (dest : List (AlsaPatch Sub)) (patch : AlsaPatch Sub)
      → (has_patch lib seq dest patch ≡ true) ↔ In (seq.fields patch.sub) (all_fields dest)
  unfolding has_patch
  has_patch_iff [] patch = ground arith
  has_patch_iff (p ∷ ps) patch =
      let e = patch_compare_iff seq patch p in let i = has_patch_iff ps patch in ground arith

  -- `fs` has no duplicates, and has what `gs` and `hs` have.
  abbrev pub IsUnion : List Fields → List Fields → List Fields → Type 0
  IsUnion fs gs hs = AllDistinct fs × ((f : Fields) → In f fs ↔ (In f gs ⊎ In f hs))

  IsUnion-known :
      (fs gs hs : List Fields) (f : Fields) → In f gs → IsUnion fs gs hs → IsUnion fs gs (f ∷ hs)
  IsUnion-known fs gs hs f known u = (
    u.0,
    λ g. (
      λ m. elim ((u.1 g).0 m) [ inl l ↦ inl l | inr r ↦ inr (inr r) ],
      λ m. elim m [
        | inl l ↦ (u.1 g).1 (inl l)
        | inr (inl e) ↦ (u.1 g).1 (inl (subst (λ k. In k gs) (sym e) known))
        | inr (inr r) ↦ (u.1 g).1 (inr r)
      ],
    ),
  )

  IsUnion-new :
      (fs gs hs : List Fields) (f : Fields)
      → IsUnion fs (gs ++ (f ∷ [])) hs
      → IsUnion fs gs (f ∷ hs)
  IsUnion-new fs gs hs f u = (
    u.0,
    λ g. (
      λ m. elim ((u.1 g).0 m) [
        | inr r ↦ inr (inr r)
        | inl l ↦ elim (In-append_cases g gs (f ∷ []) l) [
          | inl old ↦ inl old
          | inr (inl e) ↦ inr (inl e)
          | inr (inr x) ↦ elim x [ ]
        ]
      ],
      λ m. elim m [
        | inl l ↦ (u.1 g).1 (inl (In-append_left g gs (f ∷ []) l))
        | inr (inl e) ↦ (u.1 g).1 (inl (In-append_right g gs (f ∷ []) (inl e)))
        | inr (inr r) ↦ (u.1 g).1 (inr r)
      ],
    ),
  )

  add_unique-IsUnion :
      (clients : List (AlsaClient Sub)) (dest ps : List (AlsaPatch Sub))
      → AllDistinct (all_fields dest)
      → IsUnion (all_fields (add_unique lib seq clients dest ps)) (all_fields dest) (all_fields ps)
  unfolding add_unique patch_set
  add_unique-IsUnion clients dest [] d =
      (d, λ f. (λ m. inl m, λ m. elim m [ inl l ↦ l | inr x ↦ elim x [ ] ]))
  add_unique-IsUnion clients dest (p ∷ ps) d =
      let patch = patch_set lib seq p clients in
      let i = has_patch_iff dest patch in
      elim (Bool-cases (has_patch lib seq dest patch)) [
        | inl e ↦ rw e (IsUnion-known _ _ _ _ (i.0 e) (add_unique-IsUnion clients dest ps d))
        | inr e ↦
            let unknown : ¬ (In (seq.fields p.sub) (all_fields dest)) =
              λ m. ground (arith, i.1 m) in
            let same = all_fields-append dest (patch ∷ []) in
            let d' : AllDistinct (all_fields (dest ++ (patch ∷ []))) =
              rw same (AllDistinct-append _ _ d unknown) in
            let u = add_unique-IsUnion clients (dest ++ (patch ∷ [])) ps d' in
            rw e (
              IsUnion-new _ _ _ _ (
                subst
                  (λ g.
                    IsUnion (all_fields (add_unique lib seq clients (dest ++ (patch ∷ [])) ps)) g
                      (all_fields ps))
                  same u))
      ]

module _ {Sub World : Type 0} (lib : UuidLib) (seq : SeqLib Sub) where
  -- For a client of the manager, alsa_mgr_get_client_patches extends the caller's list by the
  -- client's connections: if the list has no duplicates, the result has none either, and it has the
  -- connections of the list and of the client, and no others.
  pub get_client_patches-IsUnion :
      (mgr : AlsaMgr Sub World) (id : Uuid) (client : AlsaClient Sub) (dest : List (AlsaPatch Sub))
      → get_client lib mgr.clients id ≡ some client
      → AllDistinct (all_fields lib seq dest)
      → IsUnion lib seq
          (all_fields lib seq (get_client_patches lib seq mgr id dest))
          (all_fields lib seq dest)
          (all_fields lib seq client.patches)
  unfolding get_client_patches unique_patches dup_patches
  get_client_patches-IsUnion mgr id client dest known d =
      let union : List (AlsaPatch Sub) → List Fields → Type 0 =
        λ r hs. IsUnion lib seq (all_fields lib seq r) (all_fields lib seq dest) hs in
      subst (λ o. union (unique_patches lib seq mgr dest o) (all_fields lib seq client.patches))
        (sym known)
        (subst (union _) (all_fields-dup_all lib seq client.patches)
          (add_unique-IsUnion lib seq mgr.clients dest (dup_all lib seq client.patches) d))
