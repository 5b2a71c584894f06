-- ===== src/Dependency/Lists.antt =====
-- The lists of unsatisfied dependencies: what they hold after the preparation of a client.
use gnu_lash.Prelude.{
  ◌≡◌, sym, subst, ◌≢◌, ◌↔◌, ◌⊎◌, inl, inr, Bool, true, none, List, [], ◌∷◌, In, keep, arith,
  Bool-cases,
}
use gnu_lash.Uuid.{Uuid, UuidLib}
use gnu_lash.Dependency.{
  Node, get_client_by_id, sanity_check, init_unsatisfied, copy_dependencies, remove_all,
  remove_dependency, is_known,
}

-- No entry stands twice.
abbrev pub Distinct : List Uuid → Type 0
Distinct [] = Unit {0}
Distinct (d ∷ ds) = (¬ In d ds) × Distinct ds

In-keep :
    (p : Uuid → Bool) (d : Uuid) (ds : List Uuid) → In d (keep p ds) ↔ (In d ds × (p d ≡ true))
In-keep p d [] = ground arith
In-keep p d (x ∷ ds) = elim (Bool-cases (p x)) [
  | inl e ↦ rw e (
    (λ m. elim m [
      | inl q ↦ (inl q, rw q e)
      | inr m' ↦ (inr ((In-keep p d ds).0 m').0, ((In-keep p d ds).0 m').1)
    ]),
    (λ (m, h). elim m [ inl q ↦ inl q | inr m' ↦ inr ((In-keep p d ds).1 (m', h)) ]),
  )
  | inr e ↦ rw e (
    (λ m. (inr ((In-keep p d ds).0 m).0, ((In-keep p d ds).0 m).1)),
    (λ (m, h). elim m [
      | inl q ↦ absurd (cc (subst (λ y. p y ≡ true) q h))
      | inr m' ↦ (In-keep p d ds).1 (m', h)
    ]),
  )
]

Distinct-keep : (p : Uuid → Bool) (ds : List Uuid) → Distinct ds → Distinct (keep p ds)
Distinct-keep p [] h = tt
Distinct-keep p (x ∷ ds) h = ground (arith, Distinct-keep p ds, In-keep p x ds)

In-copy_dependencies :
    (d : Uuid) (ds copies : List Uuid)
    → In d (copy_dependencies ds copies) ↔ (In d ds ⊎ In d copies)
unfolding copy_dependencies
In-copy_dependencies d [] copies = ground arith
In-copy_dependencies d (x ∷ ds) copies = ground (arith, In-copy_dependencies d ds (x ∷ copies))

-- No entry of the one list stands in the other.
abbrev Disjoint : List Uuid → List Uuid → Type 0
Disjoint [] copies = Unit {0}
Disjoint (d ∷ ds) copies = (¬ In d copies) × Disjoint ds copies

Disjoint-cons :
    (x : Uuid) (ds copies : List Uuid) → ¬ In x ds → Disjoint ds copies → Disjoint ds (x ∷ copies)
Disjoint-cons x [] copies h j = tt
Disjoint-cons x (d ∷ ds) copies h j = (
  (λ m. elim m [ inl q ↦ h (inl (sym q)) | inr m' ↦ j.0 m' ]),
  Disjoint-cons x ds copies (λ m. h (inr m)) j.1,
)

Distinct-copy_dependencies :
    (ds copies : List Uuid)
    → Distinct ds
    → Distinct copies
    → Disjoint ds copies
    → Distinct (copy_dependencies ds copies)
unfolding copy_dependencies
Distinct-copy_dependencies [] copies h k j = k
Distinct-copy_dependencies (x ∷ ds) copies h k j =
    Distinct-copy_dependencies ds (x ∷ copies) h.1 (j.0, k) (Disjoint-cons x ds copies h.0 j.1)

Disjoint-nil : (ds : List Uuid) → Disjoint ds []
Disjoint-nil [] = tt
Disjoint-nil (d ∷ ds) = (λ m. m, Disjoint-nil ds)

-- Preparing a client copies its dependencies.
init_unsatisfied-copies :
    (client : Node)
    → (init_unsatisfied client).unsatisfied_deps ≡ copy_dependencies client.dependencies []
unfolding init_unsatisfied remove_all copy_dependencies
init_unsatisfied-copies client = ground arith

module _ (lib : UuidLib) where
  is_known_iff :
      (clients : List Node) (d : Uuid)
      → (is_known lib clients d ≡ true) ↔ (get_client_by_id lib clients d ≢ none)
  unfolding is_known
  is_known_iff clients d = ground arith

  -- After the sanity check and client_dependency_init_unsatisfied, the unsatisfied dependencies of a
  -- client are exactly its dependencies on clients of the list.
  pub init_unsatisfied-In :
      (clients : List Node) (client : Node) (d : Uuid)
      → In d (init_unsatisfied (sanity_check lib clients client)).unsatisfied_deps
        ↔ (In d client.dependencies × (get_client_by_id lib clients d ≢ none))
  unfolding sanity_check
  init_unsatisfied-In clients client d = rw init_unsatisfied-copies (
      ground (
        arith,
        In-copy_dependencies d (keep (is_known lib clients) client.dependencies) [],
        In-keep (is_known lib clients) d client.dependencies,
        is_known_iff clients d,
      ))

  pub init_unsatisfied-Distinct :
      (clients : List Node) (client : Node)
      → Distinct client.dependencies
      → Distinct (init_unsatisfied (sanity_check lib clients client)).unsatisfied_deps
  unfolding sanity_check
  init_unsatisfied-Distinct clients client h = rw init_unsatisfied-copies (
      Distinct-copy_dependencies _ [] (Distinct-keep (is_known lib clients) _ h) tt
        (Disjoint-nil _))

  pub In-remove_dependency :
      (d id : Uuid) (ds : List Uuid)
      → Distinct ds
      → In d (remove_dependency lib ds id) ↔ (In d ds × (d ≢ id))
  unfolding remove_dependency
  In-remove_dependency d id [] h = ground arith
  In-remove_dependency d id (x ∷ ds) h =
      let moved : d ≡ x → In d ds → In x ds = λ q m. subst (λ y. In y ds) q m in
      ground (arith, lib.same_iff x id, In-remove_dependency d id ds, moved)

  pub Distinct-remove_dependency :
      (id : Uuid) (ds : List Uuid) → Distinct ds → Distinct (remove_dependency lib ds id)
  unfolding remove_dependency
  Distinct-remove_dependency id [] h = tt
  Distinct-remove_dependency id (x ∷ ds) h =
      ground (arith, Distinct-remove_dependency id ds, In-remove_dependency x id ds)

  -- Neither the sanity check nor the preparation touches the ID.
  pub init_unsatisfied-id :
      (clients : List Node) (client : Node)
      → (init_unsatisfied (sanity_check lib clients client)).id ≡ client.id
  unfolding init_unsatisfied sanity_check
  init_unsatisfied-id clients client = ground arith
