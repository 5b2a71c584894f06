-- ===== src/Dependency/Load.antt =====
-- The dependencies that are read from a project file: each client is parsed against those before
-- it, and then put in front of them.
use gnu_lash.Prelude.{
  ℕ, ◌<◌, ◌≡◌, refl, sym, subst, ◌∙◌, ◌≢◌, inl, inr, true, false, some, List, [], ◌∷◌, In,
  Bool-cases, if◌then◌else◌,
}
use gnu_lash.Uuid.{Uuid, UuidLib}
use gnu_lash.Dependency.{
  Node, Outcome, duplicate, circular, added, get_client_by_id, add_dependency, set_client,
  parse_dependencies,
}
use gnu_lash.Dependency.Graph.{Edge, DependsOn, direct, through, IsAcyclic, deps_of}
use gnu_lash.Dependency.Acyclic.{same_refl, add_edge-IsAcyclic}
use gnu_lash.Dependency.Preserved.{add_dependency-AddOutcome, add_dependency-returns, AddOutcome}

module _ (lib : UuidLib) (clients : List Node) where
  lookup_cons :
      (client : Node) (a : Uuid)
      → get_client_by_id lib (client ∷ clients) a
        ≡ (if lib.same client.id a then some client else get_client_by_id lib clients a)
  unfolding get_client_by_id
  lookup_cons client a = refl

  lookup_own :
      (client : Node) (a : Uuid)
      → lib.same client.id a ≡ true
      → get_client_by_id lib (client ∷ clients) a ≡ some client
  lookup_own client a h = lookup_cons client a ∙ rw h refl

  lookup_other :
      (client : Node) (a : Uuid)
      → lib.same client.id a ≡ false
      → get_client_by_id lib (client ∷ clients) a ≡ get_client_by_id lib clients a
  lookup_other client a h = lookup_cons client a ∙ rw h refl

  Edge-other :
      (client : Node) (a b : Uuid)
      → a ≢ client.id
      → Edge lib (client ∷ clients) a b
      → Edge lib clients a b
  Edge-other client a b ne e =
      let other : lib.same client.id a ≡ false = elim (Bool-cases (lib.same client.id a)) [
        | inl q ↦ absurd (ne (sym ((lib.same_iff client.id a).0 q)))
        | inr q ↦ q
      ] in
      subst (λ o. In b (deps_of o)) (lookup_other client a other) e

  -- A chain that ends in the new client uses only old dependencies up to its first arrival there.
  DependsOn-other :
      (client : Node) {a b : Uuid}
      → DependsOn lib (client ∷ clients) a b
      → b ≡ client.id
      → a ≢ client.id
      → DependsOn lib clients a client.id
  DependsOn-other client (direct {a} {b} e) q ne =
      direct (subst (λ y. Edge lib clients a y) q (Edge-other client a b ne e))
  DependsOn-other client (through {a} {b} {c} e d) q ne =
      let old = Edge-other client a b ne e in
      elim (Bool-cases (lib.same b client.id)) [
        | inl h ↦ direct (subst (λ y. Edge lib clients a y) ((lib.same_iff b client.id).0 h) old)
        | inr h ↦
            through old (DependsOn-other client d q (λ p. cc (h, (lib.same_iff b client.id).1 p)))
      ]

  IsAcyclic-cons :
      (client : Node)
      → client.dependencies ≡ []
      → IsAcyclic lib clients
      → IsAcyclic lib (client ∷ clients)
  IsAcyclic-cons client no_deps ranked = (
    ranked.0,
    λ a b e. elim (Bool-cases (lib.same client.id a)) [
      | inl h ↦
          let seen : In b client.dependencies =
            subst (λ o. In b (deps_of o)) (lookup_own client a h) e in
          absurd (subst (In b) no_deps seen)
      | inr h ↦ ranked.1 a b (subst (λ o. In b (deps_of o)) (lookup_other client a h) e)
    ],
  )

  -- What one more dependency makes of a client in front of the list.
  IsAcyclic-added :
      (client : Node) (id : Uuid)
      → IsAcyclic lib (client ∷ clients)
      → id ≢ client.id
      → ¬ DependsOn lib clients id client.id
      → IsAcyclic lib (record client { dependencies = id ∷ client.dependencies } ∷ clients)
  unfolding set_client
  IsAcyclic-added client id ranked ne np =
      let found : get_client_by_id lib (client ∷ clients) client.id ≡ some client =
        lookup_own client client.id (same_refl lib client.id) in
      let extended =
        add_edge-IsAcyclic lib (client ∷ clients) ranked client.id client id found ne
          (λ d. np (DependsOn-other client d refl ne)) in
      rw (same_refl lib client.id) at extended

  abbrev step : Node → Outcome → Node
  step client o = elim o [ duplicate ↦ client | circular ↦ client | added c ↦ c ]

  step_lem :
      (client : Node) (id : Uuid) (o : Outcome)
      → IsAcyclic lib (client ∷ clients)
      → id ≢ client.id
      → AddOutcome lib clients client id o
      → IsAcyclic lib (step client o ∷ clients) × ((step client o).id ≡ client.id)
  step_lem client id o ranked ne (inl (e, _)) = rw e (ranked, refl)
  step_lem client id o ranked ne (inr (inl (e, _, _))) = rw e (ranked, refl)
  step_lem client id o ranked ne (inr (inr (e, _, np))) =
      rw e (IsAcyclic-added client id ranked ne np, refl)

  parse_dependencies-step :
      (fuel : ℕ) (client : Node) (id : Uuid) (ids : List Uuid) (o : Outcome)
      → add_dependency lib fuel clients client id ≡ some o
      → parse_dependencies lib fuel clients client (id ∷ ids)
        ≡ parse_dependencies lib fuel clients (step client o) ids
  unfolding parse_dependencies
  parse_dependencies-step fuel client id ids o e = rw (e, parse_dependencies) refl

  parse_all :
      (fuel : ℕ) (client : Node) (ids : List Uuid) (ranked : IsAcyclic lib clients)
      → IsAcyclic lib (client ∷ clients)
      → ¬ In client.id ids
      → ((d : Uuid) → In d ids → ranked.0 d < fuel)
      → (c : Node) × (parse_dependencies lib fuel clients client ids ≡ some c)
        × IsAcyclic lib (c ∷ clients)
  unfolding parse_dependencies
  parse_all fuel client [] ranked v fresh enough = (client, refl, v)
  parse_all fuel client (id ∷ ids) ranked v fresh enough =
      let ne : id ≢ client.id = λ q. fresh (inl (sym q)) in
      let (o, e) =
        add_dependency-returns lib fuel clients client id ranked ne (enough id (inl refl)) in
      let (v', same) =
        step_lem client id o v ne (add_dependency-AddOutcome lib fuel clients client id o e) in
      let (c, q, w) =
        parse_all fuel (step client o) ids ranked v'
          (λ m. fresh (inr (subst (λ y. In y ids) same m))) (λ d m. enough d (inr m)) in
      (c, parse_dependencies-step fuel client id ids o e ∙ q, w)

  -- Reading the dependencies of a client returns, whatever IDs stand in the project file, if the
  -- clients read before have no cycles, the client has no dependencies yet and its own ID is not
  -- among them; and with the client in front, the list has no cycles again. Recursion is no deeper
  -- than the ranks of those IDs.
  pub parse_dependencies-IsAcyclic :
      (fuel : ℕ) (client : Node) (ids : List Uuid) (ranked : IsAcyclic lib clients)
      → client.dependencies ≡ []
      → ¬ In client.id ids
      → ((d : Uuid) → In d ids → ranked.0 d < fuel)
      → (c : Node) × (parse_dependencies lib fuel clients client ids ≡ some c)
        × IsAcyclic lib (c ∷ clients)
  parse_dependencies-IsAcyclic fuel client ids ranked no_deps =
      parse_all fuel client ids ranked (IsAcyclic-cons client no_deps ranked)
