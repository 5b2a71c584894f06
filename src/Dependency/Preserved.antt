-- ===== src/Dependency/Preserved.antt =====
-- What the calls that add and remove dependencies return, and that a graph without cycles stays
-- without cycles under any sequence of them.
use gnu_lash.Prelude.{
  ℕ, ◌<◌, ◌≡◌, sym, subst, ◌∙◌, ◌≢◌, ◌↔◌, ◌⊎◌, inl, inr, true, some, List, [], ◌∷◌, In, arith,
  Option-cases,
}
use gnu_lash.Uuid.{Uuid, UuidLib}
use gnu_lash.Dependency.{
  Node, Outcome, duplicate, circular, added, get_client_by_id, has_dependency, add_dependency,
  store_outcome, dbus_add_dependency, remove_dependency, dbus_remove_dependency,
}
use gnu_lash.Dependency.Graph.{DependsOn, IsAcyclic}
use gnu_lash.Dependency.Circular.{find_circular-Answers, find_circular-Decides}
use gnu_lash.Dependency.Acyclic.{get_client_by_id-id, set_client-Edge, add_edge-IsAcyclic}

module _ (lib : UuidLib) where
  pub has_dependency_iff :
      (id : Uuid) (deps : List Uuid) → (has_dependency lib id deps ≡ true) ↔ In id deps
  unfolding has_dependency
  has_dependency_iff id [] = ground arith
  has_dependency_iff id (d ∷ deps) = ground (arith, lib.same_iff id d, has_dependency_iff id deps)

  -- What client_dependency_add may answer, and when.
  abbrev pub AddOutcome : List Node → Node → Uuid → Outcome → Type 0
  AddOutcome clients client id o =
      ((o ≡ duplicate) × In id client.dependencies)
      ⊎ (((o ≡ circular) × (¬ In id client.dependencies) × DependsOn lib clients id client.id)
          ⊎ ((o ≡ added (record client { dependencies = id ∷ client.dependencies }))
              × (¬ In id client.dependencies)
              × ¬ DependsOn lib clients id client.id))

  -- When client_dependency_add returns, it has refused the dependency as a duplicate exactly if
  -- the client has it, and as circular exactly if the client does not have it and a chain of
  -- dependencies in the list leads from it to the client; otherwise it has put it in front.
  pub add_dependency-AddOutcome :
      (fuel : ℕ) (clients : List Node) (client : Node) (id : Uuid) (o : Outcome)
      → add_dependency lib fuel clients client id ≡ some o
      → AddOutcome clients client id o
  unfolding add_dependency
  add_dependency-AddOutcome fuel clients client id o h = ground (
    arith,
    has_dependency_iff id client.dependencies,
    find_circular-Answers lib clients client.id fuel id,
  )

  pub add_dependency-returns :
      (fuel : ℕ) (clients : List Node) (client : Node) (id : Uuid) (ranked : IsAcyclic lib clients)
      → id ≢ client.id
      → ranked.0 id < fuel
      → (o : Outcome) × (add_dependency lib fuel clients client id ≡ some o)
  unfolding add_dependency
  add_dependency-returns fuel clients client id ranked ne h =
      elim (Option-cases (add_dependency lib fuel clients client id)) [
        | inr r ↦ r
        | inl e ↦
            let d =
              find_circular-Decides lib clients client.id ranked.0 fuel id (λ a b _. ranked.1 a b)
                ne h in
            absurd (ground (arith, d))
      ]

  store_outcome-IsAcyclic :
      (clients : List Node) (client : Node) (id : Uuid) (o : Outcome)
      → IsAcyclic lib clients
      → get_client_by_id lib clients client.id ≡ some client
      → id ≢ client.id
      → AddOutcome clients client id o
      → IsAcyclic lib (store_outcome lib clients o)
  unfolding store_outcome
  store_outcome-IsAcyclic clients client id o ranked found ne (inl (e, _)) = rw e ranked
  store_outcome-IsAcyclic clients client id o ranked found ne (inr (inl (e, _, _))) = rw e ranked
  store_outcome-IsAcyclic clients client id o ranked found ne (inr (inr (e, _, np))) =
      rw e (add_edge-IsAcyclic lib clients ranked client.id client id found ne np)

  found_self :
      (clients : List Node) (a : Uuid) (client : Node)
      → get_client_by_id lib clients a ≡ some client
      → get_client_by_id lib clients client.id ≡ some client
  found_self clients a client e =
      subst (λ y. get_client_by_id lib clients y ≡ some client)
        (sym (get_client_by_id-id lib clients a client e)) e

  dbus_add_dependency_cases :
      (fuel : ℕ) (clients : List Node) (client_id dep_id : Uuid) (cs : List Node)
      → dbus_add_dependency lib fuel clients client_id dep_id ≡ some cs
      → (cs ≡ clients)
        ⊎ ((client : Node) × (o : Outcome) × (get_client_by_id lib clients client_id ≡ some client)
            × (add_dependency lib fuel clients client dep_id ≡ some o)
            × (cs ≡ store_outcome lib clients o))
  unfolding dbus_add_dependency
  dbus_add_dependency_cases fuel clients client_id dep_id cs h =
      elim (Option-cases (get_client_by_id lib clients client_id)) [
        | inl e ↦ inl (ground arith)
        | inr (client, e) ↦ elim (Option-cases (add_dependency lib fuel clients client dep_id)) [
          | inl e' ↦ absurd (ground arith)
          | inr (o, e') ↦ inr (client, o, e, e', ground arith)
        ]
      ]

  -- If AddDependency on a list without cycles returns, it leaves a list without cycles, provided
  -- that the dependency is not the client itself.
  pub dbus_add_dependency-IsAcyclic :
      (fuel : ℕ) (clients : List Node) (client_id dep_id : Uuid) (cs : List Node)
      → IsAcyclic lib clients
      → dep_id ≢ client_id
      → dbus_add_dependency lib fuel clients client_id dep_id ≡ some cs
      → IsAcyclic lib cs
  dbus_add_dependency-IsAcyclic fuel clients client_id dep_id cs ranked ne h =
      elim (dbus_add_dependency_cases fuel clients client_id dep_id cs h) [
        | inl e ↦ rw e ranked
        | inr (client, o, found, ret, e) ↦
            let q = get_client_by_id-id lib clients client_id client found in
            rw e (
              store_outcome-IsAcyclic clients client dep_id o ranked
                (found_self clients client_id client found) (λ p. ne (p ∙ q))
                (add_dependency-AddOutcome fuel clients client dep_id o ret))
      ]

  -- AddDependency of a client's dependency on another ID returns if the list has no cycles, with
  -- recursion no deeper than the rank of the new dependency, and leaves a list without cycles.
  pub dbus_add_dependency-returns :
      (fuel : ℕ) (clients : List Node) (client_id dep_id : Uuid) (ranked : IsAcyclic lib clients)
      → dep_id ≢ client_id
      → ranked.0 dep_id < fuel
      → (cs : List Node) × (dbus_add_dependency lib fuel clients client_id dep_id ≡ some cs)
        × IsAcyclic lib cs
  unfolding dbus_add_dependency
  dbus_add_dependency-returns fuel clients client_id dep_id ranked ne h =
      elim (Option-cases (dbus_add_dependency lib fuel clients client_id dep_id)) [
        | inr (cs, e) ↦
            (cs, e, dbus_add_dependency-IsAcyclic fuel clients client_id dep_id cs ranked ne e)
        | inl e ↦ absurd (elim (Option-cases (get_client_by_id lib clients client_id)) [
          | inl e' ↦ ground arith
          | inr (client, e') ↦
              let q = get_client_by_id-id lib clients client_id client e' in
              let r =
                add_dependency-returns fuel clients client dep_id ranked (λ p. ne (p ∙ q)) h in
              ground (arith, r.1)
        ])
      ]

  In-remove_dependency :
      (b : Uuid) (deps : List Uuid) (id : Uuid) → In b (remove_dependency lib deps id) → In b deps
  unfolding remove_dependency
  In-remove_dependency b [] id m = m
  In-remove_dependency b (d ∷ deps) id m = ground (arith, In-remove_dependency b deps id)

  -- RemoveDependency on a list without cycles leaves a list without cycles.
  pub dbus_remove_dependency-IsAcyclic :
      (clients : List Node) (client_id dep_id : Uuid)
      → IsAcyclic lib clients
      → IsAcyclic lib (dbus_remove_dependency lib clients client_id dep_id)
  unfolding dbus_remove_dependency
  dbus_remove_dependency-IsAcyclic clients client_id dep_id ranked =
      elim (Option-cases (get_client_by_id lib clients client_id)) [
        | inl e ↦ rw (e, dbus_remove_dependency) ranked
        | inr (client, e) ↦
            let client' = record client {
              dependencies = remove_dependency lib client.dependencies dep_id;
            } in
            let found = found_self clients client_id client e in
            rw (e, dbus_remove_dependency)
              (
                ranked.0,
                λ a b edge. elim (set_client-Edge lib clients client' client a b found edge) [
                  | inl (_, old) ↦ ranked.1 a b old
                  | inr (qa, m) ↦
                      ranked.1 a b
                        (rw (qa, found) (In-remove_dependency b client.dependencies dep_id m))
                ],
              )
      ]
