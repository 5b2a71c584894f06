-- ===== src/Dependency/SelfLoop.antt =====
-- The one dependency that client_dependency_add lets through although it closes a cycle: that of a
-- client on itself. client_dependency_find_circular asks whether a chain leads from the new
-- dependency to the client, and does not compare the two IDs.
use gnu_lash.Prelude.{
  ℕ, zero, suc, ◌<◌, ◌≡◌, refl, sym, subst, ◌∙◌, ◌≢◌, inl, inr, false, none, some, List, ◌∷◌, In,
  arith,
}
use gnu_lash.Uuid.{Uuid, UuidLib}
use gnu_lash.Dependency.{
  Node, get_client_by_id, find_circular, add_dependency, set_client, any_dependency, store_outcome,
  dbus_add_dependency,
}
use gnu_lash.Dependency.Graph.{direct, IsAcyclic, not-DependsOn-self}
use gnu_lash.Dependency.Circular.{
  find_circular-suc, find_circular-Answers, find_circular-ne-none, any_dependency-ne-none,
}
use gnu_lash.Dependency.Acyclic.{get_client_by_id-set_client, same_refl}
use gnu_lash.Dependency.Preserved.{has_dependency_iff}

module _ (lib : UuidLib) where
  find_circular_self :
      (fuel : ℕ) (clients : List Node) (a : Uuid) (ranked : IsAcyclic lib clients)
      → ranked.0 a < fuel
      → find_circular lib fuel clients a a ≡ some false
  find_circular_self zero clients a ranked h = elim h [ ]
  find_circular_self (suc fuel) clients a ranked h =
      let some_answer =
        subst (λ r. r ≢ none) (sym (find_circular-suc lib clients a fuel a))
          (any_dependency-ne-none lib clients a (find_circular lib fuel clients a) _ λ d m nd.
            find_circular-ne-none lib clients a ranked.0 fuel d (λ x y _. ranked.1 x y) nd
              (omega (arith, ranked.1 a d m))) in
      elim (find_circular-Answers lib clients a (suc fuel) a) [
        | inl e ↦ absurd (some_answer e)
        | inr (inl (_, d)) ↦ absurd (not-DependsOn-self lib clients ranked a d)
        | inr (inr (e, _)) ↦ e
      ]

  -- On a list without cycles, AddDependency of a client's dependency on itself is granted.
  self_dependency_added :
      (fuel : ℕ) (clients : List Node) (client : Node) (ranked : IsAcyclic lib clients)
      → get_client_by_id lib clients client.id ≡ some client
      → ranked.0 client.id < fuel
      → dbus_add_dependency lib fuel clients client.id client.id
        ≡ some (
            set_client lib clients
              (record client { dependencies = client.id ∷ client.dependencies }))
  unfolding dbus_add_dependency add_dependency store_outcome
  self_dependency_added fuel clients client ranked found h =
      let fresh : ¬ In client.id client.dependencies =
        λ m. not-DependsOn-self lib clients ranked client.id (direct (rw found m)) in
      ground (
        arith,
        find_circular_self fuel clients client.id ranked h,
        has_dependency_iff lib client.id client.dependencies,
        fresh,
      )

  -- From a client whose first dependency is itself the search never returns, whatever the fuel.
  find_circular-diverges :
      (fuel : ℕ) (clients : List Node) (orig : Uuid) (client : Node) (rest : List Uuid)
      → get_client_by_id lib clients client.id ≡ some client
      → client.dependencies ≡ client.id ∷ rest
      → orig ≢ client.id
      → find_circular lib fuel clients orig client.id ≡ none
  unfolding find_circular any_dependency
  find_circular-diverges zero clients orig client rest found deps ne = refl
  find_circular-diverges (suc fuel) clients orig client rest found deps ne = ground (
    arith,
    find_circular-diverges fuel clients orig client rest found deps ne,
    lib.same_iff orig client.id,
  )

  -- With the list that this leaves, adding the client to another one never returns.
  looped-diverges :
      (fuel : ℕ) (clients : List Node) (client other : Node)
      → get_client_by_id lib clients client.id ≡ some client
      → other.id ≢ client.id
      → ¬ In client.id other.dependencies
      → add_dependency lib fuel
          (set_client lib clients
            (record client { dependencies = client.id ∷ client.dependencies }))
          other
          client.id
        ≡ none
  unfolding add_dependency
  looped-diverges fuel clients client other found ne fresh =
      let looped = record client { dependencies = client.id ∷ client.dependencies } in
      let found' : get_client_by_id lib (set_client lib clients looped) client.id ≡ some looped =
        get_client_by_id-set_client lib clients looped client client.id found
        ∙ rw (same_refl lib client.id) refl in
      ground (
        arith,
        find_circular-diverges fuel (set_client lib clients looped) other.id looped
            client.dependencies found' refl ne,
        has_dependency_iff lib client.id other.dependencies,
      )

  -- On a list without cycles, AddDependency of a client's dependency on itself is granted, with a fuel
  -- above the client's rank. With the list that it leaves, client_dependency_add of that client to any
  -- other client that does not depend on it yet never returns, whatever the fuel.
  pub add_dependency-diverges :
      (fuel fuel' : ℕ) (clients : List Node) (client other : Node) (ranked : IsAcyclic lib clients)
      → get_client_by_id lib clients client.id ≡ some client
      → ranked.0 client.id < fuel
      → other.id ≢ client.id
      → ¬ In client.id other.dependencies
      → (clients' : List Node) × (dbus_add_dependency lib fuel clients client.id client.id
          ≡ some clients')
        × (add_dependency lib fuel' clients' other client.id ≡ none)
  add_dependency-diverges fuel fuel' clients client other ranked found h ne fresh = (
    set_client lib clients (record client { dependencies = client.id ∷ client.dependencies }),
    self_dependency_added fuel clients client ranked found h,
    looped-diverges fuel' clients client other found ne fresh,
  )
