-- ===== src/Restore/Launches.antt =====
-- When a lost client is launched.
use gnu_lash.Prelude.{
  ◌+◌, ◌≡◌, refl, ◌∙◌, ◌≢◌, ◌↔◌, inl, inr, true, false, none, List, [], ◌∷◌, In, is_empty, arith,
  Bool-cases, if◌then◌else◌,
}
use gnu_lash.Uuid.{Uuid, UuidLib}
use gnu_lash.Dependency.{Node, get_client_by_id, remove_dependency}
use gnu_lash.Dependency.Lists.{
  Distinct, init_unsatisfied-In, init_unsatisfied-Distinct, In-remove_dependency,
  Distinct-remove_dependency,
}
use gnu_lash.Restore.{satisfy_client, restore_client, launches, launches_after_restore}

-- Every entry of the first list stands in the second.
abbrev pub AllIn : List Uuid → List Uuid → Type 0
AllIn ds ids = (d : Uuid) → In d ds → In d ids

module _ (lib : UuidLib) where
  launches-none_left :
      (ids : List Uuid) (client : Node) → client.unsatisfied_deps ≡ [] → launches lib ids client ≡ 0
  unfolding launches satisfy_client
  launches-none_left [] client e = refl
  launches-none_left (id ∷ ids) client e = ground (arith, launches-none_left ids client e)

  is_empty-In : (d : Uuid) (ds : List Uuid) → In d ds → is_empty ds ≡ false
  is_empty-In d [] m = elim m [ ]
  is_empty-In d (x ∷ ds) m = refl

  is_empty_iff : (ds : List Uuid) → (is_empty ds ≡ true) ↔ (ds ≡ [])
  is_empty_iff [] = ground arith
  is_empty_iff (d ∷ ds) = ground arith

  all_done : (ds : List Uuid) → AllIn ds [] → ds ≡ []
  all_done [] all = refl
  all_done (d ∷ ds) all = absurd (all d (inl refl))

  -- The client with the entry for `id` taken off its list.
  abbrev without : Uuid → Node → Node
  without id client = record client {
    unsatisfied_deps = remove_dependency lib client.unsatisfied_deps id;
  }

  launches-cons :
      (id : Uuid) (ids : List Uuid) (client : Node)
      → is_empty client.unsatisfied_deps ≡ false
      → launches lib (id ∷ ids) client
        ≡ (if is_empty (remove_dependency lib client.unsatisfied_deps id) then 1 else 0)
          + launches lib ids (without id client)
  unfolding launches satisfy_client
  launches-cons id ids client e = ground arith

  -- A client that still waits for one that is not in the list is not launched.
  launches-waiting :
      (ids : List Uuid) (client : Node) (d : Uuid)
      → Distinct client.unsatisfied_deps
      → In d client.unsatisfied_deps
      → ¬ In d ids
      → launches lib ids client ≡ 0
  unfolding launches
  launches-waiting [] client d h m n = refl
  launches-waiting (id ∷ ids) client d h m n =
      let waits = (In-remove_dependency lib d id client.unsatisfied_deps h).1 (m, λ q. n (inl q)) in
      let later =
        launches-waiting ids (without id client) d (Distinct-remove_dependency lib id _ h) waits
          (λ k. n (inr k)) in
      launches-cons id ids client (is_empty-In d _ m) ∙ rw (is_empty-In d _ waits, later) refl

  -- A client that waits only for clients in the list is launched once.
  launches-ready :
      (ids : List Uuid) (client : Node)
      → Distinct client.unsatisfied_deps
      → client.unsatisfied_deps ≢ []
      → AllIn client.unsatisfied_deps ids
      → launches lib ids client ≡ 1
  launches-ready [] client h ne all = absurd (ne (all_done _ all))
  launches-ready (id ∷ ids) client h ne all =
      let rest = remove_dependency lib client.unsatisfied_deps id in
      let more =
        launches-cons id ids client (ground (arith, is_empty_iff client.unsatisfied_deps, ne)) in
      elim (Bool-cases (is_empty rest)) [
        | inl e ↦
            more
            ∙ rw (e, launches-none_left ids (without id client) ((is_empty_iff rest).0 e))
                (omega arith)
        | inr e ↦
            more
            ∙ rw
                (
                  e,
                  launches-ready ids (without id client) (Distinct-remove_dependency lib id _ h)
                      (λ q. cc (e, (is_empty_iff rest).1 q))
                      (λ d m.
                        let k = (In-remove_dependency lib d id client.unsatisfied_deps h).0 m in
                        elim (all d k.0) [ inl q ↦ absurd (k.1 q) | inr done ↦ done ]),
                )
                (omega arith)
      ]

  -- The dependencies that count: those on clients of the project.
  abbrev pub Awaits : List Node → Node → Uuid → Type 0
  Awaits lost_clients client d =
      In d client.dependencies × (get_client_by_id lib lost_clients d ≢ none)

  restore_client-In :
      (lost_clients : List Node) (client : Node) (d : Uuid)
      → In d (restore_client lib lost_clients client).0.unsatisfied_deps
        ↔ Awaits lost_clients client d
  unfolding restore_client
  restore_client-In = init_unsatisfied-In lib

  restore_client-Distinct :
      (lost_clients : List Node) (client : Node)
      → Distinct client.dependencies
      → Distinct (restore_client lib lost_clients client).0.unsatisfied_deps
  unfolding restore_client
  restore_client-Distinct = init_unsatisfied-Distinct lib

  launches_after_restore-eq :
      (lost_clients : List Node) (ids : List Uuid) (client : Node)
      → launches_after_restore lib lost_clients ids client
        ≡ (if is_empty (restore_client lib lost_clients client).0.unsatisfied_deps then 1 else 0)
          + launches lib ids (restore_client lib lost_clients client).0
  unfolding launches_after_restore restore_client
  launches_after_restore-eq lost_clients ids client = refl

  -- If every client of the project that `client` depends on is in the list, then `client` is
  -- launched exactly once while the project is restored and the clients of the list finish loading
  -- in the list's order. Its dependency list must be free of duplicates.
  pub launches_after_restore-once :
      (lost_clients : List Node) (ids : List Uuid) (client : Node)
      → Distinct client.dependencies
      → ((d : Uuid) → Awaits lost_clients client d → In d ids)
      → launches_after_restore lib lost_clients ids client ≡ 1
  launches_after_restore-once lost_clients ids client h all =
      let ready = (restore_client lib lost_clients client).0 in
      let start = launches_after_restore-eq lost_clients ids client in
      elim (Bool-cases (is_empty ready.unsatisfied_deps)) [
        | inl e ↦
            start
            ∙ rw (e, launches-none_left ids ready ((is_empty_iff ready.unsatisfied_deps).0 e))
                (omega arith)
        | inr e ↦
            start
            ∙ rw
                (
                  e,
                  launches-ready ids ready (restore_client-Distinct lost_clients client h)
                      (λ q. cc (e, (is_empty_iff ready.unsatisfied_deps).1 q))
                      (λ d m. all d ((restore_client-In lost_clients client d).0 m)),
                )
                (omega arith)
      ]

  -- While some client of the project that `client` depends on is not among those that have finished
  -- loading, `client` is not launched. Its dependency list must be free of duplicates.
  pub launches_after_restore-waits :
      (lost_clients : List Node) (ids : List Uuid) (client : Node) (d : Uuid)
      → Distinct client.dependencies
      → Awaits lost_clients client d
      → ¬ In d ids
      → launches_after_restore lib lost_clients ids client ≡ 0
  launches_after_restore-waits lost_clients ids client d h a n =
      let ready = (restore_client lib lost_clients client).0 in
      let m = (restore_client-In lost_clients client d).1 a in
      launches_after_restore-eq lost_clients ids client
      ∙ rw
          (
            is_empty-In d ready.unsatisfied_deps m,
            launches-waiting ids ready d (restore_client-Distinct lost_clients client h) m n,
          )
          (omega arith)
