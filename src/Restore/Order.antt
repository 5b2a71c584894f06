-- ===== src/Restore/Order.antt =====
-- The whole list of lost clients: each client is launched as often as it is when seen by itself.
use gnu_lash.Prelude.{
  ℕ, ◌+◌, ◌≡◌, refl, sym, ap, subst, ◌∙◌, ◌≢◌, inl, inr, Bool, List, [], ◌∷◌, ◌++◌, In, arith,
  if◌then◌else◌,
}
use gnu_lash.Uuid.{Uuid, UuidLib}
use gnu_lash.Dependency.{Node}
use gnu_lash.Dependency.Lists.{Distinct, init_unsatisfied-id}
use gnu_lash.Restore.{
  restore_client, satisfy_client, launched_id, restore_clients, satisfy_client_dependency, launches,
  launches_after_restore, satisfy_all, restore_all,
}
use gnu_lash.Restore.Launches.{Awaits, launches_after_restore-once, launches_after_restore-waits}

abbrev pub node_ids : List Node → List Uuid
node_ids [] = []
node_ids (c ∷ cs) = c.id ∷ node_ids cs

In-node_ids : (c : Node) (cs : List Node) → In c cs → In c.id (node_ids cs)
In-node_ids c [] m = absurd m
In-node_ids c (x ∷ cs) (inl q) = inl (ap (λ (n : Node). n.id) q)
In-node_ids c (x ∷ cs) (inr m) = inr (In-node_ids c cs m)

module _ (lib : UuidLib) where
  abbrev pub count : Uuid → List Uuid → ℕ
  count id [] = 0
  count id (x ∷ xs) = (if lib.same x id then 1 else 0) + count id xs

  count-append : (id : Uuid) (xs ys : List Uuid) → count id (xs ++ ys) ≡ count id xs + count id ys
  count-append id [] ys = omega arith
  count-append id (x ∷ xs) ys = omega (arith, count-append id xs ys)

  -- One round for every client, as both loops make it.
  each : (Node → Node × Bool) → List Node → List Node × List Uuid
  each f [] = ([], [])
  each f (c ∷ cs) = let (rest, ids) = each f cs in ((f c).0 ∷ rest, launched_id lib (f c) ids)

  restore_clients-each :
      (lost_clients cs : List Node)
      → restore_clients lib lost_clients cs ≡ each (restore_client lib lost_clients) cs
  unfolding restore_clients each
  restore_clients-each lost_clients [] = refl
  restore_clients-each lost_clients (c ∷ cs) = rw (restore_clients-each lost_clients cs) refl

  satisfy_client_dependency-each :
      (cs : List Node) (id : Uuid)
      → satisfy_client_dependency lib cs id ≡ each (satisfy_client lib id) cs
  unfolding satisfy_client_dependency each
  satisfy_client_dependency-each [] id = refl
  satisfy_client_dependency-each (c ∷ cs) id = rw (satisfy_client_dependency-each cs id) refl

  module _ (f : Node → Node × Bool) (same_id : (c : Node) → (f c).0.id ≡ c.id) where
    each_ids : (cs : List Node) → node_ids (each f cs).0 ≡ node_ids cs
    unfolding each
    each_ids [] = refl
    each_ids (c ∷ cs) = rw (same_id c, each_ids cs) refl

    each_others : (id : Uuid) (cs : List Node) → ¬ In id (node_ids cs) → count id (each f cs).1 ≡ 0
    unfolding each launched_id
    each_others id [] h = refl
    each_others id (c ∷ cs) h =
        ground (arith, each_others id cs, same_id c, lib.same_iff (f c).0.id id, h)

    each_lem :
        (c : Node) (cs : List Node)
        → Distinct (node_ids cs)
        → In c cs
        → (count c.id (each f cs).1 ≡ (if (f c).1 then 1 else 0)) × In (f c).0 (each f cs).0
    unfolding each launched_id
    each_lem c [] h m = absurd m
    each_lem c (x ∷ cs) h (inl q) =
        let none_else : count c.id (each f cs).1 ≡ 0 =
          each_others c.id cs (subst (λ (n : Node). ¬ In n.id (node_ids cs)) (sym q) h.0) in
        subst
          (λ (y : Node).
            (count c.id (launched_id lib (f y) (each f cs).1) ≡ (if (f c).1 then 1 else 0))
            × In (f c).0 ((f y).0 ∷ (each f cs).0))
          q (ground (arith, none_else, same_id c, lib.same_iff (f c).0.id c.id))
    each_lem c (x ∷ cs) h (inr m) =
        let (n, k) = each_lem c cs h.1 m in
        let other : x.id ≢ c.id =
          λ q. h.0 (subst (λ y. In y (node_ids cs)) (sym q) (In-node_ids c cs m)) in
        (ground (arith, n, other, same_id x, lib.same_iff (f x).0.id c.id), inr k)

  restore_client-id :
      (lost_clients : List Node) (c : Node) → (restore_client lib lost_clients c).0.id ≡ c.id
  unfolding restore_client
  restore_client-id lost_clients c = init_unsatisfied-id lib lost_clients c

  satisfy_client-id : (id : Uuid) (c : Node) → (satisfy_client lib id c).0.id ≡ c.id
  unfolding satisfy_client
  satisfy_client-id id c = ground arith

  satisfy_all-count :
      (ids : List Uuid) (cs : List Node) (c : Node)
      → Distinct (node_ids cs)
      → In c cs
      → count c.id (satisfy_all lib ids cs) ≡ launches lib ids c
  unfolding satisfy_all launches
  satisfy_all-count [] cs c h m = refl
  satisfy_all-count (id ∷ ids) cs c h m =
      let f = satisfy_client lib id in
      let (n, k) = each_lem f (satisfy_client-id id) c cs h m in
      let later =
        satisfy_all-count ids (each f cs).0 (f c).0
          (subst Distinct (sym (each_ids f (satisfy_client-id id) cs)) h) k in
      let named =
        subst (λ i. count i (satisfy_all lib ids (each f cs).0) ≡ launches lib ids (f c).0)
          (satisfy_client-id id c) later in
      rw (satisfy_client_dependency-each cs id)
        (count-append c.id (each f cs).1 (satisfy_all lib ids (each f cs).0) ∙ rw (n, named) refl)

  restore_all-count :
      (lost_clients : List Node) (ids : List Uuid) (c : Node)
      → Distinct (node_ids lost_clients)
      → In c lost_clients
      → count c.id (restore_all lib lost_clients ids)
        ≡ launches_after_restore lib lost_clients ids c
  unfolding restore_all launches_after_restore
  restore_all-count lost_clients ids c h m =
      let f = restore_client lib lost_clients in
      let (n, k) = each_lem f (restore_client-id lost_clients) c lost_clients h m in
      let later =
        satisfy_all-count ids (each f lost_clients).0 (f c).0
          (subst Distinct (sym (each_ids f (restore_client-id lost_clients) lost_clients)) h) k in
      let named =
        subst
          (λ i. count i (satisfy_all lib ids (each f lost_clients).0) ≡ launches lib ids (f c).0)
          (restore_client-id lost_clients c) later in
      rw (restore_clients-each lost_clients lost_clients) (
        count-append c.id (each f lost_clients).1 (satisfy_all lib ids (each f lost_clients).0)
        ∙ rw (n, named) refl)

  -- If every client of the project that a lost client depends on is among those that finish loading,
  -- in whatever order, then the lost client is launched exactly once while the project is restored
  -- and those clients finish loading. The IDs of the lost clients must be distinct, and the client's
  -- dependency list free of duplicates.
  pub restore_all-once :
      (lost_clients : List Node) (ids : List Uuid) (c : Node)
      → Distinct (node_ids lost_clients)
      → In c lost_clients
      → Distinct c.dependencies
      → ((d : Uuid) → Awaits lib lost_clients c d → In d ids)
      → count c.id (restore_all lib lost_clients ids) ≡ 1
  restore_all-once lost_clients ids c h m dd all =
      restore_all-count lost_clients ids c h m
      ∙ launches_after_restore-once lib lost_clients ids c dd all

  -- While some client of the project that a lost client depends on is not among those that have
  -- finished loading, the lost client is not launched. The IDs of the lost clients must be distinct,
  -- and the client's dependency list free of duplicates.
  pub restore_all-waits :
      (lost_clients : List Node) (ids : List Uuid) (c : Node) (d : Uuid)
      → Distinct (node_ids lost_clients)
      → In c lost_clients
      → Distinct c.dependencies
      → Awaits lib lost_clients c d
      → ¬ In d ids
      → count c.id (restore_all lib lost_clients ids) ≡ 0
  restore_all-waits lost_clients ids c d h m dd a n =
      restore_all-count lost_clients ids c h m
      ∙ launches_after_restore-waits lib lost_clients ids c d dd a n
