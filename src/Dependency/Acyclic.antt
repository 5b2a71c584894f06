-- ===== src/Dependency/Acyclic.antt =====
-- Adding and removing dependencies keeps the graph free of cycles.
use gnu_lash.Prelude.{
  ℕ, suc, ◌+◌, ◌≡◌, refl, sym, subst, ◌∙◌, ◌≢◌, ◌⊎◌, inl, inr, Bool, true, false, ◌||◌, Option,
  none, some, List, [], ◌∷◌, In, arith, Bool-cases, if◌then◌else◌,
}
use gnu_lash.Uuid.{Uuid, UuidLib}
use gnu_lash.Dependency.{Node, get_client_by_id, find_circular, set_client}
use gnu_lash.Dependency.Graph.{Edge, deps_of, DependsOn, direct, through, IsAcyclic}
use gnu_lash.Dependency.Circular.{find_circular-Decides}

abbrev is_yes : Option Bool → Bool
is_yes none = false
is_yes (some b) = b

module _ (lib : UuidLib) where
  pub same_refl : (a : Uuid) → lib.same a a ≡ true
  same_refl a = (lib.same_iff a a).1 refl

  pub get_client_by_id-id :
      (clients : List Node) (a : Uuid) (c : Node)
      → get_client_by_id lib clients a ≡ some c
      → c.id ≡ a
  unfolding get_client_by_id
  get_client_by_id-id [] a c e = cc
  get_client_by_id-id (x ∷ clients) a c e =
      ground (arith, lib.same_iff x.id a, get_client_by_id-id clients a c)

  -- A write through the pointer is seen under the client's ID, and under no other.
  pub get_client_by_id-set_client :
      (clients : List Node) (client old : Node) (a : Uuid)
      → get_client_by_id lib clients client.id ≡ some old
      → get_client_by_id lib (set_client lib clients client) a
        ≡ (if lib.same client.id a then some client else get_client_by_id lib clients a)
  unfolding get_client_by_id set_client
  get_client_by_id-set_client [] client old a e = cc
  get_client_by_id-set_client (x ∷ clients) client old a e = ground (
    arith,
    lib.same_iff x.id client.id,
    lib.same_iff client.id a,
    lib.same_iff x.id a,
    get_client_by_id-set_client clients client old a,
  )

  pub set_client-Edge :
      (clients : List Node) (client old : Node) (a b : Uuid)
      → get_client_by_id lib clients client.id ≡ some old
      → Edge lib (set_client lib clients client) a b
      → (a ≢ client.id) × Edge lib clients a b ⊎ (a ≡ client.id) × In b client.dependencies
  set_client-Edge clients client old a b found e =
      let seen =
        subst (λ o. In b (deps_of o)) (get_client_by_id-set_client clients client old a found) e in
      elim (Bool-cases (lib.same client.id a)) [
        | inl h ↦ inr (sym ((lib.same_iff client.id a).0 h), rw h at seen)
        | inr h ↦ inl (λ q. cc (h, (lib.same_iff client.id a).1 (sym q)), rw h at seen)
      ]

  module _ (clients : List Node) (ranked : IsAcyclic lib clients) (orig : Uuid) where
    -- The search's answer for `a`, with as much fuel as its rank asks for.
    leads : Uuid → Bool
    leads a = lib.same orig a || is_yes (find_circular lib (suc (ranked.0 a)) clients orig a)

    leads_lem :
        (a : Uuid)
        → ((leads a ≡ true) × ((a ≡ orig) ⊎ DependsOn lib clients a orig))
          ⊎ (leads a ≡ false) × (a ≢ orig) × ¬ DependsOn lib clients a orig
    unfolding leads
    leads_lem a = elim (Bool-cases (lib.same orig a)) [
      | inl e ↦ inl (rw e refl, inl (sym ((lib.same_iff orig a).0 e)))
      | inr e ↦
          let ne : a ≢ orig = λ q. cc (e, (lib.same_iff orig a).1 (sym q)) in
          rw e
            (elim (find_circular-Decides lib clients orig ranked.0 (suc (ranked.0 a)) a
              (λ x y _. ranked.1 x y) ne (omega arith)) [
                | inl (q, p) ↦ inl (rw q refl, inr p)
                | inr (q, np) ↦ inr (rw q refl, ne, np)
              ])
    ]

    leads-Edge : (a b : Uuid) → Edge lib clients a b → leads b ≡ true → leads a ≡ true
    leads-Edge a b e h = elim (leads_lem a) [
      | inl (q, _) ↦ q
      | inr (_, ne, np) ↦ elim (leads_lem b) [
        | inl (_, inl q) ↦ absurd (np (direct (subst (λ y. Edge lib clients a y) q e)))
        | inl (_, inr p) ↦ absurd (np (through e p))
        | inr (q, _, _) ↦ cc
      ]
    ]

    raised : Uuid → Uuid → ℕ
    raised dep a = if leads a then ranked.0 a + suc (ranked.0 dep) else ranked.0 a

    -- One more edge, from `orig` to a client that does not lead to it.
    IsAcyclic-extend :
        (clients' : List Node) (dep : Uuid)
        → dep ≢ orig
        → ¬ DependsOn lib clients dep orig
        → ((a b : Uuid) → Edge lib clients' a b → Edge lib clients a b ⊎ (a ≡ orig) × (b ≡ dep))
        → IsAcyclic lib clients'
    unfolding raised
    IsAcyclic-extend clients' dep ne np edges = (
      raised dep,
      λ a b e. elim (edges a b e) [
        | inl old ↦ ground (arith, ranked.1 a b old, leads-Edge a b old)
        | inr (qa, qb) ↦ rw (qa, qb) (ground (arith, leads_lem dep, leads_lem orig))
      ],
    )

    pub add_edge-IsAcyclic :
        (client : Node) (dep : Uuid)
        → get_client_by_id lib clients orig ≡ some client
        → dep ≢ orig
        → ¬ DependsOn lib clients dep orig
        → IsAcyclic lib
            (set_client lib clients (record client { dependencies = dep ∷ client.dependencies }))
    add_edge-IsAcyclic client dep found ne np =
        let q : client.id ≡ orig = get_client_by_id-id clients orig client found in
        let found' = subst (λ y. get_client_by_id lib clients y ≡ some client) (sym q) found in
        IsAcyclic-extend _ dep ne np λ a b e.
          elim (set_client-Edge clients (record client { dependencies = dep ∷ client.dependencies })
            client a b found' e) [
              | inl (_, old) ↦ inl old
              | inr (qa, inl qb) ↦ inr (qa ∙ q, qb)
              | inr (qa, inr m) ↦ inl (rw (qa ∙ q, found) m)
            ]
