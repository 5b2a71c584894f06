-- ===== src/Dependency/Circular.antt =====
-- client_dependency_find_circular decides whether a chain of dependencies leads to the original
-- client, when the recursion depth reaches the rank of its starting point.
use gnu_lash.Prelude.{
  ℕ, zero, suc, ◌<◌, ◌≡◌, refl, sym, subst, ◌≢◌, ◌⊎◌, inl, inr, Bool, true, false, Option, none,
  some, List, [], ◌∷◌, In, arith,
}
use gnu_lash.Uuid.{Uuid, UuidLib}
use gnu_lash.Dependency.{Node, get_client_by_id, any_dependency, find_circular}
use gnu_lash.Dependency.Graph.{Edge, deps_of, DependsOn, direct, through}

-- The outcome of a search, with what it means.
abbrev pub Decides : Type 0 → Option Bool → Type 0
Decides P r = ((r ≡ some true) × P) ⊎ (r ≡ some false) × ¬ P

-- The search may also have run out of fuel.
abbrev pub Answers : Type 0 → Option Bool → Type 0
Answers P r = (r ≡ none) ⊎ Decides P r

Answers-map : {P Q : Type 0} (r : Option Bool) → (P → Q) → (Q → P) → Answers P r → Answers Q r
Answers-map r f g (inl e) = inl e
Answers-map r f g (inr (inl (e, p))) = inr (inl (e, f p))
Answers-map r f g (inr (inr (e, np))) = inr (inr (e, λ q. np (g q)))

module _ (lib : UuidLib) (clients : List Node) (orig : Uuid) where
  -- Some entry of the list is `orig`, or leads to it.
  abbrev Leads : List Uuid → Type 0
  Leads [] = ⊥
  Leads (d ∷ ds) = (d ≡ orig) ⊎ (DependsOn lib clients d orig ⊎ Leads ds)

  Leads-In : (d : Uuid) (ds : List Uuid) → In d ds → DependsOn lib clients d orig → Leads ds
  Leads-In d [] m p = m
  Leads-In d (x ∷ ds) (inl e) p = inr (inl (subst (λ y. DependsOn lib clients y orig) e p))
  Leads-In d (x ∷ ds) (inr m) p = inr (inr (Leads-In d ds m p))

  Leads-In_orig : (ds : List Uuid) → In orig ds → Leads ds
  Leads-In_orig [] m = m
  Leads-In_orig (x ∷ ds) (inl e) = inl (sym e)
  Leads-In_orig (x ∷ ds) (inr m) = inr (inr (Leads-In_orig ds m))

  Leads-elim :
      (new : Uuid) (ds : List Uuid)
      → ((d : Uuid) → In d ds → Edge lib clients new d)
      → Leads ds
      → DependsOn lib clients new orig
  Leads-elim new [] sub l = absurd l
  Leads-elim new (d ∷ ds) sub (inl e) = direct (sub orig (inl (sym e)))
  Leads-elim new (d ∷ ds) sub (inr (inl p)) = through (sub d (inl refl)) p
  Leads-elim new (d ∷ ds) sub (inr (inr l)) = Leads-elim new ds (λ x m. sub x (inr m)) l

  DependsOn-Leads :
      {new b : Uuid}
      → DependsOn lib clients new b
      → b ≡ orig
      → Leads (deps_of (get_client_by_id lib clients new))
  DependsOn-Leads (direct {a} {b} e) q = Leads-In_orig _ (subst (λ y. Edge lib clients a y) q e)
  DependsOn-Leads (through {a} {b} {c} e p) q =
      Leads-In b _ e (subst (λ y. DependsOn lib clients b y) q p)

  any_dependency-Answers :
      (visit : Uuid → Option Bool) (ds : List Uuid)
      → ((d : Uuid) → Answers (DependsOn lib clients d orig) (visit d))
      → Answers (Leads ds) (any_dependency lib visit orig ds)
  unfolding any_dependency
  any_dependency-Answers visit [] all = inr (inr (refl, λ l. l))
  any_dependency-Answers visit (d ∷ ds) all =
      ground (arith, lib.same_iff orig d, all d, any_dependency-Answers visit ds all)

  pub any_dependency-ne-none :
      (visit : Uuid → Option Bool) (ds : List Uuid)
      → ((d : Uuid) → In d ds → d ≢ orig → visit d ≢ none)
      → any_dependency lib visit orig ds ≢ none
  unfolding any_dependency
  any_dependency-ne-none visit [] all e = cc
  any_dependency-ne-none visit (d ∷ ds) all e = ground (
    arith,
    lib.same_iff orig d,
    all d (inl refl),
    any_dependency-ne-none visit ds (λ x m. all x (inr m)),
  )

  pub find_circular-suc :
      (fuel : ℕ) (new : Uuid)
      → find_circular lib (suc fuel) clients orig new
        ≡ any_dependency lib
            (find_circular lib fuel clients orig)
            orig
            (deps_of (get_client_by_id lib clients new))
  unfolding find_circular any_dependency
  find_circular-suc fuel new = ground arith

  -- An answer is right, whatever the graph: `true` means that a chain of dependencies leads from
  -- `new` to `orig`, and `false` that none does.
  pub find_circular-Answers :
      (fuel : ℕ) (new : Uuid)
      → Answers (DependsOn lib clients new orig) (find_circular lib fuel clients orig new)
  unfolding find_circular
  find_circular-Answers zero new = inl refl
  find_circular-Answers (suc fuel) new = rw (find_circular-suc fuel new) (
      Answers-map _ (Leads-elim new _ (λ d m. m)) (λ p. DependsOn-Leads p refl)
        (any_dependency-Answers (find_circular lib fuel clients orig) _
          (find_circular-Answers fuel)))

  -- `orig` itself need not be ranked: the search never expands it.
  pub find_circular-ne-none :
      (rank : Uuid → ℕ) (fuel : ℕ) (new : Uuid)
      → ((a b : Uuid) → a ≢ orig → Edge lib clients a b → rank b < rank a)
      → new ≢ orig
      → rank new < fuel
      → find_circular lib fuel clients orig new ≢ none
  find_circular-ne-none rank zero new falls ne h = elim h [ ]
  find_circular-ne-none rank (suc fuel) new falls ne h = rw (find_circular-suc fuel new) (
      any_dependency-ne-none (find_circular lib fuel clients orig) _
        λ d m nd. find_circular-ne-none rank fuel d falls nd (omega (arith, falls new d ne m)))

  -- Where no cycle avoids `orig`, the recursion ends with an answer, and the answer is right.
  pub find_circular-Decides :
      (rank : Uuid → ℕ) (fuel : ℕ) (new : Uuid)
      → ((a b : Uuid) → a ≢ orig → Edge lib clients a b → rank b < rank a)
      → new ≢ orig
      → rank new < fuel
      → Decides (DependsOn lib clients new orig) (find_circular lib fuel clients orig new)
  find_circular-Decides rank fuel new falls ne h = elim (find_circular-Answers fuel new) [
    | inl e ↦ absurd (find_circular-ne-none rank fuel new falls ne h e)
    | inr d ↦ d
  ]
