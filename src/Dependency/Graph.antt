-- ===== src/Dependency/Graph.antt =====
-- The dependency graph of a list of clients: an edge leads from a client to each of its
-- dependencies, whether or not a client with that ID exists.
use gnu_lash.Prelude.{ℕ, ◌<◌, Option, none, some, List, [], In, arith}
use gnu_lash.Uuid.{Uuid, UuidLib}
use gnu_lash.Dependency.{Node, get_client_by_id}

-- The dependencies of the client that a lookup finds.
abbrev pub deps_of : Option Node → List Uuid
deps_of none = []
deps_of (some client) = client.dependencies

module _ (lib : UuidLib) where
  abbrev pub Edge : List Node → Uuid → Uuid → Type 0
  Edge clients a b = In b (deps_of (get_client_by_id lib clients a))

  -- A chain of one or more dependencies.
  pub data DependsOn (clients : List Node) : Uuid → Uuid → Type 0 where
    direct : {a b : Uuid} → Edge clients a b → DependsOn clients a b
    through : {a b c : Uuid} → Edge clients a b → DependsOn clients b c → DependsOn clients a c

  -- A rank that falls along every edge: there is no cycle.
  abbrev pub IsAcyclic : List Node → Type 0
  IsAcyclic clients = (rank : Uuid → ℕ) × ((a b : Uuid) → Edge clients a b → rank b < rank a)

  DependsOn-lt :
      (clients : List Node) (ranked : IsAcyclic clients) {a b : Uuid}
      → DependsOn clients a b
      → ranked.0 b < ranked.0 a
  DependsOn-lt clients ranked (direct {a} {b} e) = ranked.1 a b e
  DependsOn-lt clients ranked (through {a} {b} {c} e d) =
      omega (arith, ranked.1 a b e, DependsOn-lt clients ranked d)

  -- So no client depends on itself.
  pub not-DependsOn-self :
      (clients : List Node) → IsAcyclic clients → (a : Uuid) → ¬ DependsOn clients a a
  not-DependsOn-self clients ranked a d = omega (arith, DependsOn-lt clients ranked d)
