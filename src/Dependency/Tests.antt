-- ===== src/Dependency/Tests.antt =====
-- The dependency theorems at work on three clients: 3 depends on 1, and 1 on 2.
use gnu_lash.Prelude.{
  ℕ, ◌<◌, ◌≡◌, refl, ◌≢◌, ◌↔◌, none, some, List, [], ◌∷◌, In, ◌==◌, arith, if◌then◌else◌,
}
use gnu_lash.Uuid.Sample.{sample}
use gnu_lash.Uuid.{Uuid}
use gnu_lash.Dependency.{
  parse_dependencies, Node, circular, get_client_by_id, find_circular, has_dependency,
  add_dependency, set_client, any_dependency, store_outcome, dbus_add_dependency, sanity_check,
  init_unsatisfied,
}
use gnu_lash.Dependency.Graph.{Edge, IsAcyclic}
use gnu_lash.Dependency.Preserved.{
  AddOutcome, add_dependency-AddOutcome, dbus_add_dependency-returns,
}
use gnu_lash.Dependency.Load.{parse_dependencies-IsAcyclic}
use gnu_lash.Dependency.SelfLoop.{add_dependency-diverges}
use gnu_lash.Dependency.Lists.{init_unsatisfied-In}

abbrev second_client : Node
second_client = record { id = 2; dependencies = []; unsatisfied_deps = [] }

abbrev third_client : Node
third_client = record { id = 3; dependencies = 1 ∷ []; unsatisfied_deps = [] }

abbrev three_clients : List Node
three_clients =
    record { id = 1; dependencies = 2 ∷ []; unsatisfied_deps = [] }
    ∷ second_client
    ∷ third_client
    ∷ []

abbrev depth : Uuid → ℕ
depth a = if a == 3 then 2 else (if a == 1 then 1 else 0)

three_clients-falls : (a b : Uuid) → Edge sample three_clients a b → depth b < depth a
unfolding get_client_by_id
three_clients-falls a b e = ground arith

abbrev three_clients-IsAcyclic : IsAcyclic sample three_clients
three_clients-IsAcyclic = (depth, three_clients-falls)

refused : add_dependency sample 5 three_clients second_client 3 ≡ some circular
unfolding add_dependency find_circular any_dependency get_client_by_id has_dependency
refused = refl

add_dependency-AddOutcome_example : AddOutcome sample three_clients second_client 3 circular
add_dependency-AddOutcome_example =
    add_dependency-AddOutcome sample 5 three_clients second_client 3 circular refused

-- Client 2 gets a dependency on 5, which is no client.
dbus_add_dependency-returns_example :
    (cs : List Node) × (dbus_add_dependency sample 1 three_clients 2 5 ≡ some cs)
    × IsAcyclic sample cs
dbus_add_dependency-returns_example =
    dbus_add_dependency-returns sample 1 three_clients 2 5 three_clients-IsAcyclic (ground arith)
      (omega arith)

abbrev five_added : List Node
five_added =
    record { id = 1; dependencies = 2 ∷ []; unsatisfied_deps = [] }
    ∷ record second_client { dependencies = 5 ∷ [] }
    ∷ third_client
    ∷ []

added_five : dbus_add_dependency sample 5 three_clients 2 5 ≡ some five_added
unfolding dbus_add_dependency add_dependency find_circular any_dependency get_client_by_id
    has_dependency store_outcome set_client
added_five = refl

second_found : get_client_by_id sample three_clients 2 ≡ some second_client
unfolding get_client_by_id
second_found = refl

add_dependency-diverges_example :
    (clients : List Node) × (dbus_add_dependency sample 3 three_clients 2 2 ≡ some clients)
    × (add_dependency sample 100 clients third_client 2 ≡ none)
add_dependency-diverges_example =
    add_dependency-diverges sample 3 100 three_clients second_client third_client
      three_clients-IsAcyclic second_found (omega arith) (ground arith) (ground arith)

init_unsatisfied-In_example :
    In 1 (init_unsatisfied (sanity_check sample three_clients third_client)).unsatisfied_deps
    ↔ (In {A = ℕ} 1 (1 ∷ []) × (get_client_by_id sample three_clients 1 ≢ none))
init_unsatisfied-In_example = init_unsatisfied-In sample three_clients third_client 1

-- A fourth client is read, which depends on 3 and on 8.
abbrev fourth_client : Node
fourth_client = record { id = 4; dependencies = []; unsatisfied_deps = [] }

ranks_below : (d : Uuid) → In d (3 ∷ 8 ∷ []) → depth d < 3
ranks_below d m = ground arith

parse_dependencies-IsAcyclic_example :
    (c : Node) × (parse_dependencies sample 3 three_clients fourth_client (3 ∷ 8 ∷ []) ≡ some c)
    × IsAcyclic sample (c ∷ three_clients)
parse_dependencies-IsAcyclic_example =
    parse_dependencies-IsAcyclic sample three_clients 3 fourth_client (3 ∷ 8 ∷ [])
      three_clients-IsAcyclic refl (ground arith) ranks_below
