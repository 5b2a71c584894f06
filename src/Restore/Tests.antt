-- ===== src/Restore/Tests.antt =====
-- The restore theorems at work on two lost clients: 1 depends on 2, and on 9, which is no client.
use gnu_lash.Prelude.{refl, inl, ◌≡◌, List, [], ◌∷◌, In, arith}
use gnu_lash.Uuid.Sample.{sample}
use gnu_lash.Uuid.{Uuid}
use gnu_lash.Dependency.{Node, get_client_by_id}
use gnu_lash.Dependency.Lists.{Distinct}
use gnu_lash.Restore.{restore_all}
use gnu_lash.Restore.Launches.{Awaits}
use gnu_lash.Restore.Order.{node_ids, count, restore_all-once, restore_all-waits}

abbrev waiting : Node
waiting = record { id = 1; dependencies = 9 ∷ 2 ∷ []; unsatisfied_deps = [] }

abbrev two_clients : List Node
two_clients = waiting ∷ record { id = 2; dependencies = []; unsatisfied_deps = [] } ∷ []

waiting-Distinct : Distinct (9 ∷ 2 ∷ [])
waiting-Distinct = ground arith

waits_for_two : (d : Uuid) → Awaits sample two_clients waiting d → In d (7 ∷ 2 ∷ [])
unfolding get_client_by_id
waits_for_two d a = ground arith

two_clients-Distinct : Distinct (node_ids two_clients)
two_clients-Distinct = ground arith

restore_all-once_example : count sample 1 (restore_all sample two_clients (7 ∷ 2 ∷ [])) ≡ 1
restore_all-once_example =
    restore_all-once sample two_clients (7 ∷ 2 ∷ []) waiting two_clients-Distinct (inl refl)
      waiting-Distinct waits_for_two

two_awaited : Awaits sample two_clients waiting 2
unfolding get_client_by_id
two_awaited = ground arith

restore_all-waits_example : count sample 1 (restore_all sample two_clients (7 ∷ [])) ≡ 0
restore_all-waits_example =
    restore_all-waits sample two_clients (7 ∷ []) waiting 2 two_clients-Distinct (inl refl)
      waiting-Distinct two_awaited (ground arith)
