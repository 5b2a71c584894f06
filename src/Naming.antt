-- ===== src/Naming.antt =====
-- The names that the daemon gives: to a new client, project_get_unique_client_name,
-- project_name_client and project_new_client of lashd/project.c with client_find_by_name of
-- lashd/client.c, and to a project, server_create_new_project_name of lashd/server.c.
pub mod Distinct
pub mod Digits
pub mod Candidates
pub mod Clients
pub mod Projects
mod Tests
use gnu_lash.Prelude.{
  ℕ, zero, suc, Bool, true, false, not, Option, none, some, List, [], ◌∷◌, ◌++◌, Str, str_eq, codes,
  ltb, find?, length, is_empty, decimal, if◌then◌else◌,
}

-- The fields of `struct lash_client` that are read and set here.
pub record NamedClient : Type 0 where
  pub class_name : Str
  pub name : Option Str

abbrev pub is_named : Str → Option Str → Bool
is_named s none = false
is_named s (some n) = str_eq n s

unfoldable pub client_find_by_name : List NamedClient → Str → Option NamedClient
client_find_by_name clients s = find? (λ c. is_named s c.name) clients

-- project_get_client_by_name, which looks at the running and at the lost clients.
unfoldable pub get_client_by_name : List NamedClient → List NamedClient → Str → Option NamedClient
get_client_by_name clients lost_clients s = elim (client_find_by_name clients s) [
  | some client ↦ some client
  | none ↦ client_find_by_name lost_clients s
]

-- sprintf ("%02u", i)
unfoldable pub two_digits : ℕ → Str
two_digits i = if ltb i 10 then b'0' ∷ decimal i else decimal i

-- sprintf ("%s %02u", class, i)
unfoldable pub numbered : Str → ℕ → Str
numbered class_name i = class_name ++ b' ' ∷ two_digits i

-- The loop over the numbers, from `i` on, with `n` rounds left.
unfoldable pub try_numbers : List NamedClient → List NamedClient → Str → ℕ → ℕ → Option Str
try_numbers clients lost_clients class_name zero i = none
try_numbers clients lost_clients class_name (suc n) i =
    elim (get_client_by_name clients lost_clients (numbered class_name i)) [
      | none ↦ some (numbered class_name i)
      | some client ↦ try_numbers clients lost_clients class_name n (suc i)
    ]

unfoldable pub unique_client_name : List NamedClient → List NamedClient → Str → Option Str
unique_client_name clients lost_clients class_name =
    elim (get_client_by_name clients lost_clients class_name) [
      | none ↦ some class_name
      | some client ↦ try_numbers clients lost_clients class_name 99 1
    ]

abbrev pub or_empty : Option Str → Str
or_empty none = []
or_empty (some s) = s

unfoldable pub name_client : List NamedClient → List NamedClient → NamedClient → NamedClient
name_client clients lost_clients client = record client {
  name = some (or_empty (unique_client_name clients lost_clients client.class_name));
}

-- project_new_client: the running clients afterwards. The client is put into the list, and then
-- named.
unfoldable pub new_client : List NamedClient → List NamedClient → NamedClient → List NamedClient
new_client clients lost_clients client =
    name_client (client ∷ clients) lost_clients client ∷ clients

-- server_find_project_by_name, on the names of the loaded projects.
unfoldable pub find_project_by_name : List Str → Str → Option Str
find_project_by_name loaded s = find? (λ n. str_eq n s) loaded

-- `on_disk` tells for a name whether access finds an info file in the project directory of that
-- name.
unfoldable pub is_free : List Str → (Str → Bool) → Str → Bool
is_free loaded on_disk s = elim (find_project_by_name loaded s) [
  | none ↦ not (on_disk s)
  | some n ↦ false
]

-- sprintf ("%s %d", suggestion, i)
unfoldable pub project_name : Str → ℕ → Str
project_name suggestion i = suggestion ++ b' ' ∷ decimal i

-- The loop, with `n` rounds left, the counter `i`, and the name in the buffer.
unfoldable pub try_names : List Str → (Str → Bool) → Str → ℕ → ℕ → Str → Option Str
try_names loaded on_disk suggestion zero i s = none
try_names loaded on_disk suggestion (suc n) i s = elim (is_free loaded on_disk s) [
  | true ↦ some s
  | false ↦ try_names loaded on_disk suggestion n (suc i) (project_name suggestion i)
]

abbrev pub default_name : Str
default_name = codes "New Project"

-- The counter runs from 2 to 1000000000.
abbrev pub rounds : ℕ
rounds = 999999999

unfoldable pub create_new_project_name : List Str → (Str → Bool) → Option Str → Option Str
create_new_project_name loaded on_disk none =
    try_names loaded on_disk default_name rounds 2 default_name
create_new_project_name loaded on_disk (some s) = elim (is_empty s) [
  | true ↦ try_names loaded on_disk default_name rounds 2 default_name
  | false ↦ elim (ltb 1023 (length s)) [
    | true ↦ none
    | false ↦ try_names loaded on_disk s rounds 2 s
  ]
]
