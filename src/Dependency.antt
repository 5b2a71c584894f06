-- ===== src/Dependency.antt =====
-- lashd/client_dependency.c: the dependency lists of the clients of a project. A list of clients
-- is seen as the list of their IDs and dependency lists, which is all that this file's code reads;
-- a `struct list_head` is the sequence of its entries, so `list_add` puts an entry in front.
pub mod Graph
pub mod Circular
pub mod Acyclic
pub mod Preserved
pub mod SelfLoop
pub mod Load
pub mod Lists
mod Tests
use gnu_lash.Prelude.{
  ℕ, zero, suc, Bool, true, false, Option, none, some, List, [], ◌∷◌, find?, keep, is_empty, ◌>>=◌,
  if◌then◌else◌,
}
use gnu_lash.Uuid.{Uuid, UuidLib}

-- The part of a `struct lash_client` that the dependency code works on.
pub record Node : Type 0 where
  pub id : Uuid
  pub dependencies : List Uuid
  pub unsatisfied_deps : List Uuid

pub data Outcome : Type 0 where
  duplicate circular : Outcome
  added : Node → Outcome

module _ (lib : UuidLib) where
  -- project_get_client_by_id
  unfoldable pub get_client_by_id : List Node → Uuid → Option Node
  get_client_by_id clients id = find? (λ c. lib.same c.id id) clients

  -- The loop of client_dependency_find_circular, with the recursive call as `visit`.
  pub any_dependency : (Uuid → Option Bool) → Uuid → List Uuid → Option Bool
  any_dependency visit orig [] = some false
  any_dependency visit orig (dep ∷ deps) =
      let later = any_dependency visit orig deps in
      if lib.same orig dep
      then some true
      else (visit dep >>= λ found. if found then some true else later)

  -- The C function recurs with no bound: `none` says that `fuel` nested calls were not enough.
  pub find_circular : ℕ → List Node → Uuid → Uuid → Option Bool
  find_circular zero clients orig new = none
  find_circular (suc fuel) clients orig new = elim (get_client_by_id clients new) [
    | none ↦ some false
    | some client ↦ any_dependency (find_circular fuel clients orig) orig client.dependencies
  ]

  -- The first loop of client_dependency_add.
  pub has_dependency : Uuid → List Uuid → Bool
  has_dependency id [] = false
  has_dependency id (dep ∷ deps) = if lib.same id dep then true else has_dependency id deps

  pub add_dependency : ℕ → List Node → Node → Uuid → Option Outcome
  unfolding has_dependency
  add_dependency fuel clients client id =
      if has_dependency id client.dependencies
      then some duplicate
      else (find_circular fuel clients client.id id >>= λ found.
          if found
          then some circular
          else some (added (record client { dependencies = id ∷ client.dependencies })))

  -- The write through a `struct lash_client *` that points into the list.
  pub set_client : List Node → Node → List Node
  set_client [] client = []
  set_client (c ∷ cs) client =
      if lib.same c.id client.id then client ∷ cs else c ∷ set_client cs client

  -- client_dependency_add, with the list as the call leaves it.
  pub store_outcome : List Node → Outcome → List Node
  store_outcome clients duplicate = clients
  store_outcome clients circular = clients
  store_outcome clients (added client) = set_client clients client

  -- lashd_dbus_client_add_dependency, from the lookup of the client on.
  pub dbus_add_dependency : ℕ → List Node → Uuid → Uuid → Option (List Node)
  unfolding store_outcome
  dbus_add_dependency fuel clients client_id dep_id = elim (get_client_by_id clients client_id) [
    | none ↦ some clients
    | some client ↦
        (add_dependency fuel clients client dep_id >>= λ o. some (store_outcome clients o))
  ]

  -- client_dependency_remove, on one list: the first entry with the ID goes.
  pub remove_dependency : List Uuid → Uuid → List Uuid
  remove_dependency [] id = []
  remove_dependency (dep ∷ deps) id =
      if lib.same dep id then deps else dep ∷ remove_dependency deps id

  -- lashd_dbus_client_remove_dependency, from the lookup of the client on.
  pub dbus_remove_dependency : List Node → Uuid → Uuid → List Node
  dbus_remove_dependency clients client_id dep_id = elim (get_client_by_id clients client_id) [
    | none ↦ clients
    | some client ↦
        set_client clients
          (record client { dependencies = remove_dependency client.dependencies dep_id })
  ]

  -- The ID entries of one "dependencies" element in client_parse_xml, all well-formed.
  pub parse_dependencies : ℕ → List Node → Node → List Uuid → Option Node
  parse_dependencies fuel clients client [] = some client
  parse_dependencies fuel clients client (id ∷ ids) = add_dependency fuel clients client id >>= λ o.
      parse_dependencies fuel clients
        (elim o [ duplicate ↦ client | circular ↦ client | added c ↦ c ]) ids

  -- client_dependency_list_sanity_check
  pub is_known : List Node → Uuid → Bool
  is_known clients dep = elim (get_client_by_id clients dep) [ none ↦ false | some _ ↦ true ]

  pub sanity_check : List Node → Node → Node
  sanity_check clients client = record client {
    dependencies = keep (is_known clients) client.dependencies;
  }

-- client_dependency_remove_all
pub remove_all : List Uuid → List Uuid
remove_all deps = []

-- The loop of client_dependency_init_unsatisfied: each copy goes to the front.
pub copy_dependencies : List Uuid → List Uuid → List Uuid
copy_dependencies [] copies = copies
copy_dependencies (dep ∷ deps) copies = copy_dependencies deps (dep ∷ copies)

pub init_unsatisfied : Node → Node
unfolding remove_all copy_dependencies
init_unsatisfied client =
    let cleared =
      if is_empty client.unsatisfied_deps
      then client.unsatisfied_deps
      else remove_all client.unsatisfied_deps in
    if is_empty client.dependencies
    then record client { unsatisfied_deps = cleared }
    else record client { unsatisfied_deps = copy_dependencies client.dependencies cleared }
