-- ===== src/Jackdbus/Current.antt =====
-- The version that the manager asks for is that of the graph that it has.
mod Signals
pub mod Steps
use gnu_lash.Prelude.{
  ℕ, ◌==◌, ◌≡◌, ◌≢◌, ◌⊎◌, refl, sym, ap, ◌∙◌, Bool, true, false, inl, inr, Option, none, some, List,
  [], ◌∷◌, ◌++◌, Str, codes, str_eq, is_empty, arith, ◌>>=◌, Bool-cases, Option-cases,
  if◌then◌else◌,
}
use gnu_lash.Uuid.{Uuid, UuidLib}
use gnu_lash.JackPatch.Types.{JackPatch}
use gnu_lash.JackMgr.Types.{dup_patch_list}
use gnu_lash.Jackdbus.Types.{
  JackdbusMgr, JackClient, Output, Answers, Graph, GraphClient, Cell, add_unknown, new_client,
}
use gnu_lash.Jackdbus.Graph.{
  graph_free, save_graph, get_graph, store_unknown, unknown_in, unknown_of, get_unknown_clients,
  mgr_new, data_in, data_from, get_client_data, bind_client,
}
use gnu_lash.Jackdbus.Patches.{finish_patches, patches_of, get_client_patches, remove_client}
use gnu_lash.Jackdbus.Signals.{
  Message, LashClients, Handled, clear, client_found, on_client_appeared, on_client_disappeared,
  on_lash_client, on_port_appeared, connected_at, ports_connected, ports_disconnected,
}
use gnu_lash.Jackdbus.Handler.{
  jackdbus_handler, handle_patchbay_signal, handle_control_signal, handle_bus_signal, owner_of,
  owner_changed,
}

pub record IsCurrent (mgr : JackdbusMgr) : Type 0 where
  pub current :
      (mgr.graph_version ≡ 0)
      ⊎ ((g : Graph) × (mgr.graph ≡ some g) × (mgr.graph_version ≡ g.version))

-- Each manager that a result holds is current.
pub Keeps : {A : Type 0} → Option (JackdbusMgr × A) → Type 0
Keeps none = Unit {0}
Keeps (some (mgr, a)) = IsCurrent mgr

KeepsMgr : Option JackdbusMgr → Type 0
KeepsMgr none = Unit {0}
KeepsMgr (some mgr) = IsCurrent mgr

kept : {A : Type 0} (mgr : JackdbusMgr) (a : A) → IsCurrent mgr → Keeps (some (mgr, a))
unfolding Keeps
kept mgr a h = h

graph_free-IsCurrent : (mgr : JackdbusMgr) → IsCurrent (graph_free mgr)
unfolding graph_free
graph_free-IsCurrent mgr = record { current = inl refl }

save_graph-IsCurrent :
    (mgr : JackdbusMgr) (answer : Option Graph) → IsCurrent mgr → IsCurrent (save_graph mgr answer)
unfolding save_graph
save_graph-IsCurrent mgr none h = h
save_graph-IsCurrent mgr (some g) h = elim (Bool-cases (g.version == mgr.graph_version)) [
  | inl e ↦ rw e h
  | inr e ↦ rw e (record { current = inr (g, refl, refl) })
]

get_graph-IsCurrent :
    (mgr : JackdbusMgr) (answers : Answers) → IsCurrent mgr → IsCurrent (get_graph mgr answers)
unfolding get_graph
get_graph-IsCurrent mgr answers h = save_graph-IsCurrent mgr (answers.graph mgr.graph_version) h

-- The manager has the same graph, and asks for the same version.
abbrev SameGraph : JackdbusMgr → JackdbusMgr → Type 0
SameGraph mgr mgr' = (mgr'.graph ≡ mgr.graph) × (mgr'.graph_version ≡ mgr.graph_version)

SameGraph-IsCurrent : (mgr mgr' : JackdbusMgr) → SameGraph mgr mgr' → IsCurrent mgr → IsCurrent mgr'
SameGraph-IsCurrent mgr mgr' (e, f) h = elim h.current [
  | inl z ↦ record { current = inl (f ∙ z) }
  | inr (g, p, q) ↦ record { current = inr (g, e ∙ p, f ∙ q) }
]

Keeps-bind :
    {A B : Type 0} (o : Option A) (f : A → Option (JackdbusMgr × B))
    → ((a : A) → Keeps (f a))
    → Keeps (o >>= f)
unfolding Keeps KeepsMgr
Keeps-bind none f k = tt
Keeps-bind (some a) f k = k a

KeepsMgr-bind :
    {A : Type 0} (o : Option A) (f : A → Option JackdbusMgr)
    → ((a : A) → KeepsMgr (f a))
    → KeepsMgr (o >>= f)
unfolding Keeps KeepsMgr
KeepsMgr-bind none f k = tt
KeepsMgr-bind (some a) f k = k a

-- What follows on a result that keeps the manager current.
Keeps-then :
    {A B : Type 0} (o : Option (JackdbusMgr × A)) (f : JackdbusMgr × A → Option (JackdbusMgr × B))
    → Keeps o
    → ((m : JackdbusMgr) (a : A) → IsCurrent m → Keeps (f (m, a)))
    → Keeps (o >>= f)
unfolding Keeps KeepsMgr
Keeps-then none f h k = tt
Keeps-then (some (m, a)) f h k = k m a h

KeepsMgr-then :
    {B : Type 0} (o : Option JackdbusMgr) (f : JackdbusMgr → Option (JackdbusMgr × B))
    → KeepsMgr o
    → ((m : JackdbusMgr) → IsCurrent m → Keeps (f m))
    → Keeps (o >>= f)
unfolding Keeps KeepsMgr
KeepsMgr-then none f h k = tt
KeepsMgr-then (some m) f h k = k m h

-- The graph is freed unless all is well.
if_freed :
    (ok : Bool) (mgr : JackdbusMgr) → IsCurrent mgr → IsCurrent (if ok then mgr else graph_free mgr)
if_freed true mgr h = h
if_freed false mgr h = graph_free-IsCurrent mgr

module _ (lib : UuidLib) where
  unknown_of-Keeps :
      (mgr : JackdbusMgr) (answers : Answers) (graph : Option Graph)
      → IsCurrent mgr
      → KeepsMgr (unknown_of lib mgr answers graph)
  unfolding unknown_of Keeps KeepsMgr
  unknown_of-Keeps mgr answers none h = h
  unknown_of-Keeps mgr answers (some g) h = unknown_in-Keeps g.clients
    where
      unknown_in-Keeps :
          (clients : Option (List (Option GraphClient)))
          → KeepsMgr (unknown_in lib mgr answers clients)
      unknown_in-Keeps none = graph_free-IsCurrent mgr
      unknown_in-Keeps (some clients) =
          KeepsMgr-bind (store_unknown lib answers clients mgr.unknown_clients) _
            λ (cells, complete).
              if_freed complete (record mgr { unknown_clients = cells })
                (SameGraph-IsCurrent mgr (record mgr { unknown_clients = cells }) (refl, refl) h)

  data_from-Keeps :
      (mgr : JackdbusMgr) (client : JackClient) (graph : Option Graph)
      → IsCurrent mgr
      → Keeps (data_from lib mgr client graph)
  unfolding data_from Keeps KeepsMgr
  data_from-Keeps mgr client none h =
      SameGraph-IsCurrent mgr (record mgr { clients = mgr.clients ++ (client ∷ []) }) (refl, refl) h
  data_from-Keeps mgr client (some g) h =
      Keeps-bind (data_in lib g mgr.clients client) _ λ (client', calls, ok).
        if_freed ok (record mgr { clients = mgr.clients ++ (client' ∷ []) })
          (SameGraph-IsCurrent mgr (record mgr { clients = mgr.clients ++ (client' ∷ []) })
            (refl, refl) h)

  bind_client-Keeps :
      (mgr : JackdbusMgr) (answers : Answers) (client : JackClient) (id : Uuid)
      (ps : List JackPatch)
      → IsCurrent mgr
      → Keeps (bind_client lib mgr answers client id ps)
  unfolding bind_client get_client_data Keeps KeepsMgr
  bind_client-Keeps mgr answers client id ps h = Keeps-bind (dup_patch_list lib ps) _ λ copies.
      Keeps-then
        (get_client_data lib (get_graph mgr answers) (record client {
          id = id;
          old_patches = ps;
          backup_patches = client.backup_patches ++ copies;
        }))
        _
        (data_from-Keeps (get_graph mgr answers) _ (get_graph mgr answers).graph
          (get_graph-IsCurrent mgr answers h))
        λ m calls k. k
