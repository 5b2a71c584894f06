-- ===== src/Jackdbus/Current/Steps.antt =====
-- All that changes the manager keeps the version that it asks for.
use gnu_lash.Prelude.{
  ℕ, ◌==◌, ◌≡◌, ◌≢◌, refl, subst, Bool, true, false, inl, inr, Option, none, some, List, [], ◌++◌,
  arith, Bool-cases,
}
use gnu_lash.Uuid.{Uuid, UuidLib}
use gnu_lash.JackPatch.Types.{JackPatch}
use gnu_lash.JackMgr.Types.{dup_patch_list}
use gnu_lash.Jackdbus.Types.{
  JackdbusMgr, JackClient, Output, Answers, Graph, GraphPatch, find_by_id,
}
use gnu_lash.Jackdbus.Graph.{graph_free, save_graph, get_graph, get_unknown_clients, mgr_new}
use gnu_lash.Jackdbus.Patches.{
  patches_in, set_backup, finish_patches, patches_of, patches_from, get_client_patches,
  remove_found, remove_client,
}
use gnu_lash.Jackdbus.Signals.{Message, LashClients, on_lash_client}
use gnu_lash.Jackdbus.Handler.{jackdbus_handler}
use gnu_lash.Jackdbus.Current.Signals.{jackdbus_handler-Keeps, on_lash_client-Keeps}
use gnu_lash.Jackdbus.Current.{
  IsCurrent, Keeps, KeepsMgr, kept, Keeps-bind, SameGraph-IsCurrent, graph_free-IsCurrent,
  get_graph-IsCurrent, unknown_of-Keeps,
}

module _ (lib : UuidLib) where
  get_client_patches-Keeps :
      (mgr : JackdbusMgr) (id : Uuid) (dest : List JackPatch)
      → IsCurrent mgr
      → Keeps (get_client_patches lib mgr id dest)
  unfolding get_client_patches
  get_client_patches-Keeps mgr id dest h = from mgr.graph
    where
      finish : (found : List JackPatch) (ok : Bool) → Keeps (finish_patches lib mgr id found ok)
      finish found false = kept (graph_free mgr) (found, false) (graph_free-IsCurrent mgr)
      finish found true = Keeps-bind (dup_patch_list lib found) _ λ copies.
          kept (record mgr { clients = set_backup lib mgr.clients id copies }) (found, true)
            (SameGraph-IsCurrent mgr (record mgr { clients = set_backup lib mgr.clients id copies })
              (refl, refl) h)

      of :
          (patches : Option (List (Option GraphPatch))) (client : Option JackClient)
          → Keeps (patches_of lib mgr id dest patches client)
      of patches none = kept mgr (dest, false) h
      of none (some client) = finish dest false
      of (some patches) (some client) =
          Keeps-bind (patches_in lib patches mgr.clients client) _
            λ (found, ok). finish (dest ++ found) ok

      from : (graph : Option Graph) → Keeps (patches_from lib mgr id dest graph)
      from none = kept mgr (dest, false) h
      from (some graph) = of graph.patches (find_by_id lib mgr.clients id)

  -- What the daemon does with the manager: it handles a message, binds a new LASH client, asks for the
  -- graph, takes the patches of a client to save them, and removes a client.
  pub data Step (mgr mgr' : JackdbusMgr) : Type 0 where
    message :
        (answers : Answers) (lash : LashClients) (m : Message) (outcome : List Output × Bool)
        → jackdbus_handler lib mgr answers lash m ≡ some (mgr', outcome)
        → Step mgr mgr'
    lash_client :
        (answers : Answers) (pid : ℕ) (id : Uuid) (ps : List JackPatch) (outputs : List Output)
        → on_lash_client lib mgr answers pid id ps ≡ some (mgr', outputs)
        → Step mgr mgr'
    graph : (answers : Answers) → get_graph mgr answers ≡ mgr' → Step mgr mgr'
    patches :
        (id : Uuid) (dest : List JackPatch) (outcome : List JackPatch × Bool)
        → get_client_patches lib mgr id dest ≡ some (mgr', outcome)
        → Step mgr mgr'
    removal :
        (id : Uuid) (backup : Option (List JackPatch))
        → (remove_client lib mgr id backup).0 ≡ mgr'
        → Step mgr mgr'

  pub data Steps (mgr : JackdbusMgr) : JackdbusMgr → Type 0 where
    none_yet : Steps mgr mgr
    next : {m m' : JackdbusMgr} → Steps mgr m → Step m m' → Steps mgr m'

  remove_client-IsCurrent :
      (mgr : JackdbusMgr) (id : Uuid) (backup : Option (List JackPatch))
      → IsCurrent mgr
      → IsCurrent (remove_client lib mgr id backup).0
  unfolding remove_client
  remove_client-IsCurrent mgr id backup h = found (find_by_id lib mgr.clients id)
    where
      found : (client : Option JackClient) → IsCurrent (remove_found lib mgr id backup client).0
      found none = h
      found (some client) = SameGraph-IsCurrent mgr _ (refl, refl) h

  of_result :
      {A : Type 0} (o : Option (JackdbusMgr × A)) (m : JackdbusMgr) (a : A)
      → o ≡ some (m, a)
      → Keeps o
      → IsCurrent m
  unfolding Keeps
  of_result o m a e h = subst Keeps e h

  Step-IsCurrent : {m m' : JackdbusMgr} → Step m m' → IsCurrent m → IsCurrent m'
  Step-IsCurrent {m} {m'} (message answers lash x outcome e) h =
      of_result (jackdbus_handler lib m answers lash x) m' outcome e
        (jackdbus_handler-Keeps lib m answers lash x h)
  Step-IsCurrent {m} {m'} (lash_client answers pid id ps outputs e) h =
      of_result (on_lash_client lib m answers pid id ps) m' outputs e
        (on_lash_client-Keeps lib m answers pid id ps h)
  Step-IsCurrent {m} (graph answers e) h = subst IsCurrent e (get_graph-IsCurrent m answers h)
  Step-IsCurrent {m} {m'} (patches id dest outcome e) h =
      of_result (get_client_patches lib m id dest) m' outcome e
        (get_client_patches-Keeps m id dest h)
  Step-IsCurrent {m} (removal id backup e) h =
      subst IsCurrent e (remove_client-IsCurrent m id backup h)

  Steps-IsCurrent : {m m' : JackdbusMgr} → Steps m m' → IsCurrent m → IsCurrent m'
  Steps-IsCurrent none_yet h = h
  Steps-IsCurrent (next steps s) h = Step-IsCurrent s (Steps-IsCurrent steps h)

  mgr_new-IsCurrent : (answers : Answers) → KeepsMgr (mgr_new lib answers)
  unfolding mgr_new get_unknown_clients KeepsMgr
  mgr_new-IsCurrent answers = elim (Bool-cases answers.is_started) [
    | inr e ↦ rw e (record { current = inl refl })
    | inl e ↦
        let empty : JackdbusMgr = record {
          clients = [];
          unknown_clients = [];
          graph = none;
          graph_version = 0;
        } in
        let mgr = get_graph empty answers in
        rw e (
          unknown_of-Keeps lib mgr answers mgr.graph
            (get_graph-IsCurrent empty answers (record { current = inl refl })))
  ]

  new-IsCurrent : (answers : Answers) (m : JackdbusMgr) → mgr_new lib answers ≡ some m → IsCurrent m
  unfolding KeepsMgr
  new-IsCurrent answers m e = subst KeepsMgr e (mgr_new-IsCurrent answers)

  -- Whatever the daemon has done with its manager since lashd_jackdbus_mgr_new, if jackdbus answers a
  -- request for the graph with a version other than 0, then lashd_jackdbus_mgr_get_graph leaves the
  -- manager with a graph of this version: where it keeps the one it has, that is of the version.
  pub Steps-get_graph :
      (answers answers' : Answers) (m m' : JackdbusMgr) (g : Graph)
      → mgr_new lib answers ≡ some m
      → Steps m m'
      → answers'.graph m'.graph_version ≡ some g
      → g.version ≢ 0
      → (g' : Graph) × ((get_graph m' answers').graph ≡ some g') × (g'.version ≡ g.version)
  unfolding get_graph save_graph
  Steps-get_graph answers answers' m m' g made steps answered real =
      elim (Bool-cases (g.version == m'.graph_version)) [
        | inr e ↦ (g, rw answered (rw e refl), refl)
        | inl e ↦ elim (Steps-IsCurrent steps (new-IsCurrent answers m made)).current [
          | inl zero_version ↦ absurd (ground arith)
          | inr (g', has, version) ↦ (g', rw answered (rw e has), ground arith)
        ]
      ]
