-- ===== src/Jackdbus/Current/Signals.antt =====
-- The handlers keep the version that the manager asks for.
use gnu_lash.Prelude.{
  ℕ, ◌==◌, refl, Bool, true, false, inl, inr, Option, none, some, List, [], ◌∷◌, Str, codes, str_eq,
  Bool-cases, if◌then◌else◌,
}
use gnu_lash.Uuid.{Uuid, UuidLib}
use gnu_lash.JackPatch.Types.{JackPatch}
use gnu_lash.Jackdbus.Types.{
  JackdbusMgr, JackClient, Answers, add_unknown, new_client, take_unknown, take_by_pid,
  find_by_jackdbus_id,
}
use gnu_lash.Jackdbus.Reconnect.{del_old_patch}
use gnu_lash.Jackdbus.Graph.{get_graph, get_unknown_clients}
use gnu_lash.Jackdbus.Signals.{
  Message, LashClients, Handled, Ends, clear, destroy_all, none_freed, client_found,
  on_client_appeared, on_client_disappeared, lash_client_found, on_lash_client, port_of,
  on_port_appeared, connected_at, is_internal, ports_connected, ports_disconnected, client_args,
  port_args, connection_args, owner_args,
}
use gnu_lash.Jackdbus.Handler.{
  named, with_args, jackdbus_handler, handle_patchbay_signal, handle_control_signal,
  handle_bus_signal, owner_of, owner_changed,
}
use gnu_lash.Jackdbus.Current.{
  IsCurrent, Keeps, KeepsMgr, kept, Keeps-bind, Keeps-then, KeepsMgr-then, SameGraph-IsCurrent,
  graph_free-IsCurrent, get_graph-IsCurrent, unknown_of-Keeps, bind_client-Keeps,
}

-- Without a version, the manager asks for any graph.
no_version-IsCurrent : (mgr : JackdbusMgr) → IsCurrent (record mgr { graph_version = 0 })
no_version-IsCurrent mgr = record { current = inl refl }

if-Keeps :
    {A : Type 0} (b : Bool) (x y : Option (JackdbusMgr × A))
    → Keeps x
    → Keeps y
    → Keeps (if b then x else y)
unfolding Keeps KeepsMgr
if-Keeps true x y h k = h
if-Keeps false x y h k = k

with_args-Keeps :
    {A : Type 0} (mgr : JackdbusMgr) (args : Option A) (handler : A → Handled)
    → IsCurrent mgr
    → ((a : A) → Keeps (handler a))
    → Keeps (with_args mgr args handler)
unfolding Keeps KeepsMgr
with_args-Keeps mgr none handler h k = h
with_args-Keeps mgr (some a) handler h k = k a

clear-Keeps : (mgr : JackdbusMgr) → KeepsMgr (clear mgr)
unfolding clear Keeps KeepsMgr
clear-Keeps mgr = elim (Bool-cases (none_freed mgr.unknown_clients)) [
  | inl e ↦
      rw e (graph_free-IsCurrent (record mgr { unknown_clients = destroy_all mgr.unknown_clients }))
  | inr e ↦ rw e tt
]

owner_changed-IsCurrent :
    (mgr : JackdbusMgr) (old_owner new_owner : Str)
    → IsCurrent mgr
    → IsCurrent (owner_changed mgr old_owner new_owner)
unfolding owner_changed
owner_changed-IsCurrent mgr [] new_owner h = no_version-IsCurrent mgr
owner_changed-IsCurrent mgr (c ∷ old) [] h = no_version-IsCurrent mgr
owner_changed-IsCurrent mgr (c ∷ old) (d ∷ new) h = h

owner_of-IsCurrent :
    (mgr : JackdbusMgr) (args : Option (Str × Str × Str))
    → IsCurrent mgr
    → IsCurrent (owner_of mgr args).0
unfolding owner_of
owner_of-IsCurrent mgr none h = h
owner_of-IsCurrent mgr (some (object_name, old_owner, new_owner)) h =
    elim (Bool-cases (str_eq object_name (codes "org.jackaudio.service"))) [
      | inl e ↦ rw e (owner_changed-IsCurrent mgr old_owner new_owner h)
      | inr e ↦ rw e h
    ]

handle_bus_signal-IsCurrent :
    (mgr : JackdbusMgr) (message : Message)
    → IsCurrent mgr
    → IsCurrent (handle_bus_signal mgr message).0
unfolding handle_bus_signal
handle_bus_signal-IsCurrent mgr message h =
    elim (Bool-cases (named message.member (codes "NameOwnerChanged"))) [
      | inl e ↦ rw e (owner_of-IsCurrent mgr (owner_args message.args) h)
      | inr e ↦ rw e h
    ]

module _ (lib : UuidLib) where
  client_found-Keeps :
      (mgr : JackdbusMgr) (answers : Answers) (client : JackClient)
      (lash : Option (Uuid × List JackPatch))
      → IsCurrent mgr
      → Keeps (client_found lib mgr answers client lash)
  unfolding client_found Keeps KeepsMgr
  client_found-Keeps mgr answers client none h =
      Keeps-bind (add_unknown client mgr.unknown_clients) _
        λ cells. SameGraph-IsCurrent mgr (record mgr { unknown_clients = cells }) (refl, refl) h
  client_found-Keeps mgr answers client (some (id, ps)) h =
      bind_client-Keeps lib mgr answers client id ps h

  on_client_appeared-Keeps :
      (mgr : JackdbusMgr) (answers : Answers) (lash : LashClients) (name : Str) (id : ℕ)
      → IsCurrent mgr
      → Keeps (on_client_appeared lib mgr answers lash name id)
  unfolding on_client_appeared Keeps KeepsMgr
  on_client_appeared-Keeps mgr answers lash name id h =
      let pid = answers.client_pid id in
      if-Keeps (pid == 0) (some (mgr, [])) _ h
        (client_found-Keeps mgr answers (new_client lib name id pid) (lash pid) h)

  on_client_disappeared-Keeps :
      (mgr : JackdbusMgr) (id : ℕ) → IsCurrent mgr → Keeps (on_client_disappeared lib mgr id)
  unfolding on_client_disappeared Keeps KeepsMgr
  on_client_disappeared-Keeps mgr id h =
      Keeps-bind (take_unknown id mgr.unknown_clients) _ λ (found, cells).
        SameGraph-IsCurrent mgr (record mgr { unknown_clients = cells }) (refl, refl) h

  pub on_lash_client-Keeps :
      (mgr : JackdbusMgr) (answers : Answers) (pid : ℕ) (id : Uuid) (ps : List JackPatch)
      → IsCurrent mgr
      → Keeps (on_lash_client lib mgr answers pid id ps)
  unfolding on_lash_client lash_client_found Keeps KeepsMgr
  on_lash_client-Keeps mgr answers pid id ps h =
      Keeps-bind (take_by_pid pid mgr.unknown_clients) _ λ (found, cells).
        let same =
          SameGraph-IsCurrent mgr (record mgr { unknown_clients = cells }) (refl, refl) h in
        elim found
          as (λ o.
            Keeps
              (lash_client_found lib (record mgr { unknown_clients = cells }) answers id ps o)) [
                | none ↦ same
                | some client ↦
                    bind_client-Keeps lib (record mgr { unknown_clients = cells }) answers client id
                      ps same
              ]

  on_port_appeared-Keeps :
      (mgr : JackdbusMgr) (id : ℕ) (name port : Str)
      → IsCurrent mgr
      → Keeps (on_port_appeared lib mgr id name port)
  unfolding on_port_appeared Keeps KeepsMgr
  on_port_appeared-Keeps mgr id name port h =
      Keeps-bind (port_of lib mgr (find_by_jackdbus_id mgr.clients id) name port) _ λ calls. h

  connected_at-Keeps :
      (mgr : JackdbusMgr) (ends : Ends) (id : ℕ) (client : Option JackClient)
      → IsCurrent mgr
      → Keeps (connected_at lib mgr ends id client)
  unfolding connected_at Keeps KeepsMgr
  connected_at-Keeps mgr ends id none h = h
  connected_at-Keeps mgr ends id (some client) h =
      Keeps-bind
        (del_old_patch lib mgr.clients client ends.id1 ends.name1 ends.port1 ends.id2 ends.name2
          ends.port2)
        _ λ client'. SameGraph-IsCurrent mgr _ (refl, refl) h

  ports_connected-Keeps :
      (mgr : JackdbusMgr) (ends : Ends) → IsCurrent mgr → Keeps (ports_connected lib mgr ends)
  unfolding ports_connected Keeps KeepsMgr
  ports_connected-Keeps mgr ends h =
      let client = find_by_jackdbus_id mgr.clients ends.id1 in
      Keeps-then (connected_at lib mgr ends ends.id1 client) _
        (connected_at-Keeps mgr ends ends.id1 client h)
        λ m outputs k. if-Keeps (is_internal lib ends client) (some (m, outputs)) _ k (
          Keeps-then (connected_at lib m ends ends.id2 (find_by_jackdbus_id m.clients ends.id2)) _
            (connected_at-Keeps m ends ends.id2 (find_by_jackdbus_id m.clients ends.id2) k)
            λ m' more k'. k')

  handle_patchbay_signal-Keeps :
      (mgr : JackdbusMgr) (answers : Answers) (lash : LashClients) (message : Message)
      → IsCurrent mgr
      → Keeps (handle_patchbay_signal lib mgr answers lash message)
  unfolding handle_patchbay_signal
  handle_patchbay_signal-Keeps mgr answers lash message h =
      if-Keeps _ _ _
        (with_args-Keeps mgr (client_args message.args) _ h
          λ (id, name). on_client_appeared-Keeps mgr answers lash name id h)
        (if-Keeps _ _ _
          (with_args-Keeps mgr (client_args message.args) _ h
            λ (id, name). on_client_disappeared-Keeps mgr id h)
          (if-Keeps _ _ _
            (with_args-Keeps mgr (port_args message.args) _ h
              λ (id, name, port). on_port_appeared-Keeps mgr id name port h)
            (if-Keeps _ _ _
              (with_args-Keeps mgr (connection_args message.args) _ h
                λ ends. ports_connected-Keeps mgr ends h)
              (if-Keeps _ _ _
                (with_args-Keeps mgr (connection_args message.args) _ h
                  λ ends. kept mgr (ports_disconnected lib mgr ends) h)
                (kept mgr [] h)))))

  handle_control_signal-Keeps :
      (mgr : JackdbusMgr) (answers : Answers) (member : Option Str)
      → IsCurrent mgr
      → Keeps (handle_control_signal lib mgr answers member)
  unfolding handle_control_signal get_unknown_clients
  handle_control_signal-Keeps mgr answers member h =
      let fresh = get_graph (record mgr { graph_version = 0 }) answers in
      if-Keeps _ _ _
        (KeepsMgr-then (get_unknown_clients lib fresh answers) _
          (unknown_of-Keeps lib fresh answers fresh.graph (
            get_graph-IsCurrent (record mgr { graph_version = 0 }) answers
              (no_version-IsCurrent mgr)))
          λ m k. kept m [] k)
        (if-Keeps _ _ _ (KeepsMgr-then (clear mgr) _ (clear-Keeps mgr) λ m k. kept m [] k)
          (kept mgr [] h))

  pub jackdbus_handler-Keeps :
      (mgr : JackdbusMgr) (answers : Answers) (lash : LashClients) (message : Message)
      → IsCurrent mgr
      → Keeps (jackdbus_handler lib mgr answers lash message)
  unfolding jackdbus_handler
  jackdbus_handler-Keeps mgr answers lash message h = if-Keeps _ _ _ (kept mgr ([], false) h) (
      if-Keeps _ _ _
        (Keeps-then (handle_patchbay_signal lib mgr answers lash message) _
          (handle_patchbay_signal-Keeps mgr answers lash message h)
          λ m outputs k. kept m (outputs, true) k)
        (if-Keeps _ _ _
          (Keeps-then (handle_control_signal lib mgr answers message.member) _
            (handle_control_signal-Keeps mgr answers message.member h)
            λ m outputs k. kept m (outputs, true) k)
          (if-Keeps _ _ _
            (kept (handle_bus_signal mgr message).0 ([], (handle_bus_signal mgr message).1)
              (handle_bus_signal-IsCurrent mgr message h))
            (kept mgr ([], false) h))))
