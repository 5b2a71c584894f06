-- ===== src/Jackdbus/Handler.antt =====
-- lashd_jackdbus_handler: which signal goes where.
use gnu_lash.Prelude.{
  Bool, true, false, not, ◌&&◌, Option, none, some, List, [], Str, codes, str_eq, ◌>>=◌, is_empty,
  if◌then◌else◌,
}
use gnu_lash.Uuid.{UuidLib}
use gnu_lash.Jackdbus.Types.{JackdbusMgr, Output, Answers}
use gnu_lash.Jackdbus.Graph.{get_graph, get_unknown_clients}
use gnu_lash.Jackdbus.Signals.{
  Message, LashClients, Handled, client_args, port_args, connection_args, owner_args, clear,
  on_client_appeared, on_client_disappeared, on_port_appeared, ports_connected, ports_disconnected,
}

-- A name that may be null is the text.
abbrev pub named : Option Str → Str → Bool
named none text = false
named (some name) text = str_eq name text

-- A signal whose arguments have other types changes nothing.
abbrev pub with_args : {A : Type 0} → JackdbusMgr → Option A → (A → Handled) → Handled
with_args mgr none handler = some (mgr, [])
with_args mgr (some args) handler = handler args

unfoldable pub handle_control_signal : UuidLib → JackdbusMgr → Answers → Option Str → Handled
unfolding get_graph get_unknown_clients clear
handle_control_signal lib mgr answers member =
    if named member (codes "ServerStarted")
    then (get_unknown_clients lib (get_graph (record mgr { graph_version = 0 }) answers) answers
        >>= λ mgr'. some (mgr', []))
    else if named member (codes "ServerStopped")
    then (clear mgr >>= λ mgr'. some (mgr', []))
    else some (mgr, [])

unfoldable pub handle_patchbay_signal :
    UuidLib → JackdbusMgr → Answers → LashClients → Message → Handled
unfolding client_args port_args connection_args on_client_appeared on_client_disappeared
    on_port_appeared ports_connected ports_disconnected
handle_patchbay_signal lib mgr answers lash message =
    if named message.member (codes "ClientAppeared")
    then with_args mgr (client_args message.args)
        (λ (id, name). on_client_appeared lib mgr answers lash name id)
    else if named message.member (codes "ClientDisappeared")
    then with_args mgr (client_args message.args) (λ (id, name). on_client_disappeared lib mgr id)
    else if named message.member (codes "PortAppeared")
    then with_args mgr (port_args message.args)
        (λ (id, name, port). on_port_appeared lib mgr id name port)
    else if named message.member (codes "PortsConnected")
    then with_args mgr (connection_args message.args) (ports_connected lib mgr)
    else if named message.member (codes "PortsDisconnected")
    then with_args mgr (connection_args message.args)
        (λ ends. some (mgr, ports_disconnected lib mgr ends))
    else some (mgr, [])

-- The manager behind a NameOwnerChanged of the service of jackdbus, with its old and its new owner.
unfoldable pub owner_changed : JackdbusMgr → Str → Str → JackdbusMgr
owner_changed mgr old_owner new_owner =
    if is_empty old_owner
    then record mgr { graph_version = 0 }
    else if is_empty new_owner
    then record mgr { graph_version = 0 }
    else mgr

unfoldable pub owner_of : JackdbusMgr → Option (Str × Str × Str) → JackdbusMgr × Bool
unfolding owner_changed
owner_of mgr none = (mgr, true)
owner_of mgr (some (object_name, old_owner, new_owner)) =
    if str_eq object_name (codes "org.jackaudio.service")
    then (owner_changed mgr old_owner new_owner, true)
    else (mgr, false)

-- The manager, and whether the signal is handled.
unfoldable pub handle_bus_signal : JackdbusMgr → Message → JackdbusMgr × Bool
unfolding owner_of owner_args
handle_bus_signal mgr message =
    if named message.member (codes "NameOwnerChanged")
    then owner_of mgr (owner_args message.args)
    else (mgr, false)

-- lashd_jackdbus_handler: the manager, what it does, and whether the message is handled.
unfoldable pub jackdbus_handler :
    UuidLib
    → JackdbusMgr
    → Answers
    → LashClients
    → Message
    → Option (JackdbusMgr × (List Output × Bool))
unfolding handle_patchbay_signal handle_control_signal handle_bus_signal
jackdbus_handler lib mgr answers lash message =
    let from_jack = named message.path (codes "/org/jackaudio/Controller") in
    if not message.is_signal
    then some (mgr, ([], false))
    else if from_jack && named message.interface (codes "org.jackaudio.JackPatchbay")
    then (handle_patchbay_signal lib mgr answers lash message >>= λ (mgr', outputs).
        some (mgr', (outputs, true)))
    else if from_jack && named message.interface (codes "org.jackaudio.JackControl")
    then (handle_control_signal lib mgr answers message.member >>= λ (mgr', outputs).
        some (mgr', (outputs, true)))
    else if named message.interface (codes "org.freedesktop.DBus")
    then (let (mgr', handled) = handle_bus_signal mgr message in some (mgr', ([], handled)))
    else some (mgr, ([], false))
