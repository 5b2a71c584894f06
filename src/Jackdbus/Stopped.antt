-- ===== src/Jackdbus/Stopped.antt =====
-- What is left of the unknown clients when the JACK server stops.
use gnu_lash.Prelude.{
  ℕ, ◌==◌, ◌≡◌, ◌≢◌, refl, false, none, some, List, [], ◌∷◌, Str, codes, str_eq, arith,
}
use gnu_lash.Uuid.{UuidLib}
use gnu_lash.Jackdbus.Types.{
  JackdbusMgr, JackClient, Output, Answers, Cell, add_unknown, new_client,
}
use gnu_lash.Jackdbus.Signals.{
  LashClients, destroy_all, clear, on_client_appeared, on_client_disappeared,
}
use gnu_lash.Jackdbus.Handler.{handle_control_signal}

add_unknown-destroyed :
    (client : JackClient) (cell : Cell) (cells : List Cell)
    → add_unknown client (destroy_all (cell ∷ cells)) ≡ none
unfolding add_unknown destroy_all
add_unknown-destroyed client cell [] = refl
add_unknown-destroyed client cell (next ∷ cells) = rw (add_unknown-destroyed client next cells) refl

clear-some :
    (mgr mgr' : JackdbusMgr) (cells : List Cell)
    → mgr.unknown_clients ≡ cells
    → clear mgr ≡ some mgr'
    → mgr'.unknown_clients ≡ destroy_all cells
unfolding clear
clear-some mgr mgr' cells e h = ground arith

server_stopped-clear :
    (lib : UuidLib) (mgr mgr' : JackdbusMgr) (answers : Answers) (outputs : List Output)
    → handle_control_signal lib mgr answers (some (codes "ServerStopped")) ≡ some (mgr', outputs)
    → clear mgr ≡ some mgr'
unfolding handle_control_signal str_eq
server_stopped-clear lib mgr mgr' answers outputs h = ground arith

module _ (lib : UuidLib) (mgr mgr' : JackdbusMgr) (cell : Cell) (cells : List Cell)
    (unknown : mgr.unknown_clients ≡ cell ∷ cells) (answers : Answers) (outputs : List Output)
    (stopped : handle_control_signal lib mgr answers (some (codes "ServerStopped"))
      ≡ some (mgr', outputs)) where
  left : mgr'.unknown_clients ≡ destroy_all (cell ∷ cells)
  left =
      clear-some mgr mgr' (cell ∷ cells) unknown
        (server_stopped-clear lib mgr mgr' answers outputs stopped)

  disappeared-none : (id : ℕ) → on_client_disappeared lib mgr' id ≡ none
  unfolding on_client_disappeared destroy_all
  disappeared-none id = rw left refl

  clear-none : clear mgr' ≡ none
  unfolding clear destroy_all
  clear-none = rw left refl

  appeared-none :
      (answers' : Answers) (lash : LashClients) (name : Str) (id : ℕ)
      → answers'.client_pid id ≢ 0
      → lash (answers'.client_pid id) ≡ none
      → on_client_appeared lib mgr' answers' lash name id ≡ none
  unfolding on_client_appeared
  appeared-none answers' lash name id running foreign =
      let not_zero : (answers'.client_pid id == 0) ≡ false = ground arith in
      rw not_zero (
        rw foreign (
          rw left (
            rw (add_unknown-destroyed (new_client lib name id (answers'.client_pid id)) cell cells)
              refl)))

  -- If there is an unknown client when the JACK server stops, then its memory is freed and it stays in
  -- the list: the next JACK client that disappears, the next one that appears with a process that is
  -- none of a LASH client, and the next stop of the server each read freed memory.
  pub server_stopped-reads_freed :
      (answers' : Answers) (lash : LashClients) (name : Str) (id : ℕ)
      → answers'.client_pid id ≢ 0
      → lash (answers'.client_pid id) ≡ none
      → ((other : ℕ) → on_client_disappeared lib mgr' other ≡ none)
        × (on_client_appeared lib mgr' answers' lash name id ≡ none)
        × (handle_control_signal lib mgr' answers' (some (codes "ServerStopped")) ≡ none)
  unfolding handle_control_signal str_eq
  server_stopped-reads_freed answers' lash name id running foreign =
      (disappeared-none, appeared-none answers' lash name id running foreign, rw clear-none refl)
