-- ===== src/JackMgr/Foreign.antt =====
-- A port is foreign only as long as the daemon does not know its client.
use gnu_lash.Prelude.{
  ℕ, ◌+◌, ltb, ◌≡◌, refl, sym, ap, subst, ◌∙◌, true, false, inl, inr, Option, none, some, List, [],
  ◌∷◌, ◌++◌, Str, In, In-append_cases, Bool-cases, Option-cases, some-injective, arith, ◌>>=◌,
}
use gnu_lash.Uuid.{Uuid, UuidLib}
use gnu_lash.JackPatch.Types.{JackPatch}
use gnu_lash.JackPatch.Manager.{split_port}
use gnu_lash.JackMgr.Types.{
  Jack, JackMgr, JackClient, ends, added_client, mgr_new, fport_new, delete_client,
}
use gnu_lash.JackMgr.Registry.{
  check_ports, add_client, notify_client, register_port, port_named, port_notification,
  remove_found, remove_client, remove_foreign_port,
}
use gnu_lash.JackMgr.Patches.{
  get_all_patches, check_foreign_ports, graph_reorder_notification, backup_all, backup_patches,
  backup_interval,
}
use gnu_lash.JackMgr.Halves.{client_name-fport_new}
use gnu_lash.JackMgr.Messages.{Notification, port_added, port_lost, reordered}
use gnu_lash.JackMgr.Events.{
  notify, callback_round, Step, round, add, remove, outside, Steps, done, next,
}
use gnu_lash.JackMgr.Names.{
  names, fport_names, Disjoint, names-append, fport_names-append, In-delete_fport, In-delete_client,
  names-backup_all, names-get_all_patches, In-check_foreign_ports, names-notify_client,
  In-check_ports,
}

module _ {World : Type 0} (lib : UuidLib) (jack : Jack World) where
  -- No client of the manager has the name of the client of a foreign port.
  abbrev pub IsForeign : JackMgr World → Type 0
  IsForeign mgr = Disjoint (fport_names mgr.foreign_ports) (names mgr.clients)

  add_client-IsForeign :
      (mgr mgr' : JackMgr World) (id : Uuid) (name : Str) (patches : List JackPatch)
      → add_client lib jack mgr id name patches ≡ some mgr'
      → IsForeign mgr
      → IsForeign mgr'
  unfolding add_client added_client
  add_client-IsForeign mgr mgr' id name patches e h =
      let client = added_client name id patches in
      let known = ends (mgr.clients ++ (client ∷ [])) in
      elim (Option-cases (check_ports lib jack mgr.foreign_ports mgr.server known client)) [
        | inl n ↦ absurd (ground arith)
        | inr ((w, client', rest), f) ↦
            let (same, only) =
              In-check_ports lib jack mgr.foreign_ports rest mgr.server w known client client' f in
            let clients : mgr'.clients ≡ mgr.clients ++ (client' ∷ []) = ground arith in
            let ports : mgr'.foreign_ports ≡ rest = ground arith in
            λ s.
              rw (clients, ports, names-append mgr.clients (client' ∷ []))
                (λ m k. elim (In-append_cases s (names mgr.clients) (client'.name ∷ []) k) [
                  | inl old ↦ h s (only s m).0 old
                  | inr (inl own) ↦ (only s m).1 (own ∙ same)
                  | inr (inr x) ↦ elim x [ ]
                ])
      ]

  register_port-IsForeign :
      (mgr mgr' : JackMgr World) (id : ℕ) (name client port : Str)
      → split_port name ≡ some (client, port)
      → register_port lib jack mgr id name (some (client, port)) ≡ some mgr'
      → IsForeign mgr
      → IsForeign mgr'
  unfolding register_port
  register_port-IsForeign mgr mgr' id name client port split e h =
      let known = ends mgr.clients in
      elim (Option-cases (notify_client lib jack mgr.clients mgr.server known client port)) [
        | inl n ↦ absurd (ground arith)
        | inr ((true, w, clients), f) ↦
            let (same, _) =
              names-notify_client lib jack mgr.clients clients mgr.server w known client port true
                f in
            let c : mgr'.clients ≡ clients = ground arith in
            let p : mgr'.foreign_ports ≡ mgr.foreign_ports = ground arith in
            λ s. rw (c, p, same) (h s)
        | inr ((false, w, clients), f) ↦
            let (_, unknown) =
              names-notify_client lib jack mgr.clients clients mgr.server w known client port false
                f in
            let c : mgr'.clients ≡ mgr.clients = ground arith in
            let p : mgr'.foreign_ports ≡ mgr.foreign_ports ++ (fport_new id name ∷ []) =
              ground arith in
            let new = client_name-fport_new id name client port split in
            λ s.
              rw (c, p, fport_names-append mgr.foreign_ports (fport_new id name ∷ []))
                (λ m k.
                  elim (In-append_cases s (fport_names mgr.foreign_ports)
                    ((fport_new id name).client_name ∷ []) m) [
                      | inl old ↦ h s old k
                      | inr (inl own) ↦
                          unknown refl (subst (λ t. In t (names mgr.clients)) (own ∙ new) k)
                      | inr (inr x) ↦ elim x [ ]
                    ])
      ]

  port_named-IsForeign :
      (mgr mgr' : JackMgr World) (id : ℕ) (name : Option Str)
      → port_named lib jack mgr id name ≡ some mgr'
      → IsForeign mgr
      → IsForeign mgr'
  unfolding port_named register_port
  port_named-IsForeign mgr mgr' id none e h = subst IsForeign (some-injective mgr mgr' e) h
  port_named-IsForeign mgr mgr' id (some name) e h = elim (Option-cases (split_port name)) [
    | inl n ↦
        let same = ap (register_port lib jack mgr id name) (sym n) ∙ e in
        subst IsForeign (some-injective mgr mgr' same) h
    | inr ((client, port), f) ↦
        let found = ap (register_port lib jack mgr id name) (sym f) ∙ e in
        register_port-IsForeign mgr mgr' id name client port f found h
  ]

  -- The manager's fields are replaced by lists with the same names, or with fewer ports.
  fewer-IsForeign :
      (mgr mgr' : JackMgr World)
      → names mgr'.clients ≡ names mgr.clients
      → ((s : Str) → In s (fport_names mgr'.foreign_ports) → In s (fport_names mgr.foreign_ports))
      → IsForeign mgr
      → IsForeign mgr'
  fewer-IsForeign mgr mgr' same fewer h = λ s m k. h s (fewer s m) (subst (λ l. In s l) same k)

  reordered-IsForeign :
      (mgr mgr' : JackMgr World)
      → graph_reorder_notification lib jack mgr ≡ some mgr'
      → IsForeign mgr
      → IsForeign mgr'
  unfolding graph_reorder_notification
  reordered-IsForeign mgr mgr' e =
      elim (Option-cases (get_all_patches lib jack mgr.server mgr.clients)) [
        | inl n ↦ absurd (ground arith)
        | inr (clients, f) ↦
            let c : mgr'.clients ≡ clients = ground arith in
            let p : mgr'.foreign_ports ≡ check_foreign_ports lib jack mgr.server mgr.foreign_ports =
              ground arith in
            fewer-IsForeign mgr mgr'
              (ap names c ∙ names-get_all_patches lib jack mgr.server mgr.clients clients f)
              (λ s. rw p (In-check_foreign_ports lib jack s mgr.server mgr.foreign_ports))
      ]

  backup_patches-IsForeign :
      (mgr mgr' : JackMgr World) (now : ℕ)
      → backup_patches lib jack mgr now ≡ some mgr'
      → IsForeign mgr
      → IsForeign mgr'
  unfolding backup_patches
  backup_patches-IsForeign mgr mgr' now e =
      elim (Bool-cases (ltb now (mgr.last_backup + backup_interval))) [
        | inl q ↦ let same : mgr ≡ mgr' = ground arith in subst IsForeign same
        | inr q ↦ elim (Option-cases (backup_all lib mgr.clients (ends mgr.clients))) [
          | inl n ↦ absurd (ground arith)
          | inr (clients, f) ↦
              let c : mgr'.clients ≡ clients = ground arith in
              let p : mgr'.foreign_ports ≡ mgr.foreign_ports = ground arith in
              fewer-IsForeign mgr mgr'
                (ap names c ∙ names-backup_all lib mgr.clients clients (ends mgr.clients) f)
                (λ s. rw p (λ m. m))
        ]
      ]

  notify-IsForeign :
      (mgr mgr' : JackMgr World) (n : Notification)
      → notify lib jack mgr n ≡ some mgr'
      → IsForeign mgr
      → IsForeign mgr'
  unfolding notify port_notification remove_foreign_port
  notify-IsForeign mgr mgr' (port_added id) e h =
      port_named-IsForeign mgr mgr' id (jack.port_by_id mgr.server id) e h
  notify-IsForeign mgr mgr' (port_lost id) e h = subst IsForeign (some-injective _ mgr' e) (
      fewer-IsForeign mgr (remove_foreign_port mgr id) refl
        (λ s. In-delete_fport s id mgr.foreign_ports) h)
  notify-IsForeign mgr mgr' reordered e h = reordered-IsForeign mgr mgr' e h

  left_behind :
      (mgr mgr' : JackMgr World) (id : Uuid) (backup backup' : Option (List JackPatch))
      (client : JackClient)
      → remove_found lib mgr id backup (some client) ≡ some (mgr', backup')
      → record mgr { clients = delete_client lib mgr.clients id } ≡ mgr'
  unfolding remove_found
  left_behind mgr mgr' id none backup' client e =
      ap (λ r. r.0) (some-injective (_, none) (mgr', backup') e)
  left_behind mgr mgr' id (some patches) backup' client e = ground arith

  remove_found-IsForeign :
      (mgr mgr' : JackMgr World) (id : Uuid) (backup backup' : Option (List JackPatch))
      (found : Option JackClient)
      → remove_found lib mgr id backup found ≡ some (mgr', backup')
      → IsForeign mgr
      → IsForeign mgr'
  unfolding remove_found
  remove_found-IsForeign mgr mgr' id backup backup' none e h =
      subst IsForeign (ap (λ r. r.0) (some-injective (mgr, backup) (mgr', backup') e)) h
  remove_found-IsForeign mgr mgr' id backup backup' (some client) e h =
      let left = record mgr { clients = delete_client lib mgr.clients id } in
      let same : left ≡ mgr' = left_behind mgr mgr' id backup backup' client e in
      subst IsForeign same (λ s m k. h s m (In-delete_client lib s mgr.clients id k))

  round-IsForeign :
      (a b : JackMgr World) (n : Option Notification) (now : ℕ)
      → callback_round lib jack a n now ≡ some b
      → IsForeign a
      → IsForeign b
  unfolding callback_round
  round-IsForeign a b none now e h = backup_patches-IsForeign a b now e h
  round-IsForeign a b (some n) now e h = elim (Option-cases (notify lib jack a n)) [
    | inl m ↦ absurd (ground arith)
    | inr (c, f) ↦
        let g : backup_patches lib jack c now ≡ some b =
          ap (λ (o : Option (JackMgr World)). o >>= λ x. backup_patches lib jack x now) (sym f)
          ∙ e in
        backup_patches-IsForeign c b now g (notify-IsForeign a c n f h)
  ]

  Step-IsForeign : (a b : JackMgr World) → Step lib jack a b → IsForeign a → IsForeign b
  unfolding remove_client
  Step-IsForeign a b (round n now e) h = round-IsForeign a b n now e h
  Step-IsForeign a b (add id name patches e) h = add_client-IsForeign a b id name patches e h
  Step-IsForeign a b (remove id backup backup' e) h =
      remove_found-IsForeign a b id backup backup' _ e h
  Step-IsForeign a b (outside w e) h = subst IsForeign e h

  Steps-IsForeign : (a b : JackMgr World) → Steps lib jack a b → IsForeign a → IsForeign b
  Steps-IsForeign a b done h = h
  Steps-IsForeign a b (next s t) h = Steps-IsForeign _ b t (Step-IsForeign a _ s h)

  -- A JACK port is foreign only while the daemon does not know its client: whatever sequence of
  -- messages from JACK, of new clients and of lost ones a new manager goes through, in which every call
  -- returns, no foreign port has a client with the name of one that the manager has.
  pub Steps-mgr_new-IsForeign :
      (w : World) (b : JackMgr World) → Steps lib jack (mgr_new w) b → IsForeign b
  Steps-mgr_new-IsForeign w b steps =
      Steps-IsForeign (mgr_new w) b steps (unfold mgr_new in λ s m k. k)
