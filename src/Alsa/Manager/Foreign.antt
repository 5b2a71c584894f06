-- ===== src/Alsa/Manager/Foreign.antt =====
-- A port is foreign only as long as the daemon does not know its client.
use gnu_lash.Prelude.{
  ℕ, ◌+◌, ltb, ◌==◌, ◌≡◌, ◌≢◌, refl, ap, subst, some-injective, ◌∙◌, inl, inr, Option, none, some,
  List, [], ◌∷◌, ◌++◌, In, In-append_cases, Bool-cases, arith,
}
use gnu_lash.Uuid.{Uuid, UuidLib}
use gnu_lash.Alsa.Seq.{SeqLib, Sequencer}
use gnu_lash.Alsa.Patch.Types.{AlsaPatch}
use gnu_lash.Alsa.Client.{AlsaClient, client_new}
use gnu_lash.Alsa.Manager.Types.{AlsaMgr, Fport, mgr_new, get_client, delete_client}
use gnu_lash.Alsa.Manager.Resume.{new_client_port, resume_client}
use gnu_lash.Alsa.Manager.Registry.{
  add_client, remove_client, new_port, port_removed, check_fports, check_client_fports,
  register_port, check_found, remove_found,
}
use gnu_lash.Alsa.Manager.Patches.{
  redo_all, redo_patches, backup_client, backup_patches, backup_timeout,
}
use gnu_lash.Alsa.Manager.Events.{
  SeqEvent, port_start, port_exit, port_subscribed, port_unsubscribed, unhandled, failed,
  receive_event, Step, event, add, remove, outside, Steps, done, next,
}
use gnu_lash.Alsa.Manager.Numbers.{
  fport_numbers, Disjoint, numbers, fport_numbers-append, In-delete_fport, numbers-append,
  numbers-map, In-find?, numbers-put_client, In-delete_client, get_client-append,
}

module _ {Sub World : Type 0} (lib : UuidLib) (seq : SeqLib Sub)
    (kernel : Sequencer Sub World) where
  -- No client of the manager has the number of a foreign port.
  abbrev pub IsForeign : AlsaMgr Sub World → Type 0
  IsForeign mgr = Disjoint (fport_numbers mgr.foreign_ports) (numbers mgr.clients)

  numbers-resume_client :
      (mgr : AlsaMgr Sub World) (id : Uuid) (port : ℕ) (found : Option (AlsaClient Sub))
      → let mgr' = resume_client lib seq kernel mgr id port found in
        (numbers mgr'.clients ≡ numbers mgr.clients) × (mgr'.foreign_ports ≡ mgr.foreign_ports)
  unfolding resume_client
  numbers-resume_client mgr id port none = (refl, refl)
  numbers-resume_client mgr id port (some client) =
      (numbers-put_client lib mgr.clients id _ (λ c. refl), refl)

  numbers-new_client_port :
      (mgr : AlsaMgr Sub World) (id : Uuid) (port : ℕ)
      → let mgr' = new_client_port lib seq kernel mgr id port in
        (numbers mgr'.clients ≡ numbers mgr.clients) × (mgr'.foreign_ports ≡ mgr.foreign_ports)
  unfolding new_client_port
  numbers-new_client_port mgr id port =
      numbers-resume_client mgr id port (get_client lib mgr.clients id)

  -- The ports that stay foreign are those of other clients.
  In-check_fports :
      (mgr : AlsaMgr Sub World) (id : Uuid) (alsa_id : ℕ) (fs : List Fport)
      → let (mgr', rest) = check_fports lib seq kernel mgr id alsa_id fs in
        (numbers mgr'.clients ≡ numbers mgr.clients)
        × ((n : ℕ) → In n (fport_numbers rest) → In n (fport_numbers fs) × (n ≢ alsa_id))
  unfolding check_fports
  In-check_fports mgr id alsa_id [] = (refl, λ n h. elim h [ ])
  In-check_fports mgr id alsa_id (f ∷ fs) = elim (Bool-cases (f.client == alsa_id)) [
    | inl e ↦
        let mgr' = new_client_port lib seq kernel mgr id f.port in
        let (same, rest) = In-check_fports mgr' id alsa_id fs in
        rw e (
          same ∙ (numbers-new_client_port mgr id f.port).0,
          λ n h. (inr (rest n h).0, (rest n h).1),
        )
    | inr e ↦
        let (same, rest) = In-check_fports mgr id alsa_id fs in
        rw e (
          same,
          λ n h. elim h [
            | inl first ↦ (inl first, ground arith)
            | inr later ↦ (inr (rest n later).0, (rest n later).1)
          ],
        )
  ]

  register_port-IsForeign :
      (mgr : AlsaMgr Sub World) (client port : ℕ) (found : Option (AlsaClient Sub))
      → (found ≡ none → ¬ (In client (numbers mgr.clients)))
      → IsForeign mgr
      → IsForeign (register_port lib seq kernel mgr client port found)
  unfolding register_port
  register_port-IsForeign mgr client port (some c) unknown h =
      let (same, ports) = numbers-new_client_port mgr c.id port in λ n. rw (same, ports) (h n)
  register_port-IsForeign mgr client port none unknown h = λ n.
      rw (fport_numbers-append mgr.foreign_ports _) (λ m.
        elim (In-append_cases n (fport_numbers mgr.foreign_ports) (client ∷ []) m) [
          | inl old ↦ h n old
          | inr (inl e) ↦ rw e (unknown refl)
          | inr (inr x) ↦ elim x [ ]
        ])

  check_found-IsForeign :
      (mgr : AlsaMgr Sub World) (id : Uuid) (client : AlsaClient Sub) (ns : List ℕ)
      → numbers mgr.clients ≡ ns ++ (client.client_id ∷ [])
      → Disjoint (fport_numbers mgr.foreign_ports) ns
      → IsForeign (check_found lib seq kernel mgr id (some client))
  unfolding check_found
  check_found-IsForeign mgr id client ns e h =
      let (same, rest) = In-check_fports mgr id client.client_id mgr.foreign_ports in
      λ n.
        rw (same, e)
          (λ m k. elim (In-append_cases n ns (client.client_id ∷ []) k) [
            | inl old ↦ h n (rest n m).0 old
            | inr (inl own) ↦ (rest n m).1 own
            | inr (inr x) ↦ elim x [ ]
          ])

  new_port-IsForeign :
      (mgr : AlsaMgr Sub World) (client port : ℕ)
      → IsForeign mgr
      → IsForeign (new_port lib seq kernel mgr client port)
  unfolding new_port
  new_port-IsForeign mgr client port =
      register_port-IsForeign mgr client port _ (In-find? client mgr.clients)

  add_client-IsForeign :
      (mgr : AlsaMgr Sub World) (id : Uuid) (number : ℕ) (patches : List (AlsaPatch Sub))
      → get_client lib mgr.clients id ≡ none
      → IsForeign mgr
      → IsForeign (add_client lib seq kernel mgr id number patches)
  unfolding add_client check_client_fports
  add_client-IsForeign mgr id number patches e h =
      let client = record (client_new lib seq) {
        client_id = number;
        id = id;
        old_patches = patches;
      } in
      rw (get_client-append lib mgr.clients client e) (
        check_found-IsForeign _ id client (numbers mgr.clients)
          (numbers-append mgr.clients (client ∷ [])) h)

  left_behind :
      (mgr mgr' : AlsaMgr Sub World) (id : Uuid) (backup backup' : Option (List (AlsaPatch Sub)))
      (client : AlsaClient Sub)
      → remove_found lib mgr id backup (some client) ≡ some (mgr', backup')
      → record mgr { clients = delete_client lib mgr.clients id } ≡ mgr'
  unfolding remove_found
  left_behind mgr mgr' id none backup' client e =
      ap (λ r. r.0) (some-injective (_, none) (mgr', backup') e)
  left_behind mgr mgr' id (some patches) backup' client e = ground arith

  remove_found-IsForeign :
      (mgr mgr' : AlsaMgr Sub World) (id : Uuid) (backup backup' : Option (List (AlsaPatch Sub)))
      (found : Option (AlsaClient Sub))
      → remove_found lib mgr id backup found ≡ some (mgr', backup')
      → IsForeign mgr
      → IsForeign mgr'
  unfolding remove_found
  remove_found-IsForeign mgr mgr' id backup backup' none e h =
      subst IsForeign (ap (λ r. r.0) (some-injective (mgr, backup) (mgr', backup') e)) h
  remove_found-IsForeign mgr mgr' id backup backup' (some client) e h =
      subst IsForeign (left_behind mgr mgr' id backup backup' client e)
        (λ n m k. h n m (In-delete_client lib n mgr.clients id k))

  numbers-redo_all :
      (cs : List (AlsaClient Sub)) (w : World) (scratch : Sub)
      → numbers (redo_all lib seq kernel w scratch cs).1 ≡ numbers cs
  unfolding redo_all
  numbers-redo_all [] w scratch = refl
  numbers-redo_all (c ∷ cs) w scratch = ap (λ r. c.client_id ∷ r) (numbers-redo_all cs w _)

  backup_patches-IsForeign :
      (mgr : AlsaMgr Sub World) (now : ℕ)
      → IsForeign mgr
      → IsForeign (backup_patches lib seq mgr now)
  unfolding backup_patches
  backup_patches-IsForeign mgr now h =
      elim (Bool-cases (ltb now (mgr.last_backup + backup_timeout))) [
        | inl e ↦ rw e h
        | inr e ↦ rw e (λ n.
            rw
              (numbers-map (backup_client lib seq mgr.clients) (λ c. unfold backup_client in refl)
                mgr.clients)
              (h n))
      ]

  receive_event-IsForeign :
      (mgr : AlsaMgr Sub World) (e : SeqEvent) (now : ℕ)
      → IsForeign mgr
      → IsForeign (receive_event lib seq kernel mgr e now)
  unfolding receive_event port_removed redo_patches
  receive_event-IsForeign mgr failed now h = h
  receive_event-IsForeign mgr (unhandled type) now h = h
  receive_event-IsForeign mgr (port_start client port) now h =
      backup_patches-IsForeign _ now (new_port-IsForeign mgr client port h)
  receive_event-IsForeign mgr (port_exit client port) now h =
      backup_patches-IsForeign _ now
        (λ n m. h n (In-delete_fport n client port mgr.foreign_ports m))
  receive_event-IsForeign mgr port_subscribed now h =
      backup_patches-IsForeign _ now
        (λ n. rw (numbers-redo_all mgr.clients mgr.sequencer mgr.scratch) (h n))
  receive_event-IsForeign mgr port_unsubscribed now h =
      backup_patches-IsForeign _ now
        (λ n. rw (numbers-redo_all mgr.clients mgr.sequencer mgr.scratch) (h n))

  Step-IsForeign : (a b : AlsaMgr Sub World) → Step lib seq kernel a b → IsForeign a → IsForeign b
  unfolding remove_client
  Step-IsForeign a b (event e now) h = receive_event-IsForeign a e now h
  Step-IsForeign a b (add id number patches e) h = add_client-IsForeign a id number patches e h
  Step-IsForeign a b (remove id backup backup' e) h =
      remove_found-IsForeign a _ id backup backup' _ e h
  Step-IsForeign a b (outside w) h = h

  Steps-IsForeign : (a b : AlsaMgr Sub World) → Steps lib seq kernel a b → IsForeign a → IsForeign b
  Steps-IsForeign a b done h = h
  Steps-IsForeign a b (next s t) h = Steps-IsForeign _ b t (Step-IsForeign a _ s h)

  -- A port is foreign only while the daemon does not know its client: whatever sequence of events,
  -- of new clients with IDs of their own, and of lost clients a new manager goes through, in which every
  -- call returns, no foreign port has the number of a client.
  pub mgr_new-IsForeign :
      (w : World) (scratch : Sub) (b : AlsaMgr Sub World)
      → Steps lib seq kernel (mgr_new w scratch) b
      → IsForeign b
  mgr_new-IsForeign w scratch b steps =
      Steps-IsForeign (mgr_new w scratch) b steps (unfold mgr_new in λ n m k. k)
