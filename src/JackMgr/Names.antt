-- ===== src/JackMgr/Names.antt =====
-- The names of clients and of the clients of foreign ports, and what the operations do to them.
use gnu_lash.Prelude.{
  ℕ, ◌==◌, ◌≡◌, ◌≢◌, refl, sym, ap, subst, ◌∙◌, Bool, true, false, inl, inr, some, List, [], ◌∷◌,
  ◌++◌, Str, str_eq, str_eq_iff, In, Bool-cases, Option-cases, some-injective, arith, if◌then◌else◌,
}
use gnu_lash.Uuid.{Uuid, UuidLib}
use gnu_lash.JackPatch.Manager.{MgrClient}
use gnu_lash.JackMgr.Types.{Jack, JackClient, JackFport, delete_client, dup_patch_list}
use gnu_lash.JackMgr.Resume.{resume_old}
use gnu_lash.JackMgr.Registry.{new_client_port, check_ports, notify_client, delete_fport}
use gnu_lash.JackMgr.Patches.{
  get_patches, get_patches_with_type, get_all_patches, check_foreign_ports, set_all, backup_all,
}

abbrev pub names : List JackClient → List Str
names [] = []
names (c ∷ cs) = c.name ∷ names cs

abbrev pub fport_names : List JackFport → List Str
fport_names [] = []
fport_names (f ∷ fs) = f.client_name ∷ fport_names fs

abbrev pub Disjoint : List Str → List Str → Type 0
Disjoint xs ys = (s : Str) → In s xs → ¬ (In s ys)

pub names-append : (cs ds : List JackClient) → names (cs ++ ds) ≡ names cs ++ names ds
names-append [] ds = refl
names-append (c ∷ cs) ds = ap (λ r. c.name ∷ r) (names-append cs ds)

pub fport_names-append :
    (fs gs : List JackFport) → fport_names (fs ++ gs) ≡ fport_names fs ++ fport_names gs
fport_names-append [] gs = refl
fport_names-append (f ∷ fs) gs = ap (λ r. f.client_name ∷ r) (fport_names-append fs gs)

pub In-delete_fport :
    (s : Str) (id : ℕ) (fs : List JackFport)
    → In s (fport_names (delete_fport id fs))
    → In s (fport_names fs)
unfolding delete_fport
In-delete_fport s id [] h = h
In-delete_fport s id (f ∷ fs) h = elim (Bool-cases (id == f.id)) [
  | inl e ↦ inr (subst (λ b. In s (fport_names (if b then fs else f ∷ delete_fport id fs))) e h)
  | inr e ↦ elim (subst (λ b. In s (fport_names (if b then fs else f ∷ delete_fport id fs))) e h) [
    | inl q ↦ inl q
    | inr m ↦ inr (In-delete_fport s id fs m)
  ]
]

module _ (lib : UuidLib) where
  pub In-delete_client :
      (s : Str) (cs : List JackClient) (id : Uuid)
      → In s (names (delete_client lib cs id))
      → In s (names cs)
  unfolding delete_client
  In-delete_client s [] id h = h
  In-delete_client s (c ∷ cs) id h = ground (arith, In-delete_client s cs id)

  pub names-backup_all :
      (cs ds : List JackClient) (known : List MgrClient)
      → backup_all lib cs known ≡ some ds
      → names ds ≡ names cs
  unfolding backup_all
  names-backup_all [] ds known e = ap names (sym (some-injective [] ds e))
  names-backup_all (c ∷ cs) ds known e = elim (Option-cases (dup_patch_list lib c.patches)) [
    | inl n ↦ ground arith
    | inr (copies, f) ↦ elim (Option-cases (set_all copies known)) [
      | inl n ↦ ground arith
      | inr (backup, g) ↦ elim (Option-cases (backup_all lib cs known)) [
        | inl n ↦ ground arith
        | inr (rest, h) ↦ ground (arith, names-backup_all cs rest known h)
      ]
    ]
  ]

module _ {World : Type 0} (lib : UuidLib) (jack : Jack World) where
  pub name-new_client_port :
      (w w' : World) (known : List MgrClient) (port : Str) (c c' : JackClient)
      → new_client_port lib jack w known port c ≡ some (w', c')
      → c'.name ≡ c.name
  unfolding new_client_port
  name-new_client_port w w' known port c c' e =
      elim (Option-cases (resume_old lib jack c.old_patches w known c.name port)) [
        | inl n ↦ ground arith
        | inr ((v, old), f) ↦ ground arith
      ]

  pub name-get_patches :
      (w : World) (c c' : JackClient) → get_patches lib jack w c ≡ some c' → c'.name ≡ c.name
  unfolding get_patches
  name-get_patches w c c' e = elim (Option-cases (get_patches_with_type lib jack w c.name false)) [
    | inl n ↦ ground arith
    | inr (outputs, f) ↦ elim (Option-cases (get_patches_with_type lib jack w c.name true)) [
      | inl n ↦ ground arith
      | inr (inputs, g) ↦ ground arith
    ]
  ]

  pub names-get_all_patches :
      (w : World) (cs ds : List JackClient)
      → get_all_patches lib jack w cs ≡ some ds
      → names ds ≡ names cs
  unfolding get_all_patches
  names-get_all_patches w [] ds e = ground arith
  names-get_all_patches w (c ∷ cs) ds e = elim (Option-cases (get_patches lib jack w c)) [
    | inl n ↦ ground arith
    | inr (c', f) ↦ elim (Option-cases (get_all_patches lib jack w cs)) [
      | inl n ↦ ground arith
      | inr (rest, h) ↦ ground (arith, name-get_patches w c c' f, names-get_all_patches w cs rest h)
    ]
  ]

  pub In-check_foreign_ports :
      (s : Str) (w : World) (fs : List JackFport)
      → In s (fport_names (check_foreign_ports lib jack w fs))
      → In s (fport_names fs)
  unfolding check_foreign_ports
  In-check_foreign_ports s w [] h = h
  In-check_foreign_ports s w (f ∷ fs) h = elim (Option-cases (jack.port_by_id w f.id)) [
    | inl n ↦ ground (arith, In-check_foreign_ports s w fs)
    | inr (name, n) ↦ ground (arith, In-check_foreign_ports s w fs)
  ]

  -- The first client with a name is told of the port, or no client has the name.
  pub names-notify_client :
      (cs cs' : List JackClient) (w w' : World) (known : List MgrClient) (name port : Str)
      (found : Bool)
      → notify_client lib jack cs w known name port ≡ some (found, w', cs')
      → (names cs' ≡ names cs) × (found ≡ false → ¬ (In name (names cs)))
  unfolding notify_client
  names-notify_client [] cs' w w' known name port found e = (ground arith, λ f m. m)
  names-notify_client (c ∷ cs) cs' w w' known name port found e =
      elim (Bool-cases (str_eq c.name name)) [
        | inl q ↦ elim (Option-cases (new_client_port lib jack w known port c)) [
          | inl n ↦ ground arith
          | inr ((v, c'), f) ↦ ground (arith, name-new_client_port w v known port c c' f)
        ]
        | inr q ↦ elim (Option-cases (notify_client lib jack cs w known name port)) [
          | inl n ↦ ground arith
          | inr ((b, v, rest), f) ↦
              let i = names-notify_client cs rest w v known name port b f in
              ground (arith, i, str_eq_iff c.name name)
        ]
      ]

  -- The ports that stay foreign are those of other clients.
  pub In-check_ports :
      (fs rest : List JackFport) (w w' : World) (known : List MgrClient) (c c' : JackClient)
      → check_ports lib jack fs w known c ≡ some (w', c', rest)
      → (c'.name ≡ c.name)
        × ((s : Str) → In s (fport_names rest) → In s (fport_names fs) × (s ≢ c.name))
  unfolding check_ports
  In-check_ports [] rest w w' known c c' e = (ground arith, λ s m. ground arith)
  In-check_ports (f ∷ fs) rest w w' known c c' e = elim (Bool-cases (str_eq c.name f.client_name)) [
    | inl q ↦ elim (Option-cases (new_client_port lib jack w known f.port_name c)) [
      | inl n ↦ absurd (ground arith)
      | inr ((v, d), g) ↦ elim (Option-cases (check_ports lib jack fs v known d)) [
        | inl n ↦ absurd (ground arith)
        | inr ((v', d', later), h) ↦
            let (same, only) = In-check_ports fs later v v' known d d' h in
            let name = name-new_client_port w v known f.port_name c d g in
            let r : rest ≡ later = ground arith in
            (
              ground (arith, same, name),
              λ s m.
                  let (k, differs) = only s (subst (λ l. In s (fport_names l)) r m) in
                  (inr k, λ e'. differs (e' ∙ sym name)),
            )
      ]
    ]
    | inr q ↦ elim (Option-cases (check_ports lib jack fs w known c)) [
      | inl n ↦ absurd (ground arith)
      | inr ((v', d', later), h) ↦
          let (same, only) = In-check_ports fs later w v' known c d' h in
          (ground (arith, same), λ s m. ground (arith, only s, str_eq_iff c.name f.client_name))
    ]
  ]
