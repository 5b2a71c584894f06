-- ===== src/Jackdbus/Cycle.antt =====
-- When a port of a client appears, its old patches at the port are asked for.
use gnu_lash.Prelude.{
  ℕ, subst, ap, ◌∙◌, ◌≡◌, ◌≢◌, none, ◌↔◌, ◌⊎◌, refl, Bool, true, false, inl, inr, Option, some,
  List, [], ◌∷◌, ◌++◌, Str, str_eq, str_eq_iff, arith, Bool-cases, In, In-append_left,
  In-append_right, In-append_cases, if◌then◌else◌,
}
use gnu_lash.Uuid.{Uuid, UuidLib}
use gnu_lash.JackPatch.Types.{JackPatch}
use gnu_lash.Jackdbus.Types.{
  JackClient, JackdbusMgr, Output, connect, find_by_jackdbus_id, find_by_id,
}
use gnu_lash.Jackdbus.Signals.{port_of, on_port_appeared}
use gnu_lash.Jackdbus.Reconnect.{
  same_field, name_of, is_own_end, end_name, connect_from, connect_to, reconnect, new_client_port,
}

-- The ports of the patches are not null.
abbrev pub HavePorts : List JackPatch → Type 0
HavePorts [] = Unit {0}
HavePorts (p ∷ ps) =
    ((s : Str) × (p.src_port ≡ some s)) × ((d : Str) × (p.dest_port ≡ some d)) × HavePorts ps

-- The name is that of the first client with the ID, or empty if there is none.
abbrev pub IsNameOf : List JackClient → Uuid → Str → Type 0
IsNameOf [] id name = name ≡ []
IsNameOf (c ∷ cs) id name = ((c.id ≡ id) × (name ≡ c.name)) ⊎ (c.id ≢ id) × IsNameOf cs id name

name_of-IsNameOf :
    (lib : UuidLib) (clients : List JackClient) (id : Uuid) (name : Str)
    → IsNameOf clients id name ↔ (name ≡ name_of (find_by_id lib clients id))
unfolding name_of find_by_id
name_of-IsNameOf lib [] id name = (λ e. e, λ e. e)
name_of-IsNameOf lib (c ∷ cs) id name =
    ground (arith, lib.same_iff id c.id, name_of-IsNameOf lib cs id name)

module _ (lib : UuidLib) (clients : List JackClient) (id : Uuid) (client_name port_name : Str) where
  -- The source of the patch is the port, or its destination is.
  abbrev pub IsSource : JackPatch → Type 0
  IsSource p = (p.src_client_id ≡ id) × (p.src_port ≡ some port_name)

  abbrev pub IsDest : JackPatch → Type 0
  IsDest p = (p.dest_client_id ≡ id) × (p.dest_port ≡ some port_name)

  -- The name of an end of a patch: the one that it has; else that of the first client with its ID; else,
  -- if no client has the ID, the empty string.
  abbrev pub IsNamed : Option Str → Uuid → Str → Type 0
  IsNamed (some own) end_id name = name ≡ own
  IsNamed none end_id name = IsNameOf clients end_id name

  -- The call connects the port with the other end of the patch.
  abbrev pub Restores : JackPatch → Output → Type 0
  Restores p call =
      (IsSource p
        × ((d : Str) × (p.dest_port ≡ some d)
            × ((other : Str) × IsNamed p.dest_client p.dest_client_id other
                × (call ≡ connect client_name port_name other d))))
      ⊎ ((¬ IsSource p)
          × IsDest p
          × ((s : Str) × (p.src_port ≡ some s)
              × ((other : Str) × IsNamed p.src_client p.src_client_id other
                  × (call ≡ connect other s client_name port_name))))

  -- The same by the name that the code finds.
  abbrev Rejoins : JackPatch → Output → Type 0
  Rejoins p call =
      (IsSource p
        × ((d : Str) × (p.dest_port ≡ some d)
            × (call
                ≡ connect client_name port_name
                    (end_name lib clients p.dest_client p.dest_client_id) d)))
      ⊎ ((¬ IsSource p)
          × IsDest p
          × ((s : Str) × (p.src_port ≡ some s)
              × (call
                  ≡ connect (end_name lib clients p.src_client p.src_client_id) s client_name
                      port_name)))

  end_name-IsNamed :
      (own : Option Str) (end_id : Uuid) (name : Str)
      → IsNamed own end_id name ↔ (name ≡ end_name lib clients own end_id)
  unfolding end_name
  end_name-IsNamed (some own) end_id name = (λ e. e, λ e. e)
  end_name-IsNamed none end_id name = name_of-IsNameOf lib clients end_id name

  Rejoins-Restores : (p : JackPatch) (call : Output) → Rejoins p call ↔ Restores p call
  Rejoins-Restores p call = (
    λ r. elim r [
      | inl (i, (d, e, q)) ↦
          inl (i, (d, e, (_, (end_name-IsNamed p.dest_client p.dest_client_id _).1 refl, q)))
      | inr (n, i, (s, e, q)) ↦
          inr (n, i, (s, e, (_, (end_name-IsNamed p.src_client p.src_client_id _).1 refl, q)))
    ],
    λ r. elim r [
      | inl (i, (d, e, (other, m, q))) ↦
          let same = (end_name-IsNamed p.dest_client p.dest_client_id other).0 m in
          inl (i, (d, e, q ∙ ap (λ o. connect client_name port_name o d) same))
      | inr (n, i, (s, e, (other, m, q))) ↦
          let same = (end_name-IsNamed p.src_client p.src_client_id other).0 m in
          inr (n, i, (s, e, q ∙ ap (λ o. connect o s client_name port_name) same))
    ],
  )

  -- The calls are those that restore the patch.
  abbrev AreFor : JackPatch → List Output → Type 0
  AreFor p calls = (call : Output) → In call calls ↔ Rejoins p call

  abbrev is_at : Uuid → Str → Bool
  is_at patch_id port = if lib.same patch_id id then str_eq port port_name else false

  is_own_end-is_at :
      (patch_id : Uuid) (o : Option Str) (port : Str)
      → o ≡ some port
      → is_own_end lib id patch_id o port_name ≡ some (is_at patch_id port)
  unfolding is_own_end same_field
  is_own_end-is_at patch_id o port e = ground arith

  is_at_iff :
      (patch_id : Uuid) (o : Option Str) (port : Str)
      → o ≡ some port
      → (is_at patch_id port ≡ true) ↔ ((patch_id ≡ id) × (o ≡ some port_name))
  is_at_iff patch_id o port e = ground (arith, lib.same_iff patch_id id, str_eq_iff port port_name)

  reconnect-AreFor :
      (p : JackPatch) (s d : Str)
      → p.src_port ≡ some s
      → p.dest_port ≡ some d
      → (calls : List Output) × (reconnect lib clients id client_name port_name p ≡ some calls)
        × AreFor p calls
  unfolding reconnect connect_to connect_from
  reconnect-AreFor p s d es ed =
      let src_iff = is_at_iff p.src_client_id p.src_port s es in
      let dest_iff = is_at_iff p.dest_client_id p.dest_port d ed in
      elim (Bool-cases (is_at p.src_client_id s)) [
        | inl q ↦ (
          connect client_name port_name (end_name lib clients p.dest_client p.dest_client_id) d
              ∷ [],
          rw (is_own_end-is_at p.src_client_id p.src_port s es) (rw q (rw ed refl)),
          λ call. ground (arith, src_iff),
        )
        | inr q ↦ elim (Bool-cases (is_at p.dest_client_id d)) [
          | inl r ↦ (
            connect (end_name lib clients p.src_client p.src_client_id) s client_name port_name
                ∷ [],
            rw (is_own_end-is_at p.src_client_id p.src_port s es) (
                rw q (rw (is_own_end-is_at p.dest_client_id p.dest_port d ed) (rw r (rw es refl)))),
            λ call. ground (arith, src_iff, dest_iff),
          )
          | inr r ↦ (
            [],
            rw (is_own_end-is_at p.src_client_id p.src_port s es)
                (rw q (rw (is_own_end-is_at p.dest_client_id p.dest_port d ed) (rw r refl))),
            λ call. ground (arith, src_iff, dest_iff),
          )
        ]
      ]

  -- The calls are those that restore a patch of the list.
  abbrev pub AreForAll : List JackPatch → List Output → Type 0
  AreForAll ps calls =
      (call : Output) → In call calls ↔ ((p : JackPatch) × In p ps × Restores p call)

  AreForAll-cons :
      (p : JackPatch) (ps : List JackPatch) (here later : List Output)
      → AreFor p here
      → AreForAll ps later
      → AreForAll (p ∷ ps) (here ++ later)
  AreForAll-cons p ps here later h k call = (
    λ m. elim (In-append_cases call here later m) [
      | inl l ↦ (p, inl refl, (Rejoins-Restores p call).0 ((h call).0 l))
      | inr r ↦ let (q, m', w) = (k call).0 r in (q, inr m', w)
    ],
    λ (q, m, w). elim m [
      | inl e ↦
          In-append_left call here later
            ((h call).1 ((Rejoins-Restores p call).1 (subst (λ x. Restores x call) e w)))
      | inr m' ↦ In-append_right call here later ((k call).1 (q, m', w))
    ],
  )

  new_client_port-AreForAll :
      (ps : List JackPatch)
      → HavePorts ps
      → (calls : List Output) × (new_client_port lib ps clients id client_name port_name
          ≡ some calls)
        × AreForAll ps calls
  unfolding new_client_port
  new_client_port-AreForAll [] h = ([], refl, λ call. (λ m. absurd m, λ (p, m, w). m))
  new_client_port-AreForAll (p ∷ ps) ((s, es), (d, ed), h) =
      let (here, first, right) = reconnect-AreFor p s d es ed in
      let (later, rest, right') = new_client_port-AreForAll ps h in
      (here ++ later, rw first (rw rest refl), AreForAll-cons p ps here later right right')

-- When jackdbus announces a port of a client of the manager, whose old patches have ports, then the
-- handler returns, and it asks for exactly the connections of the port with the other end of an old
-- patch at it: the other port, and of its client the name in the patch, or else that of the first client
-- of the manager with the ID in the patch, or else, if there is none, the empty name.
pub on_port_appeared-AreForAll :
    (lib : UuidLib) (mgr : JackdbusMgr) (id : ℕ) (client : JackClient) (client_name port_name : Str)
    → find_by_jackdbus_id mgr.clients id ≡ some client
    → HavePorts client.old_patches
    → (calls : List Output) × (on_port_appeared lib mgr id client_name port_name
        ≡ some (mgr, calls))
      × AreForAll lib mgr.clients client.id client_name port_name client.old_patches calls
unfolding on_port_appeared port_of
on_port_appeared-AreForAll lib mgr id client client_name port_name known h =
    let (calls, returns, right) =
      new_client_port-AreForAll lib mgr.clients client.id client_name port_name client.old_patches
        h in
    (calls, rw known (rw returns refl), right)
