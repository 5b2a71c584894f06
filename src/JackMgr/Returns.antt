-- ===== src/JackMgr/Returns.antt =====
-- The calls for one patch return, if the patch is complete.
use gnu_lash.Prelude.{
  ◌≡◌, refl, Bool, true, false, inl, inr, ◌⊎◌, Option, none, some, List, [], ◌∷◌, Str, ◌>>=◌,
  Bool-cases,
}
use gnu_lash.Uuid.{Uuid, UuidLib}
use gnu_lash.JackPatch.Types.{
  JackPatch, patch_dup, set_descs, set_src_desc, set_dest_desc, description,
}
use gnu_lash.JackPatch.Manager.{
  MgrClient, patch_unset, unset_src, unset_dest, unset_client_id, after_loop,
}
use gnu_lash.JackMgr.Resume.{is_end, has_port}

abbrev pub IsGiven : Option Str → Type 0
IsGiven none = ⊥
IsGiven (some s) = Unit {0}

-- The ports and the clients of both ends have names, and the descriptions are made.
abbrev pub IsNamed : JackPatch → Type 0
IsNamed p =
    IsGiven p.src_client
    × IsGiven p.src_port
    × IsGiven p.dest_client
    × IsGiven p.dest_port
    × IsGiven p.src_desc
    × IsGiven p.dest_desc

is_end-returns :
    (name port : Str) (client patch_port : Option Str)
    → IsGiven client
    → IsGiven patch_port
    → (b : Bool) × (is_end name port client patch_port ≡ some b)
unfolding is_end
is_end-returns name port none patch_port h g = absurd h
is_end-returns name port (some client) none h g = absurd g
is_end-returns name port (some client) (some patch_port) h g = (_, refl)

pub has_port-returns :
    (p : JackPatch) (name port : Str) → IsNamed p → (b : Bool) × (has_port p name port ≡ some b)
unfolding has_port
has_port-returns p name port (sc, sp, dc, dp, _, _) =
    let (b, e) = is_end-returns name port p.src_client p.src_port sc sp in
    let (b', e') = is_end-returns name port p.dest_client p.dest_port dc dp in
    rw e (elim (Bool-cases b) [ inl f ↦ rw f (true, refl) | inr f ↦ rw (f, e') (b', refl) ])

module _ (lib : UuidLib) (k : MgrClient) (ks : List MgrClient) where
  -- The ports have names, and each end has a client with a name or an ID.
  abbrev pub IsComplete : JackPatch → Type 0
  IsComplete p =
      IsGiven p.src_port
      × IsGiven p.dest_port
      × (IsGiven p.src_client ⊎ (lib.is_null p.src_client_id ≡ false))
      × (IsGiven p.dest_client ⊎ (lib.is_null p.dest_client_id ≡ false))

  -- A copy of the patch, with the names that the clients have now.
  abbrev pub resolve : JackPatch → Option (JackPatch × Bool)
  resolve p = patch_dup lib p >>= λ copy. patch_unset lib copy (k ∷ ks)

  after_loop-returns :
      (c : MgrClient) (cs : List MgrClient) (id : Uuid)
      → (d : MgrClient) × (after_loop lib (some c) cs id ≡ some d)
  unfolding after_loop
  after_loop-returns c [] id = (c, refl)
  after_loop-returns c (d ∷ cs) id = elim (Bool-cases (lib.same id d.id)) [
    | inl e ↦ rw e (d, refl)
    | inr e ↦ rw e (after_loop-returns d cs id)
  ]

  unset_client_id-returns : (id : Uuid) → (s : Str) × (unset_client_id lib (k ∷ ks) id ≡ some s)
  unfolding unset_client_id after_loop
  unset_client_id-returns id = elim (Bool-cases (lib.same id k.id)) [
    | inl e ↦ rw e (k.name, refl)
    | inr e ↦ let (d, f) = after_loop-returns k ks id in rw (e, f) (d.name, refl)
  ]

  description-returns :
      (client : Option Str) (id : Uuid) (port : Option Str)
      → IsGiven port
      → (s : Str) × (description lib client id port ≡ some s)
  unfolding description
  description-returns client id none h = absurd h
  description-returns none id (some port) h = (_, refl)
  description-returns (some name) id (some port) h = (_, refl)

  patch_dup-returns :
      (p : JackPatch)
      → IsGiven p.src_port
      → IsGiven p.dest_port
      → (s : Str) × (t : Str) × (patch_dup lib p
          ≡ some (record p { src_desc = some s; dest_desc = some t }))
  unfolding patch_dup set_descs set_src_desc set_dest_desc
  patch_dup-returns p h g =
      let (s, e) = description-returns p.src_client p.src_client_id p.src_port h in
      let (t, f) = description-returns p.dest_client p.dest_client_id p.dest_port g in
      (s, t, rw (e, f) refl)

  unset_src-returns :
      (p : JackPatch)
      → IsGiven p.src_port
      → IsGiven p.src_client ⊎ (lib.is_null p.src_client_id ≡ false)
      → IsGiven p.src_desc
      → (c : Option Str) × (d : Option Str) × (unset_src lib p (k ∷ ks)
          ≡ some (record p { src_client = c; src_desc = d }))
        × IsGiven c
        × IsGiven d
  unfolding unset_src set_src_desc
  unset_src-returns p port h desc = elim (Bool-cases (lib.is_null p.src_client_id)) [
    | inl e ↦
        let named : IsGiven p.src_client = elim h [ inl n ↦ n | inr f ↦ absurd (cc (e, f)) ] in
        (p.src_client, p.src_desc, rw e refl, named, desc)
    | inr e ↦
        let (name, f) = unset_client_id-returns p.src_client_id in
        let (d, g) = description-returns (some name) p.src_client_id p.src_port port in
        (some name, some d, rw (e, f, g) refl, tt, tt)
  ]

  unset_dest-returns :
      (p : JackPatch)
      → IsGiven p.dest_port
      → IsGiven p.dest_client ⊎ (lib.is_null p.dest_client_id ≡ false)
      → IsGiven p.dest_desc
      → (c : Option Str) × (d : Option Str) × (unset_dest lib p (k ∷ ks)
          ≡ some (record p { dest_client = c; dest_desc = d }))
        × IsGiven c
        × IsGiven d
  unfolding unset_dest set_dest_desc
  unset_dest-returns p port h desc = elim (Bool-cases (lib.is_null p.dest_client_id)) [
    | inl e ↦
        let named : IsGiven p.dest_client = elim h [ inl n ↦ n | inr f ↦ absurd (cc (e, f)) ] in
        (p.dest_client, p.dest_desc, rw e refl, named, desc)
    | inr e ↦
        let (name, f) = unset_client_id-returns p.dest_client_id in
        let (d, g) = description-returns (some name) p.dest_client_id p.dest_port port in
        (some name, some d, rw (e, f, g) refl, tt, tt)
  ]

  pub resolve-returns :
      (p : JackPatch) → IsComplete p → (q : JackPatch) × (resolve p ≡ some (q, true)) × IsNamed q
  unfolding patch_unset
  resolve-returns p (sp, dp, src, dest) =
      let (s, t, e) = patch_dup-returns p sp dp in
      let copy = record p { src_desc = some s; dest_desc = some t } in
      let (c, d, f, c_set, d_set) = unset_src-returns copy sp src tt in
      let half = record copy { src_client = c; src_desc = d } in
      let (c', d', g, c_set', d_set') = unset_dest-returns half dp dest tt in
      (
        record half { dest_client = c'; dest_desc = d' },
        rw (e, f, g) refl,
        (c_set, sp, c_set', dp, d_set, d_set'),
      )
