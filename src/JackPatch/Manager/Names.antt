-- ===== src/JackPatch/Manager/Names.antt =====
-- Names and IDs of the ends of a patch are turned into each other.
use gnu_lash.Prelude.{
  ◌≡◌, refl, sym, ap, inl, inr, true, false, Option, none, some, List, [], ◌∷◌, ◌++◌, Str, str_eq,
  str_eq_iff, In, arith, Bool-cases, Option-cases, ◌==◌,
}
use gnu_lash.Uuid.{Uuid, UuidLib}
use gnu_lash.JackPatch.Types.{JackPatch, set_src_desc, set_dest_desc, description}
use gnu_lash.JackPatch.Manager.{
  MgrClient, set_client_id, patch_set, split_port, after_loop, unset_client_id, unset_src,
  unset_dest, patch_unset, set_src,
}

abbrev pub ids_of : List MgrClient → List Uuid
ids_of [] = []
ids_of (c ∷ cs) = c.id ∷ ids_of cs

abbrev pub names_of : List MgrClient → List Str
names_of [] = []
names_of (c ∷ cs) = c.name ∷ names_of cs

abbrev pub entries_of : List MgrClient → List (Uuid × Str)
entries_of [] = []
entries_of (c ∷ cs) = (c.id, c.name) ∷ entries_of cs

module _ (lib : UuidLib) where
  -- No two clients have one ID, and none has the null ID.
  abbrev pub ProperIds : List MgrClient → Type 0
  ProperIds [] = Unit {0}
  ProperIds (c ∷ cs) = (¬ In c.id (ids_of cs)) × (lib.is_null c.id ≡ false) × ProperIds cs

  -- The ID that is found for a name leads back to it.
  after_loop-set_client_id :
      (last : Option MgrClient) (clients : List MgrClient) (name : Str) (id : Uuid)
      → ProperIds clients
      → In name (names_of clients)
      → (i : Uuid) × (c : MgrClient) × (set_client_id clients (some name) id ≡ some i)
        × In i (ids_of clients)
        × In (i, name) (entries_of clients)
        × (lib.is_null i ≡ false)
        × (after_loop lib last clients i ≡ some c)
        × (c.name ≡ name)
  unfolding set_client_id after_loop
  after_loop-set_client_id last [] name id v m = absurd m
  after_loop-set_client_id last (c ∷ cs) name id v m = elim (Bool-cases (str_eq c.name name)) [
    | inl e ↦ rw e (
      c.id,
      c,
      refl,
      inl refl,
      inl (ap (λ n. (c.id, n)) (sym ((str_eq_iff c.name name).0 e))),
      v.1,
      rw ((lib.same_iff c.id c.id).1 refl) refl,
      (str_eq_iff c.name name).0 e,
    )
    | inr e ↦
        let m' : In name (names_of cs) = elim m [
          | inl q ↦ absurd (cc (e, (str_eq_iff c.name name).1 (sym q)))
          | inr k ↦ k
        ] in
        let (i, d, set, k, pair, proper, found, q) =
          after_loop-set_client_id (some c) cs name id v.2 m' in
        rw e (
          i,
          d,
          set,
          inr k,
          inr pair,
          proper,
          ground (arith, lib.same_iff i c.id, v.0, k, found),
          q,
        )
  ]

  -- Where the clients' names are known, jack_patch_set puts in the IDs of clients with these names.
  -- From a patch that has these IDs and its ports, and whatever names and descriptions, or none,
  -- jack_patch_unset makes the names again, and the descriptions from them.
  pub patch_unset-patch_set :
      (patch : JackPatch) (clients : List MgrClient) (src dest src_port dest_port : Str)
      (old_src old_dest old_src_desc old_dest_desc : Option Str)
      → ProperIds clients
      → patch.src_client ≡ some src
      → patch.dest_client ≡ some dest
      → patch.src_port ≡ some src_port
      → patch.dest_port ≡ some dest_port
      → In src (names_of clients)
      → In dest (names_of clients)
      → (p : JackPatch) × (q : JackPatch) × (patch_set patch clients ≡ some p)
        × In (p.src_client_id, src) (entries_of clients)
        × In (p.dest_client_id, dest) (entries_of clients)
        × (patch_unset lib
              (record p {
                src_client = old_src;
                dest_client = old_dest;
                src_desc = old_src_desc;
                dest_desc = old_dest_desc;
              })
              clients
            ≡ some (q, true))
        × (q.src_client ≡ some src)
        × (q.dest_client ≡ some dest)
        × (q.src_desc ≡ some (src ++ b':' ∷ src_port))
        × (q.dest_desc ≡ some (dest ++ b':' ∷ dest_port))
  unfolding patch_set patch_unset unset_src unset_dest unset_client_id set_src_desc set_dest_desc
      description
  patch_unset-patch_set patch clients src dest src_port dest_port old_src old_dest old_src_desc
        old_dest_desc v s d sp dp ms md =
      let (i, c, e, m, pair, n, f, q) =
        after_loop-set_client_id none clients src patch.src_client_id v ms in
      let (j, c', e', m', pair', n', f', q') =
        after_loop-set_client_id none clients dest patch.dest_client_id v md in
      let p = record patch { src_client_id = i; dest_client_id = j } in
      (
        p,
        record p {
          src_client = some src;
          dest_client = some dest;
          src_desc = some (src ++ b':' ∷ src_port);
          dest_desc = some (dest ++ b':' ∷ dest_port);
        },
        ground (arith, e, e'),
        pair,
        pair',
        ground (arith, n, f, q, n', f', q', sp, dp),
        refl,
        refl,
        refl,
        refl,
      )

  after_loop-last :
      (o : Option MgrClient) (clients : List MgrClient) (last : MgrClient) (id : Uuid)
      → ¬ In id (ids_of (clients ++ last ∷ []))
      → after_loop lib o (clients ++ last ∷ []) id ≡ some last
  unfolding after_loop
  after_loop-last o [] last id h = ground (arith, lib.same_iff id last.id)
  after_loop-last o (c ∷ cs) last id h =
      ground (arith, lib.same_iff id c.id, after_loop-last (some c) cs last id)

  -- If no client of the list has the ID, jack_patch_unset_client_id answers the name of the last
  -- client, whichever that is.
  unset_client_id-unknown :
      (clients : List MgrClient) (last : MgrClient) (id : Uuid)
      → ¬ In id (ids_of (clients ++ last ∷ []))
      → unset_client_id lib (clients ++ last ∷ []) id ≡ some last.name
  unfolding unset_client_id
  unset_client_id-unknown clients last id h = rw (after_loop-last none clients last id h) refl

pub split_port-join :
    (s client port : Str) → split_port s ≡ some (client, port) → client ++ b':' ∷ port ≡ s
unfolding split_port
split_port-join [] client port e = absurd (ground arith)
split_port-join (c ∷ s) client port e = elim (Option-cases (split_port s)) [
  | inl h ↦ ground arith
  | inr ((before, after), h) ↦ ground (arith, split_port-join s before after h)
]

split_port-finds : (s : Str) → In b':' s → (r : Str × Str) × (split_port s ≡ some r)
unfolding split_port
split_port-finds [] m = absurd m
split_port-finds (c ∷ s) m = elim (Bool-cases (c == b':')) [
  | inl e ↦ (([], s), rw e refl)
  | inr e ↦
      let m' : In b':' s = elim m [ inl q ↦ absurd (ground arith) | inr k ↦ k ] in
      let (r, h) = split_port-finds s m' in ((c ∷ r.0, r.1), rw (e, h) refl)
]

module _ (lib : UuidLib) where
  -- For a JACK port name with a colon, jack_patch_set_src returns, the description that it makes is
  -- that name again, and the other end of the patch is as before.
  pub set_src-src_desc :
      (patch : JackPatch) (src : Str)
      → In b':' src
      → (p : JackPatch) × (set_src lib patch src ≡ some p)
        × (p.src_desc ≡ some src)
        × (p.dest_client ≡ patch.dest_client)
        × (p.dest_port ≡ patch.dest_port)
        × (p.dest_desc ≡ patch.dest_desc)
  unfolding set_src set_src_desc description
  set_src-src_desc patch src m =
      let (r, h) = split_port-finds src m in
      let joined = split_port-join src r.0 r.1 h in
      (
        record patch {
          src_client = some r.0;
          src_port = some r.1;
          src_desc = some (r.0 ++ b':' ∷ r.1);
        },
        rw h refl,
        ap some joined,
        refl,
        refl,
        refl,
      )
