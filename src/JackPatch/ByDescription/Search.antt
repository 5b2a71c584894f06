-- ===== src/JackPatch/ByDescription/Search.antt =====
-- What jack_patch_find_by_description finds.
use gnu_lash.Prelude.{
  ◌≡◌, refl, sym, ap, subst, ◌⊎◌, inl, inr, false, Option, none, some, List, [], ◌∷◌, ◌++◌, Str,
  str_eq_iff, arith,
}
use gnu_lash.Uuid.{Uuid, UuidLib}
use gnu_lash.JackPatch.Types.{JackPatch, patch_new, set_descs, set_src_desc, set_dest_desc}
use gnu_lash.JackPatch.ByDescription.{
  Found, found, not_found, crash, Test, passes, fails, reads_null, same_text, same_client, matches,
  find_by_description, new_with_all, strdup, name_or, id_or,
}

module _ (lib : UuidLib) (src_uuid : Option Uuid) (src_name src_port : Str)
    (dest_uuid : Option Uuid) (dest_name dest_port : Str) where
  abbrev test : JackPatch → Test
  test = matches lib src_uuid src_name src_port dest_uuid dest_name dest_port

  abbrev search : List JackPatch → Found
  search patches =
      find_by_description lib patches src_uuid src_name src_port dest_uuid dest_name dest_port

  -- No patch of the list passes, and none makes the test read a null pointer.
  abbrev pub AllFail : List JackPatch → Type 0
  AllFail [] = Unit {0}
  AllFail (p ∷ ps) = (test p ≡ fails) × AllFail ps

  -- The outcome of a search: the first patch that does not fail the test, if any, decides it.
  abbrev pub Decided : List JackPatch → Found → Type 0
  Decided ps not_found = AllFail ps
  Decided ps (found p) =
      (before : List JackPatch) × (after : List JackPatch) × (ps ≡ before ++ p ∷ after)
      × AllFail before
      × (test p ≡ passes)
  Decided ps crash =
      (before : List JackPatch) × (p : JackPatch) × (after : List JackPatch) × (ps
        ≡ before ++ p ∷ after)
      × AllFail before
      × (test p ≡ reads_null)

  Decided-cons :
      (p : JackPatch) (ps : List JackPatch) (r : Found)
      → test p ≡ fails
      → Decided ps r
      → Decided (p ∷ ps) r
  Decided-cons p ps not_found e d = (e, d)
  Decided-cons p ps (found q) e (before, after, s, all, t) =
      (p ∷ before, after, ap (◌∷◌ p) s, (e, all), t)
  Decided-cons p ps crash e (before, q, after, s, all, t) =
      (p ∷ before, q, after, ap (◌∷◌ p) s, (e, all), t)

  Test-cases : (t : Test) → (t ≡ passes) ⊎ ((t ≡ fails) ⊎ (t ≡ reads_null))
  Test-cases passes = inl refl
  Test-cases fails = inr (inl refl)
  Test-cases reads_null = inr (inr refl)

  search_passes :
      (p : JackPatch) (ps : List JackPatch) → test p ≡ passes → search (p ∷ ps) ≡ found p
  unfolding find_by_description
  search_passes p ps e = rw (e, find_by_description) refl

  search_fails :
      (p : JackPatch) (ps : List JackPatch) → test p ≡ fails → search (p ∷ ps) ≡ search ps
  unfolding find_by_description
  search_fails p ps e = rw (e, find_by_description) refl

  search_reads_null :
      (p : JackPatch) (ps : List JackPatch) → test p ≡ reads_null → search (p ∷ ps) ≡ crash
  unfolding find_by_description
  search_reads_null p ps e = rw (e, find_by_description) refl

  -- The search returns the first patch that passes all tests, nothing if all patches fail one, and
  -- reads through a null pointer if a patch makes it do so before any passes.
  find_by_description-Decided : (ps : List JackPatch) → Decided ps (search ps)
  find_by_description-Decided [] = unfold find_by_description in tt
  find_by_description-Decided (p ∷ ps) = elim (Test-cases (test p)) [
    | inl e ↦ subst (Decided (p ∷ ps)) (sym (search_passes p ps e)) ([], ps, refl, tt, e)
    | inr (inl e) ↦
        subst (Decided (p ∷ ps)) (sym (search_fails p ps e))
          (Decided-cons p ps (search ps) e (find_by_description-Decided ps))
    | inr (inr e) ↦
        subst (Decided (p ∷ ps)) (sym (search_reads_null p ps e)) ([], p, ps, refl, tt, e)
  ]

  -- A search by the name of the source client reads through a null pointer if the first patch of
  -- the list has the same two ports, and its source client has no name.
  find_by_description-crash :
      (p : JackPatch) (ps : List JackPatch)
      → src_uuid ≡ none
      → p.src_port ≡ some src_port
      → p.dest_port ≡ some dest_port
      → p.src_client ≡ none
      → search (p ∷ ps) ≡ crash
  unfolding matches same_client same_text
  find_by_description-crash p ps no_id sp dp no_name =
      search_reads_null p ps
        (ground (arith, str_eq_iff src_port src_port, str_eq_iff dest_port dest_port))

same_text-some : (s : Str) → same_text (some s) s ≡ passes
unfolding same_text
same_text-some s = rw ((str_eq_iff s s).1 refl) refl

module _ (lib : UuidLib) where
  -- The UUID, if one is given, is not the null UUID.
  abbrev pub IsProper : Option Uuid → Type 0
  IsProper none = Unit {0}
  IsProper (some id) = lib.is_null id ≡ false

  same_client-own :
      (uuid : Option Uuid) (name : Str)
      → IsProper uuid
      → same_client lib uuid name (name_or lib uuid (some name)) (id_or lib uuid) ≡ passes
  unfolding same_client name_or id_or
  same_client-own none name h = same_text-some name
  same_client-own (some id) name h = rw (h, (lib.same_iff id id).1 refl) refl

  set_descs_lem :
      (q p : JackPatch)
      → set_descs lib q ≡ some p
      → (p.src_port ≡ q.src_port)
        × (p.dest_port ≡ q.dest_port)
        × (p.src_client ≡ q.src_client)
        × (p.dest_client ≡ q.dest_client)
        × (p.src_client_id ≡ q.src_client_id)
        × (p.dest_client_id ≡ q.dest_client_id)
  unfolding set_descs set_src_desc set_dest_desc
  set_descs_lem q p e = ground arith

  -- A patch made from a description by jack_patch_new_with_all is the one that a search for that
  -- description finds when it stands first.
  pub find_by_description-new_with_all :
      (src_uuid dest_uuid : Option Uuid) (src_name dest_name src_port dest_port : Str)
      (p : JackPatch) (ps : List JackPatch)
      → IsProper src_uuid
      → IsProper dest_uuid
      → new_with_all lib src_uuid dest_uuid
          (some src_name)
          (some dest_name)
          (some src_port)
          (some dest_port)
        ≡ some p
      → find_by_description lib (p ∷ ps) src_uuid src_name src_port dest_uuid dest_name dest_port
        ≡ found p
  unfolding new_with_all matches
  find_by_description-new_with_all src_uuid dest_uuid src_name dest_name src_port dest_port p ps h k
        e =
      let q = record (patch_new lib) {
        src_client_id = id_or lib src_uuid;
        src_client = name_or lib src_uuid (some src_name);
        dest_client_id = id_or lib dest_uuid;
        dest_client = name_or lib dest_uuid (some dest_name);
        src_port = some (strdup (some src_port));
        dest_port = some (strdup (some dest_port));
      } in
      let (sp, dp, sc, dc, si, di) = set_descs_lem q p e in
      search_passes lib src_uuid src_name src_port dest_uuid dest_name dest_port p ps (
        rw
          (
            sp,
            dp,
            sc,
            dc,
            si,
            di,
            same_text-some src_port,
            same_text-some dest_port,
            same_client-own src_uuid src_name h,
            same_client-own dest_uuid dest_name k,
          )
          refl)
