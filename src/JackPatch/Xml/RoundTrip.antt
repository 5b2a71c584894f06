-- ===== src/JackPatch/Xml/RoundTrip.antt =====
-- A patch that is written to a project file is read back.
use gnu_lash.Prelude.{
  ◌≡◌, refl, ◌⊎◌, inl, inr, false, Option, none, some, Str, str_eq, arith, Bool-cases,
  if◌then◌else◌,
}
use gnu_lash.Uuid.{UuidLib}
use gnu_lash.Xml.{XmlLib, IsPlain}
use gnu_lash.JackPatch.Types.{JackPatch, patch_new, patch_dup}
use gnu_lash.JackPatch.Xml.{
  create_xml, new_child, src_child, dest_child, src_port_tag, dest_port_tag, parse_xml,
  parse_children, parse_child,
}

-- A text that the project file keeps.
abbrev pub IsKept : Option Str → Type 0
IsKept none = ⊥
IsKept (some s) = IsPlain s

module _ (lib : UuidLib) (xml : XmlLib) where
  -- A client that has an ID is known by that alone.
  abbrev pub forget_named : JackPatch → JackPatch
  forget_named patch = record patch {
    src_client = if lib.is_null patch.src_client_id then patch.src_client else none;
    dest_client = if lib.is_null patch.dest_client_id then patch.dest_client else none;
  }

  IsKept-content : (s : Option Str) → IsKept s → (t : Str) × (s ≡ some t) × (xml.content_of t ≡ t)
  IsKept-content none h = absurd h
  IsKept-content (some t) h = (t, refl, xml.content_of-plain t h)

  -- The project file keeps the patch: the ports and, where there is no ID, the client names are
  -- texts without an ampersand, and so is every printed ID.
  pub record IsWritable (patch : JackPatch) : Type 0 where
    pub src_port : IsKept patch.src_port
    pub dest_port : IsKept patch.dest_port
    pub src_client : (lib.is_null patch.src_client_id ≡ false) ⊎ IsKept patch.src_client
    pub dest_client : (lib.is_null patch.dest_client_id ≡ false) ⊎ IsKept patch.dest_client
    pub src_id : IsPlain (lib.unparse patch.src_client_id)
    pub dest_id : IsPlain (lib.unparse patch.dest_client_id)

  parse_src_child :
      (p patch : JackPatch)
      → IsWritable patch
      → p.src_client ≡ none
      → p.src_client_id ≡ lib.null
      → parse_child lib xml p (src_child lib xml patch) ≡ record p {
        src_client = (forget_named patch).src_client;
        src_client_id = patch.src_client_id;
      }
  unfolding parse_child src_child new_child str_eq
  parse_src_child p patch ok no_name no_id = elim (Bool-cases (lib.is_null patch.src_client_id)) [
    | inl e ↦ elim ok.src_client [
      | inl named ↦ absurd (cc (e, named))
      | inr kept ↦
          let (t, q, h) = IsKept-content patch.src_client kept in
          let same = (lib.is_null_iff patch.src_client_id).0 e in
          rw (e, q) (ground (arith, h, same, no_id))
    ]
    | inr e ↦ rw (e, xml.content_of-plain _ ok.src_id, lib.parse-unparse patch.src_client_id) refl
  ]

  parse_dest_child :
      (p patch : JackPatch)
      → IsWritable patch
      → p.dest_client ≡ none
      → p.dest_client_id ≡ lib.null
      → parse_child lib xml p (dest_child lib xml patch) ≡ record p {
        dest_client = (forget_named patch).dest_client;
        dest_client_id = patch.dest_client_id;
      }
  unfolding parse_child dest_child new_child str_eq
  parse_dest_child p patch ok no_name no_id = elim (Bool-cases (lib.is_null patch.dest_client_id)) [
    | inl e ↦ elim ok.dest_client [
      | inl named ↦ absurd (cc (e, named))
      | inr kept ↦
          let (t, q, h) = IsKept-content patch.dest_client kept in
          let same = (lib.is_null_iff patch.dest_client_id).0 e in
          rw (e, q) (ground (arith, h, same, no_id))
    ]
    | inr e ↦ rw (e, xml.content_of-plain _ ok.dest_id, lib.parse-unparse patch.dest_client_id) refl
  ]

  parse_src_port :
      (p : JackPatch) (port : Option Str)
      → IsKept port
      → parse_child lib xml p (new_child lib xml src_port_tag port) ≡ record p { src_port = port }
  unfolding parse_child new_child str_eq
  parse_src_port p none h = absurd h
  parse_src_port p (some t) h = rw (xml.content_of-plain t h) refl

  parse_dest_port :
      (p : JackPatch) (port : Option Str)
      → IsKept port
      → parse_child lib xml p (new_child lib xml dest_port_tag port) ≡ record p { dest_port = port }
  unfolding parse_child new_child str_eq
  parse_dest_port p none h = absurd h
  parse_dest_port p (some t) h = rw (xml.content_of-plain t h) refl

  -- Parsing the XML of a writable patch into a new patch gives a copy of it, in which a client with
  -- an ID has lost its name.
  pub parse_xml-create_xml :
      (patch : JackPatch)
      → IsWritable patch
      → parse_xml lib xml (patch_new lib) (create_xml lib xml patch)
        ≡ patch_dup lib (forget_named patch)
  unfolding parse_xml create_xml patch_dup patch_new parse_children
  parse_xml-create_xml patch ok =
      let p₀ = patch_new lib in
      let p₁ = record p₀ {
        src_client = (forget_named patch).src_client;
        src_client_id = patch.src_client_id;
      } in
      let p₂ = record p₁ { src_port = patch.src_port } in
      let p₃ = record p₂ {
        dest_client = (forget_named patch).dest_client;
        dest_client_id = patch.dest_client_id;
      } in
      rw
        (
          parse_src_child p₀ patch ok refl refl,
          parse_src_port p₁ patch.src_port ok.src_port,
          parse_dest_child p₂ patch ok refl refl,
          parse_dest_port p₃ patch.dest_port ok.dest_port,
        )
        refl
