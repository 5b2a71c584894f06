-- ===== src/Alsa/Patch/Xml/Elements.antt =====
-- What alsa_patch_parse_xml does with each element that alsa_patch_create_xml writes.
use gnu_lash.Prelude.{
  ℕ, ◌%◌, ◌^◌, ◌<◌, ◌≡◌, refl, sym, ap, ◌∙◌, Bool, true, false, not, [], ◌∷◌, Str, str_eq, ◌==◌,
  decimal, decimal-Digits, Digits, arith, Bool-cases, inl, inr, if◌then◌else◌,
}
use gnu_lash.Uuid.{Uuid, UuidLib}
use gnu_lash.Xml.{XmlLib, IsPlain}
use gnu_lash.Alsa.Seq.{Addr, Fields, SeqLib}
use gnu_lash.Alsa.Number.{strtoul, strtoul-decimal}
use gnu_lash.Alsa.Patch.Types.{AlsaPatch, flag_value}
use gnu_lash.Alsa.Patch.Xml.{
  child, client_child, parse_child, queue_tag, exclusive_tag, time_update_tag, time_real_tag,
}
use gnu_lash.JackPatch.Xml.{
  src_client_tag, src_client_id_tag, src_port_tag, dest_client_tag, dest_client_id_tag,
  dest_port_tag,
}

Digits-IsPlain : (s : Str) → Digits s → IsPlain s
Digits-IsPlain [] h = tt
Digits-IsPlain (c ∷ s) h = (ground (arith, h.0), Digits-IsPlain s h.1)

flag_value_lem : (b : Bool) → not (flag_value b % 2 ^ 32 == 0) ≡ b
flag_value_lem true = refl
flag_value_lem false = refl

abbrev pub with_sender : AlsaPatch Fields → Addr → AlsaPatch Fields
with_sender v a = record v { sub = record v.sub { sender = a } }

abbrev pub with_dest : AlsaPatch Fields → Addr → AlsaPatch Fields
with_dest v a = record v { sub = record v.sub { dest = a } }

-- The effects of the elements on what is seen of a patch.
abbrev pub put_src_port : ℕ → AlsaPatch Fields → AlsaPatch Fields
put_src_port n v = with_sender v (record v.sub.sender { port = n })

abbrev pub put_dest_port : ℕ → AlsaPatch Fields → AlsaPatch Fields
put_dest_port n v = with_dest v (record v.sub.dest { port = n })

abbrev pub put_queue : ℕ → AlsaPatch Fields → AlsaPatch Fields
put_queue n v = record v { sub = record v.sub { queue = n } }

abbrev pub put_exclusive : Bool → AlsaPatch Fields → AlsaPatch Fields
put_exclusive b v = record v { sub = record v.sub { exclusive = b } }

abbrev pub put_time_update : Bool → AlsaPatch Fields → AlsaPatch Fields
put_time_update b v = record v { sub = record v.sub { time_update = b } }

abbrev pub put_time_real : Bool → AlsaPatch Fields → AlsaPatch Fields
put_time_real b v = record v { sub = record v.sub { time_real = b } }

module _ {Sub : Type 0} (lib : UuidLib) (xml : XmlLib) (seq : SeqLib Sub) where
  abbrev pub put_dest : Uuid → Addr → AlsaPatch Fields → AlsaPatch Fields
  put_dest id addr v =
      record (with_dest v (record v.sub.dest {
        client = if lib.is_null id then addr.client else v.sub.dest.client;
      })) { dest_id = id }

  -- What the getters show of a patch.
  abbrev pub view : AlsaPatch Sub → AlsaPatch Fields
  view p = record { sub = seq.fields p.sub; src_id = p.src_id; dest_id = p.dest_id }

  number_content : (n : ℕ) → n < 256 → strtoul (xml.content_of (decimal n)) ≡ n
  number_content n h =
      ap strtoul (xml.content_of-plain (decimal n) (Digits-IsPlain (decimal n) (decimal-Digits n)))
      ∙ strtoul-decimal n (omega arith)

  flag_content : (b : Bool) → strtoul (xml.content_of (decimal (flag_value b))) ≡ flag_value b
  flag_content b = number_content (flag_value b) (ground arith)

  -- What each element does to the view.
  module _ (p : AlsaPatch Sub) (n : ℕ) (h : n < 256) where
    abbrev parse_number : Str → AlsaPatch Fields
    parse_number tag = view (parse_child lib xml seq p (child lib xml seq tag (decimal n)))

    byte : n % 256 ≡ n
    byte = omega arith

    word : n % 2 ^ 32 ≡ n
    word = omega arith

    pub parse-src_client :
        parse_number src_client_tag
        ≡ with_sender (view p) (record (view p).sub.sender { client = n })
    unfolding parse_child child str_eq
    parse-src_client = rw (number_content n h, seq.set_sender_lem, byte) refl

    pub parse-src_port : parse_number src_port_tag ≡ put_src_port n (view p)
    unfolding parse_child child str_eq
    parse-src_port = rw (number_content n h, seq.set_sender_lem, byte) refl

    pub parse-dest_client :
        parse_number dest_client_tag ≡ with_dest (view p) (record (view p).sub.dest { client = n })
    unfolding parse_child child str_eq
    parse-dest_client = rw (number_content n h, seq.set_dest_lem, byte) refl

    pub parse-dest_port : parse_number dest_port_tag ≡ put_dest_port n (view p)
    unfolding parse_child child str_eq
    parse-dest_port = rw (number_content n h, seq.set_dest_lem, byte) refl

    pub parse-queue : parse_number queue_tag ≡ put_queue n (view p)
    unfolding parse_child child str_eq
    parse-queue = rw (number_content n h, word, seq.set_queue_lem p.sub n h) refl

  module _ (p : AlsaPatch Sub) (b : Bool) where
    abbrev parse_flag : Str → AlsaPatch Fields
    parse_flag tag =
        view (parse_child lib xml seq p (child lib xml seq tag (decimal (flag_value b))))

    pub parse-exclusive : parse_flag exclusive_tag ≡ put_exclusive b (view p)
    unfolding parse_child child str_eq
    parse-exclusive = rw (flag_content b, seq.set_exclusive_lem, flag_value_lem b) refl

    pub parse-time_update : parse_flag time_update_tag ≡ put_time_update b (view p)
    unfolding parse_child child str_eq
    parse-time_update = rw (flag_content b, seq.set_time_update_lem, flag_value_lem b) refl

    pub parse-time_real : parse_flag time_real_tag ≡ put_time_real b (view p)
    unfolding parse_child child str_eq
    parse-time_real = rw (flag_content b, seq.set_time_real_lem, flag_value_lem b) refl

  -- The element for the source client, read into a patch that has no ID there yet.
  pub parse-src :
      (p : AlsaPatch Sub) (id : Uuid) (addr : Addr)
      → addr.client < 256
      → IsPlain (lib.unparse id)
      → p.src_id ≡ lib.null
      → view (
          parse_child lib xml seq p
            (client_child lib xml seq src_client_tag src_client_id_tag id addr))
        ≡ record (with_sender (view p) (record (view p).sub.sender {
          client = if lib.is_null id then addr.client else (view p).sub.sender.client;
        })) { src_id = id }
  unfolding client_child
  parse-src p id addr h plain no_id = elim (Bool-cases (lib.is_null id)) [
    | inl e ↦
        let same : p.src_id ≡ id = no_id ∙ sym ((lib.is_null_iff id).0 e) in
        rw e (parse-src_client p addr.client h ∙ rw same refl)
    | inr e ↦
        unfold parse_child child str_eq in
        rw (e, xml.content_of-plain _ plain, lib.parse-unparse id) refl
  ]

  -- The element for the destination client, read into a patch that has no ID there yet.
  pub parse-dest :
      (p : AlsaPatch Sub) (id : Uuid) (addr : Addr)
      → addr.client < 256
      → IsPlain (lib.unparse id)
      → p.dest_id ≡ lib.null
      → view (
          parse_child lib xml seq p
            (client_child lib xml seq dest_client_tag dest_client_id_tag id addr))
        ≡ record (with_dest (view p) (record (view p).sub.dest {
          client = if lib.is_null id then addr.client else (view p).sub.dest.client;
        })) { dest_id = id }
  unfolding client_child
  parse-dest p id addr h plain no_id = elim (Bool-cases (lib.is_null id)) [
    | inl e ↦
        let same : p.dest_id ≡ id = no_id ∙ sym ((lib.is_null_iff id).0 e) in
        rw e (parse-dest_client p addr.client h ∙ rw same refl)
    | inr e ↦
        unfold parse_child child str_eq in
        rw (e, xml.content_of-plain _ plain, lib.parse-unparse id) refl
  ]
