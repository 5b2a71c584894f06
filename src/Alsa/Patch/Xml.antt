-- ===== src/Alsa/Patch/Xml.antt =====
-- alsa_patch_create_xml and alsa_patch_parse_xml.
pub mod Elements
pub mod RoundTrip
use gnu_lash.Prelude.{
  ℕ, ◌%◌, ◌^◌, Bool, Option, none, some, List, [], ◌∷◌, Str, codes, str_eq, decimal, if◌then◌else◌,
}
use gnu_lash.Uuid.{Uuid, UuidLib}
use gnu_lash.Xml.{Element, XmlLib}
use gnu_lash.Alsa.Seq.{Addr, SeqLib}
use gnu_lash.Alsa.Number.{strtoul}
use gnu_lash.Alsa.Patch.Types.{AlsaPatch, flag_value}
use gnu_lash.JackPatch.Xml.{
  src_client_tag, src_client_id_tag, src_port_tag, dest_client_tag, dest_client_id_tag,
  dest_port_tag,
}

abbrev pub queue_tag : Str
queue_tag = codes "queue"

abbrev pub exclusive_tag : Str
exclusive_tag = codes "exclusive"

abbrev pub time_update_tag : Str
time_update_tag = codes "time_update"

abbrev pub time_real_tag : Str
time_real_tag = codes "time_real"

-- The assignment of an unsigned long to an unsigned char.
abbrev pub to_byte : ℕ → ℕ
to_byte n = n % 256

-- uuid_parse leaves the ID as it is where it fails, and its result is not looked at.
abbrev pub set_id : Uuid → Option Uuid → Uuid
set_id id none = id
set_id id (some new) = new

module _ {Sub : Type 0} (lib : UuidLib) (xml : XmlLib) (seq : SeqLib Sub) where
  unfoldable pub child : Str → Str → Element
  child tag content = record { name = tag; content = xml.content_of content }

  -- One end: the client by its ID if it has one, and by its number otherwise.
  unfoldable pub client_child : Str → Str → Uuid → Addr → Element
  client_child tag id_tag id addr =
      if lib.is_null id then child tag (decimal addr.client) else child id_tag (lib.unparse id)

  -- The children of the "alsa_patch" element.
  unfoldable pub create_xml : AlsaPatch Sub → List Element
  create_xml patch =
      let f = seq.fields patch.sub in
      client_child src_client_tag src_client_id_tag patch.src_id f.sender
      ∷ child src_port_tag (decimal f.sender.port)
      ∷ client_child dest_client_tag dest_client_id_tag patch.dest_id f.dest
      ∷ child dest_port_tag (decimal f.dest.port)
      ∷ child queue_tag (decimal f.queue)
      ∷ child exclusive_tag (decimal (flag_value f.exclusive))
      ∷ child time_update_tag (decimal (flag_value f.time_update))
      ∷ child time_real_tag (decimal (flag_value f.time_real))
      ∷ []

  abbrev replace_sender : AlsaPatch Sub → Addr → AlsaPatch Sub
  replace_sender patch addr = record patch { sub = seq.set_sender patch.sub addr }

  abbrev replace_dest : AlsaPatch Sub → Addr → AlsaPatch Sub
  replace_dest patch addr = record patch { sub = seq.set_dest patch.sub addr }

  -- One round of the loop of alsa_patch_parse_xml.
  unfoldable pub parse_child : AlsaPatch Sub → Element → AlsaPatch Sub
  parse_child patch node =
      let sender = (seq.fields patch.sub).sender in
      let dest = (seq.fields patch.sub).dest in
      let n = strtoul node.content in
      if str_eq node.name src_client_tag
      then replace_sender patch (record sender { client = to_byte n })
      else if str_eq node.name src_client_id_tag
      then record patch { src_id = set_id patch.src_id (lib.parse node.content) }
      else if str_eq node.name src_port_tag
      then replace_sender patch (record sender { port = to_byte n })
      else if str_eq node.name dest_client_tag
      then replace_dest patch (record dest { client = to_byte n })
      else if str_eq node.name dest_client_id_tag
      then record patch { dest_id = set_id patch.dest_id (lib.parse node.content) }
      else if str_eq node.name dest_port_tag
      then replace_dest patch (record dest { port = to_byte n })
      else if str_eq node.name queue_tag
      then record patch { sub = seq.set_queue patch.sub (n % 2 ^ 32) }
      else if str_eq node.name exclusive_tag
      then record patch { sub = seq.set_exclusive patch.sub (n % 2 ^ 32) }
      else if str_eq node.name time_update_tag
      then record patch { sub = seq.set_time_update patch.sub (n % 2 ^ 32) }
      else if str_eq node.name time_real_tag
      then record patch { sub = seq.set_time_real patch.sub (n % 2 ^ 32) }
      else patch

  unfoldable pub parse_xml : AlsaPatch Sub → List Element → AlsaPatch Sub
  unfolding parse_child
  parse_xml patch [] = patch
  parse_xml patch (node ∷ nodes) = parse_xml (parse_child patch node) nodes
