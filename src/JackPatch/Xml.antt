-- ===== src/JackPatch/Xml.antt =====
-- jack_patch_create_xml and jack_patch_parse_xml.
pub mod RoundTrip
use gnu_lash.Prelude.{Bool, Option, none, some, List, [], ◌∷◌, Str, codes, str_eq, if◌then◌else◌}
use gnu_lash.Uuid.{Uuid, UuidLib}
use gnu_lash.Xml.{Element, XmlLib}
use gnu_lash.JackPatch.Types.{JackPatch, patch_new, set_descs}

abbrev pub src_client_tag : Str
src_client_tag = codes "src_client"

abbrev pub src_client_id_tag : Str
src_client_id_tag = codes "src_client_id"

abbrev pub src_port_tag : Str
src_port_tag = codes "src_port"

abbrev pub dest_client_tag : Str
dest_client_tag = codes "dest_client"

abbrev pub dest_client_id_tag : Str
dest_client_id_tag = codes "dest_client_id"

abbrev pub dest_port_tag : Str
dest_port_tag = codes "dest_port"

module _ (lib : UuidLib) (xml : XmlLib) where
  -- xmlNewChild; a null content makes an empty element.
  unfoldable pub new_child : Str → Option Str → Element
  new_child name none = record { name = name; content = [] }
  new_child name (some content) = record { name = name; content = xml.content_of content }

  -- A client that has an ID is written by its ID, and by its name otherwise.
  unfoldable pub src_child : JackPatch → Element
  src_child patch =
      if lib.is_null patch.src_client_id
      then new_child src_client_tag patch.src_client
      else new_child src_client_id_tag (some (lib.unparse patch.src_client_id))

  unfoldable pub dest_child : JackPatch → Element
  dest_child patch =
      if lib.is_null patch.dest_client_id
      then new_child dest_client_tag patch.dest_client
      else new_child dest_client_id_tag (some (lib.unparse patch.dest_client_id))

  -- The children of the "jack_patch" element.
  unfoldable pub create_xml : JackPatch → List Element
  create_xml patch =
      src_child patch
      ∷ new_child src_port_tag patch.src_port
      ∷ dest_child patch
      ∷ new_child dest_port_tag patch.dest_port
      ∷ []

  -- A well-formed ID replaces the client's name; any other is ignored.
  set_src_id : JackPatch → Option Uuid → JackPatch
  set_src_id patch none = patch
  set_src_id patch (some id) = record patch { src_client_id = id; src_client = none }

  set_dest_id : JackPatch → Option Uuid → JackPatch
  set_dest_id patch none = patch
  set_dest_id patch (some id) = record patch { dest_client_id = id; dest_client = none }

  -- One round of the loop of jack_patch_parse_xml.
  pub parse_child : JackPatch → Element → JackPatch
  unfolding set_src_id set_dest_id
  parse_child patch node =
      if str_eq node.name src_client_tag
      then record patch { src_client = some node.content }
      else (if str_eq node.name src_client_id_tag
          then set_src_id patch (lib.parse node.content)
          else (if str_eq node.name src_port_tag
              then record patch { src_port = some node.content }
              else (if str_eq node.name dest_client_tag
                  then record patch { dest_client = some node.content }
                  else (if str_eq node.name dest_client_id_tag
                      then set_dest_id patch (lib.parse node.content)
                      else (if str_eq node.name dest_port_tag
                          then record patch { dest_port = some node.content }
                          else patch)))))

  pub parse_children : JackPatch → List Element → JackPatch
  unfolding parse_child
  parse_children patch [] = patch
  parse_children patch (node ∷ nodes) = parse_children (parse_child patch node) nodes

  unfoldable pub parse_xml : JackPatch → List Element → Option JackPatch
  parse_xml patch nodes = set_descs lib (parse_children patch nodes)
