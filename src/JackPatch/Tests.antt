-- ===== src/JackPatch/Tests.antt =====
-- The patch theorems at work: a client with the ID 5 is connected to the system's ports.
use gnu_lash.Prelude.{In, ◌≡◌, refl, true, inl, inr, none, some, List, [], ◌∷◌, codes, arith}
use gnu_lash.Uuid.Sample.{sample}
use gnu_lash.Xml.{XmlLib}
use gnu_lash.JackPatch.Types.{
  JackPatch, patch_new, patch_dup, set_descs, set_src_desc, set_dest_desc, description,
}
use gnu_lash.JackPatch.Xml.{create_xml, parse_xml}
use gnu_lash.JackPatch.Xml.RoundTrip.{forget_named, IsWritable, parse_xml-create_xml}
use gnu_lash.JackPatch.ByDescription.{id_or, name_or, new_with_all}
use gnu_lash.JackPatch.Manager.{MgrClient, patch_set, patch_unset}
use gnu_lash.JackPatch.Manager.Names.{ProperIds, entries_of, patch_unset-patch_set}

-- Every text is kept as it is.
abbrev plain_xml : XmlLib
plain_xml = record { content_of = λ s. s; content_of-plain = λ s h. refl }

abbrev synth_to_system : JackPatch
synth_to_system = record {
  src_client = none;
  src_port = some (codes "out_1");
  dest_client = some (codes "system");
  dest_port = some (codes "playback_1");
  src_desc = some (5 ∷ codes ":out_1");
  dest_desc = some (codes "system:playback_1");
  src_client_id = 5;
  dest_client_id = 0;
}

synth_to_system-IsWritable : IsWritable sample plain_xml synth_to_system
synth_to_system-IsWritable = record {
  src_port = ground arith;
  dest_port = ground arith;
  src_client = inl refl;
  dest_client = inr (ground arith);
  src_id = ground arith;
  dest_id = ground arith;
}

parse_xml-create_xml_example :
    parse_xml sample plain_xml (patch_new sample) (create_xml sample plain_xml synth_to_system)
    ≡ patch_dup sample (forget_named sample plain_xml synth_to_system)
parse_xml-create_xml_example =
    parse_xml-create_xml sample plain_xml synth_to_system synth_to_system-IsWritable

made_new :
    new_with_all sample
      (some 5)
      none
      (some (codes "synth"))
      (some (codes "system"))
      (some (codes "out_1"))
      (some (codes "playback_1"))
    ≡ some synth_to_system
unfolding new_with_all id_or name_or set_descs set_src_desc set_dest_desc description patch_new
made_new = refl

abbrev synth_by_name : JackPatch
synth_by_name = record synth_to_system { src_client = some (codes "synth"); src_client_id = 0 }

abbrev jack_clients : List MgrClient
jack_clients =
    record { id = 9; name = codes "system" } ∷ record { id = 5; name = codes "synth" } ∷ []

jack_clients-ProperIds : ProperIds sample jack_clients
jack_clients-ProperIds = ground arith

patch_unset-patch_set_example :
    (p : JackPatch) × (q : JackPatch) × (patch_set synth_by_name jack_clients ≡ some p)
    × In (p.src_client_id, codes "synth") (entries_of jack_clients)
    × In (p.dest_client_id, codes "system") (entries_of jack_clients)
    × (patch_unset sample
          (record p { src_client = none; dest_client = none; src_desc = none; dest_desc = none })
          jack_clients
        ≡ some (q, true))
    × (q.src_client ≡ some (codes "synth"))
    × (q.dest_client ≡ some (codes "system"))
    × (q.src_desc ≡ some (codes "synth:out_1"))
    × (q.dest_desc ≡ some (codes "system:playback_1"))
patch_unset-patch_set_example =
    patch_unset-patch_set sample synth_by_name jack_clients (codes "synth") (codes "system")
      (codes "out_1") (codes "playback_1") none none none none jack_clients-ProperIds refl refl refl
      refl (inr (inl refl)) (inl refl)
