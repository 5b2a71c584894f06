-- ===== src/Alsa/Patch/Xml/RoundTrip.antt =====
-- An ALSA patch that is written to a project file is read back.
use gnu_lash.Prelude.{◌<◌, ◌≡◌, refl, ap, ◌∙◌, decimal, if◌then◌else◌}
use gnu_lash.Uuid.{UuidLib}
use gnu_lash.Xml.{XmlLib, IsPlain}
use gnu_lash.Alsa.Seq.{Fields, SeqLib}
use gnu_lash.Alsa.Patch.Types.{AlsaPatch, patch_new, flag_value}
use gnu_lash.Alsa.Patch.Xml.{
  child, client_child, create_xml, parse_child, parse_xml, queue_tag, exclusive_tag,
  time_update_tag,
}
use gnu_lash.JackPatch.Xml.{
  src_client_tag, src_client_id_tag, src_port_tag, dest_client_tag, dest_client_id_tag,
  dest_port_tag,
}
use gnu_lash.Alsa.Patch.Xml.Elements.{
  view, put_src_port, put_dest_port, put_queue, put_exclusive, put_time_update, put_time_real,
  put_dest, parse-src, parse-src_port, parse-dest, parse-dest_port, parse-queue, parse-exclusive,
  parse-time_update, parse-time_real,
}

-- The addresses and the queue fit their bytes.
pub record InRange (f : Fields) : Type 0 where
  pub sender_client : f.sender.client < 256
  pub sender_port : f.sender.port < 256
  pub dest_client : f.dest.client < 256
  pub dest_port : f.dest.port < 256
  pub queue : f.queue < 256

module _ {Sub : Type 0} (lib : UuidLib) (xml : XmlLib) (seq : SeqLib Sub) where
  -- A client that has an ID is known by that alone: its number is that of a fresh subscription.
  abbrev pub forget_numbers : AlsaPatch Fields → AlsaPatch Fields
  forget_numbers v =
      let new = seq.fields seq.fresh in
      record v {
        sub = record v.sub {
          sender = record v.sub.sender {
            client = if lib.is_null v.src_id then v.sub.sender.client else new.sender.client;
          };
          dest = record v.sub.dest {
            client = if lib.is_null v.dest_id then v.sub.dest.client else new.dest.client;
          };
        };
      }

  -- Parsing the XML of an ALSA patch into a new patch gives a patch with the same ports, queue,
  -- flags and IDs, and the same client number at each end without an ID. The numbers must be bytes,
  -- and the printed IDs free of ampersands.
  pub view-parse_xml :
      (patch : AlsaPatch Sub)
      → InRange (seq.fields patch.sub)
      → IsPlain (lib.unparse patch.src_id)
      → IsPlain (lib.unparse patch.dest_id)
      → view lib xml seq (parse_xml lib xml seq (patch_new lib seq) (create_xml lib xml seq patch))
        ≡ forget_numbers (view lib xml seq patch)
  unfolding parse_xml create_xml
  view-parse_xml patch r plain_src plain_dest =
      let f = seq.fields patch.sub in
      let read = parse_child lib xml seq in
      let p0 = patch_new lib seq in
      let n1 = client_child lib xml seq src_client_tag src_client_id_tag patch.src_id f.sender in
      let p1 = read p0 n1 in
      let p2 = read p1 (child lib xml seq src_port_tag (decimal f.sender.port)) in
      let n3 = client_child lib xml seq dest_client_tag dest_client_id_tag patch.dest_id f.dest in
      let p3 = read p2 n3 in
      let p4 = read p3 (child lib xml seq dest_port_tag (decimal f.dest.port)) in
      let p5 = read p4 (child lib xml seq queue_tag (decimal f.queue)) in
      let p6 = read p5 (child lib xml seq exclusive_tag (decimal (flag_value f.exclusive))) in
      let p7 = read p6 (child lib xml seq time_update_tag (decimal (flag_value f.time_update))) in
      let e1 =
        parse-src lib xml seq p0 patch.src_id f.sender r.sender_client plain_src
          (unfold patch_new in refl) in
      let e2 = parse-src_port lib xml seq p1 f.sender.port r.sender_port in
      let no_id : p2.dest_id ≡ lib.null =
        ap (λ (v : AlsaPatch Fields). v.dest_id) e2
        ∙ ap (λ (v : AlsaPatch Fields). v.dest_id) e1
        ∙ unfold patch_new in refl in
      let e3 = parse-dest lib xml seq p2 patch.dest_id f.dest r.dest_client plain_dest no_id in
      let e4 = parse-dest_port lib xml seq p3 f.dest.port r.dest_port in
      let e5 = parse-queue lib xml seq p4 f.queue r.queue in
      let e6 = parse-exclusive lib xml seq p5 f.exclusive in
      let e7 = parse-time_update lib xml seq p6 f.time_update in
      parse-time_real lib xml seq p7 f.time_real
      ∙ ap (put_time_real f.time_real) (
          e7
          ∙ ap (put_time_update f.time_update) (
              e6
              ∙ ap (put_exclusive f.exclusive) (
                  e5
                  ∙ ap (put_queue f.queue) (
                      e4
                      ∙ ap (put_dest_port f.dest.port) (
                          e3
                          ∙ ap (put_dest lib xml seq patch.dest_id f.dest)
                              (e2 ∙ ap (put_src_port f.sender.port) e1))))))
      ∙ unfold patch_new in refl
