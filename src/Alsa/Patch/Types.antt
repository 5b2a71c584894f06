-- ===== src/Alsa/Patch/Types.antt =====
-- An ALSA patch: how it is made, copied and turned around.
use gnu_lash.Prelude.{ℕ, Bool, Option, none, some, if◌then◌else◌}
use gnu_lash.Uuid.{Uuid, UuidLib}
use gnu_lash.Alsa.Seq.{Fields, SeqLib}

pub record AlsaPatch (Sub : Type 0) : Type 0 where
  pub sub : Sub
  pub src_id : Uuid
  pub dest_id : Uuid

-- The getters of a flag return 0 or 1.
abbrev pub flag_value : Bool → ℕ
flag_value b = if b then 1 else 0

module _ {Sub : Type 0} (lib : UuidLib) (seq : SeqLib Sub) where
  -- alsa_patch_init and alsa_patch_new
  unfoldable pub patch_new : AlsaPatch Sub
  patch_new = record { sub = seq.fresh; src_id = lib.null; dest_id = lib.null }

  -- alsa_patch_set_sub: the copy, which is not made from a null pointer.
  unfoldable pub set_sub : AlsaPatch Sub → Option Sub → AlsaPatch Sub
  set_sub patch none = patch
  set_sub patch (some sub) = record patch { sub = sub }

  unfoldable pub patch_new_with_sub : Option Sub → AlsaPatch Sub
  unfolding patch_new set_sub
  patch_new_with_sub sub = set_sub patch_new sub

  -- query_to_sub: `scratch` is the static subscription, of which every field is overwritten, and
  -- `query` what the getters return for the query.
  unfoldable pub query_to_sub : Sub → Fields → Sub
  query_to_sub scratch query =
      seq.set_queue
        (seq.set_time_real
          (seq.set_time_update
            (seq.set_exclusive (seq.set_dest (seq.set_sender scratch query.sender) query.dest)
              (flag_value query.exclusive))
            (flag_value query.time_update))
          (flag_value query.time_real))
        query.queue

  unfoldable pub patch_new_with_query : Sub → Fields → AlsaPatch Sub
  unfolding patch_new_with_sub query_to_sub
  patch_new_with_query scratch query = patch_new_with_sub (some (query_to_sub scratch query))

  unfoldable pub patch_dup : AlsaPatch Sub → AlsaPatch Sub
  unfolding patch_new_with_sub
  patch_dup other = record (patch_new_with_sub (some other.sub)) {
    src_id = other.src_id;
    dest_id = other.dest_id;
  }

  unfoldable pub switch_clients : AlsaPatch Sub → AlsaPatch Sub
  switch_clients patch =
      let sender = (seq.fields patch.sub).sender in
      let dest = (seq.fields patch.sub).dest in
      record {
        sub = seq.set_dest (seq.set_sender patch.sub dest) sender;
        src_id = patch.dest_id;
        dest_id = patch.src_id;
      }
