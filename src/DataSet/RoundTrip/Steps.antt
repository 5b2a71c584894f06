-- ===== src/DataSet/RoundTrip/Steps.antt =====
-- The four steps of one entry: written by a client, set in the store, appended for a client, and
-- read by it.
use gnu_lash.Prelude.{
  ℕ, ◌^◌, ◌<◌, ◌≡◌, refl, ◌≢◌, Bool, true, false, some, List, [], ◌∷◌, ◌++◌, Str, length,
  length-append, arith, Option-cases, inl, inr,
}
use gnu_lash.Store.Types.{Store}
use gnu_lash.Store.Encoding.{be32, be32_sum, IsStorable}
use gnu_lash.Store.Memory.{store_set_config}
use gnu_lash.DataSet.Types.{Element, Bus, append_dict_entry, get_dict_entry}
use gnu_lash.DataSet.Client.{
  Xdr, Value, a_double, an_integer, a_string, a_raw, a_value_of, Handle, append, config_write,
  config_write_raw, read, ntohl, read_variant, config_read,
}
use gnu_lash.DataSet.Server.{set_config, get_and_set_config}
use gnu_lash.DataSet.RoundTrip.Entry.{
  wire, stored, type_of, element, config_of, IsSaved, encoded, length-encoded, variant_of-stored,
}

ntohl-be32 : (n : ℕ) → n < 2 ^ 32 → ntohl (be32 n) ≡ n
unfolding ntohl be32
ntohl-be32 n h = be32_sum n h

module _ {D : Type 0} (xdr : Xdr D) where
  -- A client writes raw data by the function for it.
  unfoldable pub write_entry : Bus → Handle → Str × Value D → Handle × Bool
  unfolding config_write config_write_raw
  write_entry bus handle (key, a_raw bytes) =
      config_write_raw xdr bus handle (some key) (some bytes)
  write_entry bus handle (key, value) = config_write xdr bus handle (some key) (some value)

  pub append_dict_entry-stored :
      (bus : Bus) (entry : Str × Value D)
      → IsSaved xdr bus entry
      → append_dict_entry bus (type_of (wire xdr entry.1)) entry.0 (stored (wire xdr entry.1))
        ≡ some (element xdr entry)
  unfolding append_dict_entry element
  append_dict_entry-stored bus entry (named, sound, taken) =
      let e = variant_of-stored xdr bus entry.1 sound in rw (e, append_dict_entry, taken) refl

  append-element :
      (bus : Bus) (handle : Handle) (entry : Str × Value D)
      → IsSaved xdr bus entry
      → append bus handle (type_of (wire xdr entry.1)) entry.0 (stored (wire xdr entry.1))
        ≡ (record handle { elements = handle.elements ++ element xdr entry ∷ [] }, true)
  unfolding append element
  append-element bus handle entry saved =
      let e = append_dict_entry-stored bus entry saved in rw (e, append) refl

  -- A client's write appends the entry.
  pub write_entry-element :
      (bus : Bus) (handle : Handle) (entry : Str × Value D)
      → IsSaved xdr bus entry
      → handle.is_read ≡ false
      → write_entry bus handle entry
        ≡ (record handle { elements = handle.elements ++ element xdr entry ∷ [] }, true)
  unfolding write_entry config_write config_write_raw wire
  write_entry-element bus handle (key, a_double d) saved h = elim (Option-cases (xdr.encode d)) [
    | inl e ↦ elim (saved.1 e) [ ]
    | inr (bytes, e) ↦
        ground (arith, saved.0, h, e, append-element bus handle (key, a_double d) saved)
  ]
  write_entry-element bus handle (key, an_integer n) saved h =
      ground (arith, saved.0, h, append-element bus handle (key, an_integer n) saved)
  write_entry-element bus handle (key, a_string s) saved h =
      ground (arith, saved.0, h, append-element bus handle (key, a_string s) saved)
  write_entry-element bus handle (key, a_raw bytes) saved h =
      ground (arith, saved.0, saved.1.0, h, append-element bus handle (key, a_raw bytes) saved)
  write_entry-element bus handle (key, a_value_of type) saved h = elim saved.1 [ ]

  -- The daemon takes the stored bytes and their type out of the element.
  pub get_and_set_config-element :
      (bus : Bus) (store : Store) (entry : Str × Value D)
      → IsSaved xdr bus entry
      → let config = config_of xdr entry in
        get_and_set_config store (element xdr entry)
        ≡ store_set_config store (some config.key) (some config.value) config.type
  unfolding get_and_set_config get_dict_entry set_config element config_of wire
  get_and_set_config-element bus store (key, a_double d) saved = refl
  get_and_set_config-element bus store (key, an_integer n) saved = refl
  get_and_set_config-element bus store (key, a_string s) saved = refl
  get_and_set_config-element bus store (key, a_raw bytes) saved = refl
  get_and_set_config-element bus store (key, a_value_of type) saved = elim saved.1 [ ]

  -- A client that loads reads the entry, with a size above 0.
  pub config_read-element :
      (bus : Bus) (handle : Handle) (entry : Str × Value D) (elements : List Element)
      → IsSaved xdr bus entry
      → handle.is_read ≡ true
      → handle.elements ≡ element xdr entry ∷ elements
      → (size : ℕ) × (size ≢ 0)
        × (config_read xdr handle
            ≡ (read entry.0 entry.1 size, record handle { elements = elements }))
  unfolding config_read get_dict_entry read_variant element wire
  config_read-element bus handle (key, a_double d) elements saved r e =
      (8, omega arith, ground (arith, (xdr.decode-encode d _ (encoded xdr d saved.1)).1))
  config_read-element bus handle (key, an_integer n) elements saved r e =
      (4, omega arith, ground (arith, ntohl-be32 n saved.1))
  config_read-element bus handle (key, a_string s) elements saved r e =
      (length s, ground (arith, saved.1.0), ground (arith, saved.1.0))
  config_read-element bus handle (key, a_raw bytes) elements saved r e =
      (length bytes, ground (arith, saved.1.0), ground arith)
  config_read-element bus handle (key, a_value_of type) elements saved r e = elim saved.1 [ ]

  -- The config can be written to disk and read again.
  pub config_of-IsStorable :
      (bus : Bus) (entry : Str × Value D) → IsSaved xdr bus entry → IsStorable (config_of xdr entry)
  unfolding config_of wire be32
  config_of-IsStorable bus (key, a_double d) saved = record {
    nonempty = omega (arith, length-encoded xdr d saved.1);
    small = omega (arith, length-encoded xdr d saved.1);
    known_type = refl;
  }
  config_of-IsStorable bus (key, an_integer n) saved = record {
    nonempty = omega arith;
    small = omega arith;
    known_type = refl;
  }
  config_of-IsStorable bus (key, a_string s) saved = record {
    nonempty = omega (arith, length-append s (0 ∷ []));
    small = omega (arith, length-append s (0 ∷ []), saved.1.2);
    known_type = refl;
  }
  config_of-IsStorable bus (key, a_raw bytes) saved = record {
    nonempty = ground (arith, saved.1.0);
    small = saved.1.1;
    known_type = refl;
  }
  config_of-IsStorable bus (key, a_value_of type) saved = elim saved.1 [ ]
