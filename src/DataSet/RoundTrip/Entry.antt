-- ===== src/DataSet/RoundTrip/Entry.antt =====
-- One entry of a data set: as a client writes it, as it stands in a message and in the store, and as
-- a client reads it. The client is any program that uses liblash/lash_config.c.
use gnu_lash.Prelude.{
  ℕ, ◌+◌, ◌^◌, ◌<◌, ◌≡◌, refl, sym, ap, ◌∙◌, ◌≢◌, true, false, Option, none, some, List, [], ◌∷◌,
  ◌++◌, Str, length, is_empty, arith, Option-cases, inl, inr,
}
use gnu_lash.AppDb.Parse.{c_string}
use gnu_lash.Store.Types.{Config, type_double, type_integer, type_string, type_raw}
use gnu_lash.Store.Encoding.{be32}
use gnu_lash.DataSet.Types.{
  Variant, double, integer, text, byte_array, other, Element, dict_entry, Bus, variant_of,
  first_bytes,
}
use gnu_lash.DataSet.Client.{Xdr, Value, a_double, an_integer, a_string, a_raw, a_value_of}

-- No byte is NUL.
abbrev pub NoNul : Str → Type 0
NoNul [] = Unit {0}
NoNul (c ∷ s) = (c ≢ 0) × NoNul s

abbrev bytes_or_none : Option (List ℕ) → List ℕ
bytes_or_none none = []
bytes_or_none (some bytes) = bytes

-- The type of a stored variant, and its bytes in the store.
abbrev pub type_of : Variant → ℕ
type_of (double bytes) = type_double
type_of (integer bytes) = type_integer
type_of (text s) = type_string
type_of variant = type_raw

abbrev pub stored : Variant → List ℕ
stored (double bytes) = bytes
stored (integer bytes) = bytes
stored (text s) = s ++ 0 ∷ []
stored (byte_array bytes) = bytes
stored variant = []

module _ {D : Type 0} (xdr : Xdr D) where
  -- How a value stands in a message.
  unfoldable pub wire : Value D → Variant
  wire (a_double d) = double (bytes_or_none (xdr.encode d))
  wire (an_integer n) = integer (be32 n)
  wire (a_string s) = text s
  wire (a_raw bytes) = byte_array bytes
  wire (a_value_of type) = other type

  -- A value that can be saved and loaded: a number that has an encoding, a nonempty string, or at
  -- least one byte, and shorter than 2^32.
  abbrev pub IsSound : Value D → Type 0
  IsSound (a_double d) = xdr.encode d ≢ none
  IsSound (an_integer n) = n < 2 ^ 32
  IsSound (a_string s) = (is_empty s ≡ false) × NoNul s × (length s + 1 < 2 ^ 32)
  IsSound (a_raw bytes) = (is_empty bytes ≡ false) × (length bytes < 2 ^ 32)
  IsSound (a_value_of type) = ⊥

  unfoldable pub element : Str × Value D → Element
  element entry = dict_entry (some entry.0) (some (wire entry.1))

  unfoldable pub config_of : Str × Value D → Config
  config_of entry = record {
    key = entry.0;
    value = stored (wire entry.1);
    type = type_of (wire entry.1);
  }

  -- The entry has a key and a sound value, and D-Bus takes it.
  abbrev pub IsSaved : Bus → Str × Value D → Type 0
  IsSaved bus entry =
      (is_empty entry.0 ≡ false) × IsSound entry.1 × (bus.takes entry.0 (wire entry.1) ≡ true)

  pub encoded : (d : D) → xdr.encode d ≢ none → xdr.encode d ≡ some (bytes_or_none (xdr.encode d))
  encoded d h = elim (Option-cases (xdr.encode d)) [
    | inl e ↦ elim (h e) [ ]
    | inr (bytes, e) ↦ rw e refl
  ]

  pub length-encoded : (d : D) → xdr.encode d ≢ none → length (bytes_or_none (xdr.encode d)) ≡ 8
  length-encoded d h = (xdr.decode-encode d _ (encoded d h)).0

  c_string-append : (s rest : Str) → NoNul s → c_string (s ++ 0 ∷ rest) ≡ s
  unfolding c_string
  c_string-append [] rest h = refl
  c_string-append (c ∷ s) rest h = ground (arith, c_string-append s rest)

  pub append_assoc_one : (s rest : List ℕ) → (s ++ 0 ∷ []) ++ rest ≡ s ++ 0 ∷ rest
  append_assoc_one [] rest = refl
  append_assoc_one (c ∷ s) rest = ap (◌∷◌ c) (append_assoc_one s rest)

  first_bytes-append : (bytes rest : List ℕ) → first_bytes (length bytes) (bytes ++ rest) ≡ bytes
  unfolding first_bytes
  first_bytes-append [] rest = refl
  first_bytes-append (b ∷ bytes) rest = ap (◌∷◌ b) (first_bytes-append bytes rest)

  -- What the daemon makes of the stored bytes is what the client had sent.
  pub variant_of-stored :
      (bus : Bus) (value : Value D)
      → IsSound value
      → variant_of bus (type_of (wire value)) (stored (wire value)) ≡ some (wire value)
  unfolding variant_of wire
  variant_of-stored bus (a_double d) h =
      let bytes = bytes_or_none (xdr.encode d) in
      ap (λ b. some (double b))
        (ap (λ n. first_bytes n (bytes ++ bus.behind bytes)) (sym (length-encoded d h))
          ∙ first_bytes-append bytes (bus.behind bytes))
  variant_of-stored bus (an_integer n) h = unfold first_bytes in (unfold be32 in refl)
  variant_of-stored bus (a_string s) h =
      let rest = bus.behind (s ++ 0 ∷ []) in
      ap (λ t. some (text t)) (ap c_string (append_assoc_one s rest) ∙ c_string-append s rest h.1)
  variant_of-stored bus (a_raw bytes) h = refl
  variant_of-stored bus (a_value_of type) h = elim h [ ]
