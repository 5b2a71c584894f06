-- ===== src/DataSet/Client.antt =====
-- lash_config_write, lash_config_write_raw and lash_config_read of liblash/lash_config.c. The
-- handle of a client that saves is the message that it fills, and that of a client that loads the
-- rest of the message.
use gnu_lash.Prelude.{
  ℕ, ◌+◌, ◌*◌, ◌^◌, ◌≡◌, Bool, true, false, Option, none, some, List, [], ◌∷◌, ◌++◌, Str, length,
  is_empty, if◌then◌else◌,
}
use gnu_lash.Store.Types.{type_double, type_integer, type_string, type_raw}
use gnu_lash.Store.Encoding.{be32}
use gnu_lash.DataSet.Types.{
  Variant, double, integer, text, byte_array, Element, Bus, append_dict_entry, get_dict_entry,
}

-- xdr_double of the system's library, to and from eight bytes. What is encoded is decoded again.
pub record Xdr (D : Type 0) : Type 0 where
  pub encode : D → Option (List ℕ)
  pub decode : List ℕ → Option D
  pub decode-encode :
      (d : D) (bytes : List ℕ)
      → encode d ≡ some bytes
      → (length bytes ≡ 8) × (decode bytes ≡ some d)

-- A value with its type.
pub data Value (D : Type 0) : Type 0 where
  a_double : D → Value D
  an_integer : ℕ → Value D
  a_string : Str → Value D
  a_raw : List ℕ → Value D
  a_value_of : ℕ → Value D

-- struct _lash_config_handle. `is_whole` says that every entry could be appended: what a message
-- holds after a failure is left to libdbus.
pub record Handle : Type 0 where
  pub elements : List Element
  pub is_read : Bool
  pub is_whole : Bool

-- The last lines of both functions that write.
unfoldable pub append : Bus → Handle → ℕ → Str → List ℕ → Handle × Bool
unfolding append_dict_entry
append bus handle type key value = elim (append_dict_entry bus type key value) [
  | none ↦ (record handle { is_whole = false }, false)
  | some element ↦ (record handle { elements = handle.elements ++ element ∷ [] }, true)
]

module _ {D : Type 0} (xdr : Xdr D) (bus : Bus) where
  -- A null pointer is `none`. A string stands in memory with its terminating NUL.
  unfoldable pub config_write : Handle → Option Str → Option (Value D) → Handle × Bool
  unfolding append be32
  config_write handle none value = (handle, false)
  config_write handle (some key) none = (handle, false)
  config_write handle (some key) (some value) =
      if is_empty key
      then (handle, false)
      else (if handle.is_read then (handle, false) else elim value [
        | a_double d ↦ elim (xdr.encode d) [
          | none ↦ (handle, false)
          | some bytes ↦ append bus handle type_double key bytes
        ]
        | an_integer n ↦ append bus handle type_integer key (be32 n)
        | a_string s ↦ append bus handle type_string key (s ++ 0 ∷ [])
        | a_raw bytes ↦ (handle, false)
        | a_value_of type ↦ (handle, false)
      ])

  -- The buffer is the `size` bytes at the pointer.
  unfoldable pub config_write_raw : Handle → Option Str → Option (List ℕ) → Handle × Bool
  unfolding append
  config_write_raw handle none buffer = (handle, false)
  config_write_raw handle (some key) none = (handle, false)
  config_write_raw handle (some key) (some buffer) =
      if is_empty key
      then (handle, false)
      else (if is_empty buffer
          then (handle, false)
          else (if handle.is_read then (handle, false) else append bus handle type_raw key buffer))

-- What lash_config_read returns: -1, 0 at the end of the message, or the size, with the key and the
-- value that it gives to its caller. The size of an empty array is 0 too.
pub data Outcome (D : Type 0) : Type 0 where
  failed : Outcome D
  no_data : Outcome D
  read : Str → Value D → ℕ → Outcome D

-- ntohl of four bytes in memory
unfoldable pub ntohl : List ℕ → ℕ
ntohl (a ∷ b ∷ c ∷ d ∷ bytes) = a * 2 ^ 24 + b * 2 ^ 16 + c * 2 ^ 8 + d
ntohl bytes = 0

module _ {D : Type 0} (xdr : Xdr D) where
  -- The cases on the type.
  unfoldable pub read_variant : Str → Variant → Outcome D
  unfolding ntohl
  read_variant key (double bytes) = elim (xdr.decode bytes) [
    | none ↦ failed
    | some d ↦ read key (a_double d) 8
  ]
  read_variant key (integer bytes) = read key (an_integer (ntohl bytes)) 4
  read_variant key (text s) = if is_empty s then failed else read key (a_string s) (length s)
  read_variant key (byte_array bytes) = read key (a_raw bytes) (length bytes)
  read_variant key variant = failed

  -- The iterator moves on if the entry could be taken out of the message.
  unfoldable pub config_read : Handle → Outcome D × Handle
  unfolding read_variant get_dict_entry
  config_read handle =
      if handle.is_read
      then elim handle.elements [
        | [] ↦ (no_data, handle)
        | element ∷ rest ↦ elim (get_dict_entry element) [
          | none ↦ (failed, handle)
          | some (key, variant) ↦ (read_variant key variant, record handle { elements = rest })
        ]
      ]
      else (failed, handle)
