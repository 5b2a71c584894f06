-- ===== src/DataSet/Types.antt =====
-- The entries of a data set in a D-Bus message, and the two functions of dbus/method.c that append
-- one and take one out. libdbus copies a number bit by bit, so a number is the bytes that it has in
-- memory, at its sender as at its receiver.
use gnu_lash.Prelude.{
  ℕ, zero, suc, Bool, Option, none, some, List, [], ◌∷◌, ◌++◌, Str, ◌==◌, if◌then◌else◌,
}
use gnu_lash.Store.Types.{type_double, type_integer, type_string, type_raw}
use gnu_lash.AppDb.Parse.{c_string}

-- What a variant holds: a double, a uint32_t, a string, an array of bytes, another array, another
-- value of the type with that code, or nothing.
pub data Variant : Type 0 where
  double : List ℕ → Variant
  integer : List ℕ → Variant
  text : Str → Variant
  byte_array : List ℕ → Variant
  other_array : Variant
  other : ℕ → Variant
  nothing : Variant

-- An element of the array: a dict entry with its key and its variant, each `none` where the entry
-- has something of another type in its place, or no dict entry.
pub data Element : Type 0 where
  dict_entry : Option Str → Option Variant → Element
  no_entry : Element

-- What libdbus and the memory decide: whether the message takes a dict entry with this key and
-- this variant, and what stands in memory behind a buffer.
pub record Bus : Type 0 where
  pub takes : Str → Variant → Bool
  pub behind : List ℕ → List ℕ

-- The first bytes of a list.
unfoldable pub first_bytes : ℕ → List ℕ → List ℕ
first_bytes zero bytes = []
first_bytes (suc n) [] = []
first_bytes (suc n) (b ∷ bytes) = b ∷ first_bytes n bytes

-- The variant that method_iter_append_variant and method_iter_append_variant_raw make of a buffer.
-- A number or a string is read from the memory, however long the buffer is; `none` stands for the
-- types that neither a client nor the store passes.
unfoldable pub variant_of : Bus → ℕ → List ℕ → Option Variant
unfolding first_bytes c_string
variant_of bus type value =
    let memory = value ++ bus.behind value in
    if type == type_raw
    then some (byte_array value)
    else (if type == type_double
        then some (double (first_bytes 8 memory))
        else (if type == type_integer
            then some (integer (first_bytes 4 memory))
            else (if type == type_string then some (text (c_string memory)) else none)))

-- method_iter_append_dict_entry: the new entry, or `none` where the function returns false.
unfoldable pub append_dict_entry : Bus → ℕ → Str → List ℕ → Option Element
unfolding variant_of
append_dict_entry bus type key value = elim (variant_of bus type value) [
  | none ↦ none
  | some variant ↦
      if bus.takes key variant then some (dict_entry (some key) (some variant)) else none
]

-- method_iter_get_dict_entry: the key and the variant, or `none` where the function returns false.
unfoldable pub get_dict_entry : Element → Option (Str × Variant)
get_dict_entry no_entry = none
get_dict_entry (dict_entry none variant) = none
get_dict_entry (dict_entry (some key) none) = none
get_dict_entry (dict_entry (some key) (some nothing)) = none
get_dict_entry (dict_entry (some key) (some other_array)) = none
get_dict_entry (dict_entry (some key) (some variant)) = some (key, variant)
