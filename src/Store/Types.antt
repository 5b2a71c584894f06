-- ===== src/Store/Types.antt =====
-- The structures of lashd/store.c and lashd/store.h. A list is the sequence of its entries, and
-- the buffer of a config is the `value_size` bytes that are in use.
use gnu_lash.Prelude.{ℕ, List, [], Str}

-- struct _store_config
pub record Config : Type 0 where
  pub key : Str
  pub value : List ℕ
  pub type : ℕ

-- struct _store, without its directory
pub record Store : Type 0 where
  pub num_keys : ℕ
  pub keys : List Str
  pub removed_keys : List Str
  pub unstored_configs : List Config

-- store_new
unfoldable pub store_new : Store
store_new = record { num_keys = 0; keys = []; removed_keys = []; unstored_configs = [] }

-- The constants LASH_TYPE_DOUBLE, _INTEGER, _STRING and _RAW of lash/types.h.
abbrev pub type_double : ℕ
type_double = b'd'

abbrev pub type_integer : ℕ
type_integer = b'u'

abbrev pub type_string : ℕ
type_string = b's'

abbrev pub type_raw : ℕ
type_raw = b'-'
