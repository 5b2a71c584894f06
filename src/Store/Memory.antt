-- ===== src/Store/Memory.antt =====
-- store_set_config and store_get_unstored_config of lashd/store.c.
pub mod SetConfig
use gnu_lash.Prelude.{
  ℕ, ◌+◌, ◌%◌, ◌^◌, Bool, true, false, Option, none, some, List, [], ◌∷◌, ◌++◌, Str, str_eq, find?,
  is_empty, if◌then◌else◌,
}
use gnu_lash.Store.Types.{Config, Store}

-- The search loops over the key list and over the config list.
unfoldable pub has_key : Str → List Str → Bool
has_key k [] = false
has_key k (name ∷ names) = if str_eq name k then true else has_key k names

unfoldable pub get_unstored_config : Str → List Config → Option Config
get_unstored_config k configs = find? (λ c. str_eq c.key k) configs

-- The first config with the key is overwritten; if there is none, a new one goes to the end.
unfoldable pub set_unstored : Config → List Config → List Config
set_unstored new [] = new ∷ []
set_unstored new (c ∷ configs) =
    if str_eq c.key new.key then new ∷ configs else c ∷ set_unstored new configs

-- ++store->num_keys, an unsigned long
unfoldable pub increment : ℕ → ℕ
increment n = (n + 1) % 2 ^ 64

-- A null pointer is `none`; `value` holds the `size` bytes at the pointer.
unfoldable pub store_set_config : Store → Option Str → Option (List ℕ) → ℕ → Store × Bool
unfolding has_key set_unstored increment
store_set_config store none value type = (store, false)
store_set_config store (some key_name) none type = (store, false)
store_set_config store (some key_name) (some value) type =
    if is_empty key_name
    then (store, false)
    else (if is_empty value
        then (store, false)
        else (let new : Config = record { key = key_name; value = value; type = type % 256 } in
            let known = has_key key_name store.keys in
            (
              record store {
                keys = if known then store.keys else store.keys ++ key_name ∷ [];
                num_keys = if known then store.num_keys else increment store.num_keys;
                unstored_configs = set_unstored new store.unstored_configs;
              },
              true,
            )))
