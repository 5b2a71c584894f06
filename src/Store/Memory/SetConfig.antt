-- ===== src/Store/Memory/SetConfig.antt =====
-- What store_set_config keeps, and what it makes the store answer.
use gnu_lash.Prelude.{
  ℕ, suc, ◌%◌, ◌^◌, ◌<◌, ◌≡◌, refl, ◌⊎◌, true, false, Option, none, some, List, [], ◌∷◌, ◌++◌, Str,
  str_eq, str_eq_iff, arith, length, length-append, is_empty, if◌then◌else◌,
}
use gnu_lash.Store.Types.{Config, Store}
use gnu_lash.Store.Memory.{has_key, get_unstored_config, set_unstored, increment, store_set_config}

-- No key stands twice.
abbrev pub DistinctNames : List Str → Type 0
DistinctNames [] = Unit {0}
DistinctNames (k ∷ ks) = (has_key k ks ≡ false) × DistinctNames ks

-- No two configs have one key.
abbrev pub DistinctConfigs : List Config → Type 0
DistinctConfigs [] = Unit {0}
DistinctConfigs (c ∷ cs) = (get_unstored_config c.key cs ≡ none) × DistinctConfigs cs

-- Every unstored config is listed among the keys, and has a value.
abbrev pub AllListed : List Str → List Config → Type 0
AllListed keys [] = Unit {0}
AllListed keys (c ∷ cs) =
    (has_key c.key keys ≡ true) × (is_empty c.value ≡ false) × AllListed keys cs

pub record IsValid (store : Store) : Type 0 where
  pub counted : store.num_keys ≡ length store.keys
  pub distinct_keys : DistinctNames store.keys
  pub distinct_configs : DistinctConfigs store.unstored_configs
  pub listed : AllListed store.keys store.unstored_configs

has_key-append :
    (k n : Str) (ks : List Str)
    → has_key k (ks ++ n ∷ []) ≡ (if has_key k ks then true else str_eq n k)
unfolding has_key
has_key-append k n [] = ground arith
has_key-append k n (x ∷ ks) = ground (arith, has_key-append k n ks)

DistinctNames-append :
    (n : Str) (ks : List Str)
    → has_key n ks ≡ false
    → DistinctNames ks
    → DistinctNames (ks ++ n ∷ [])
unfolding has_key
DistinctNames-append n [] h d = (refl, tt)
DistinctNames-append n (x ∷ ks) h d =
    ground (arith, DistinctNames-append n ks, has_key-append x n ks, str_eq_iff x n, str_eq_iff n x)

pub get_unstored_config-set_unstored :
    (new : Config) (cs : List Config) (k : Str)
    → get_unstored_config k (set_unstored new cs)
      ≡ (if str_eq new.key k then some new else get_unstored_config k cs)
unfolding get_unstored_config set_unstored
get_unstored_config-set_unstored new [] k = refl
get_unstored_config-set_unstored new (c ∷ cs) k = ground (
  arith,
  get_unstored_config-set_unstored new cs k,
  str_eq_iff c.key new.key,
  str_eq_iff new.key k,
  str_eq_iff c.key k,
)

pub DistinctConfigs-set_unstored :
    (new : Config) (cs : List Config) → DistinctConfigs cs → DistinctConfigs (set_unstored new cs)
unfolding set_unstored
DistinctConfigs-set_unstored new [] d = (unfold get_unstored_config in refl, tt)
DistinctConfigs-set_unstored new (c ∷ cs) d = ground (
  arith,
  DistinctConfigs-set_unstored new cs,
  get_unstored_config-set_unstored new cs c.key,
  str_eq_iff c.key new.key,
  str_eq_iff new.key c.key,
)

AllListed-append :
    (n : Str) (ks : List Str) (cs : List Config) → AllListed ks cs → AllListed (ks ++ n ∷ []) cs
AllListed-append n ks [] h = tt
AllListed-append n ks (c ∷ cs) h =
    ground (arith, has_key-append c.key n ks, AllListed-append n ks cs)

AllListed-set_unstored :
    (new : Config) (ks : List Str) (cs : List Config)
    → has_key new.key ks ≡ true
    → is_empty new.value ≡ false
    → AllListed ks cs
    → AllListed ks (set_unstored new cs)
unfolding set_unstored
AllListed-set_unstored new ks [] k v h = (k, v, tt)
AllListed-set_unstored new ks (c ∷ cs) k v h = ground (arith, AllListed-set_unstored new ks cs)

length-increment :
    (store : Store) (k : Str)
    → suc (length store.keys) < 2 ^ 64
    → store.num_keys ≡ length store.keys
    → increment store.num_keys ≡ length (store.keys ++ k ∷ [])
unfolding increment
length-increment store k h e = rw e (omega (arith, length-append store.keys (k ∷ [])))

-- store_set_config keeps a valid store valid, whether it accepts its arguments or refuses them, as
-- long as the number of keys fits an unsigned long.
pub store_set_config-IsValid :
    (store : Store) (key_name : Option Str) (value : Option (List ℕ)) (type : ℕ)
    → IsValid store
    → suc (length store.keys) < 2 ^ 64
    → IsValid (store_set_config store key_name value type).0
unfolding store_set_config
store_set_config-IsValid store none value type v h = v
store_set_config-IsValid store (some k) none type v h = v
store_set_config-IsValid store (some k) (some bytes) type v h =
    let new : Config = record { key = k; value = bytes; type = type % 256 } in
    let all = store.keys ++ k ∷ [] in
    ground (
      arith,
      length-increment store k h,
      DistinctNames-append k store.keys,
      DistinctConfigs-set_unstored new store.unstored_configs,
      has_key-append k k store.keys,
      str_eq_iff k k,
      AllListed-set_unstored new store.keys store.unstored_configs,
      AllListed-set_unstored new all store.unstored_configs,
      AllListed-append k store.keys store.unstored_configs,
    )

-- store_set_config accepts its arguments exactly if there are a nonempty key and at least one byte.
-- Then that key is listed, the unstored config under it is the new one, and those under other keys
-- are as before; if it refuses, the store is unchanged.
pub store_set_config_lem :
    (store : Store) (k other : Str) (bytes : List ℕ) (type : ℕ)
    → let (store', accepted) = store_set_config store (some k) (some bytes) type in
      ((accepted ≡ true)
        × (is_empty k ≡ false)
        × (is_empty bytes ≡ false)
        × (has_key k store'.keys ≡ true)
        × (get_unstored_config other store'.unstored_configs ≡ (
            if str_eq k other
            then some (record { key = k; value = bytes; type = type % 256 })
            else get_unstored_config other store.unstored_configs)))
      ⊎ ((accepted ≡ false) × ((is_empty k ≡ true) ⊎ (is_empty bytes ≡ true)) × (store' ≡ store))
unfolding store_set_config
store_set_config_lem store k other bytes type =
    let new : Config = record { key = k; value = bytes; type = type % 256 } in
    ground (
      arith,
      has_key-append k k store.keys,
      str_eq_iff k k,
      get_unstored_config-set_unstored new store.unstored_configs other,
    )
