-- ===== src/DataSet/RoundTrip/Commit.antt =====
-- The store that the daemon fills from a data set.
use gnu_lash.Prelude.{
  suc, ◌+◌, ◌%◌, ◌^◌, ◌<◌, ◌≡◌, refl, sym, ap, subst, ◌∙◌, true, false, some, List, [], ◌∷◌, ◌++◌,
  Str, length, length-append, is_empty, arith,
}
use gnu_lash.Store.Types.{Config, Store}
use gnu_lash.Store.Memory.{has_key, set_unstored, increment, store_set_config}
use gnu_lash.Store.Memory.SetConfig.{DistinctConfigs, DistinctConfigs-set_unstored}
use gnu_lash.Store.Write.View.{AllStorable}
use gnu_lash.DataSet.Types.{Element, Bus}
use gnu_lash.DataSet.Client.{Xdr, Value}
use gnu_lash.DataSet.Server.{commit_configs}
use gnu_lash.DataSet.RoundTrip.Entry.{element, config_of, IsSaved}
use gnu_lash.DataSet.RoundTrip.Steps.{get_and_set_config-element, config_of-IsStorable}

pub append_nil : {A : Type 0} (xs : List A) → xs ++ [] ≡ xs
append_nil [] = refl
append_nil (x ∷ xs) = ap (◌∷◌ x) (append_nil xs)

pub append_one :
    {A : Type 0} (xs : List A) (y : A) (ys : List A) → (xs ++ y ∷ []) ++ ys ≡ xs ++ y ∷ ys
append_one [] y ys = refl
append_one (x ∷ xs) y ys = ap (◌∷◌ x) (append_one xs y ys)

-- The store with a config under a new key.
with_config : Store → Config → Store
with_config store config = record store {
  num_keys = increment store.num_keys;
  keys = store.keys ++ config.key ∷ [];
  unstored_configs = set_unstored config store.unstored_configs;
}

store_set_config-fresh :
    (store : Store) (config : Config)
    → is_empty config.key ≡ false
    → 0 < length config.value
    → config.type % 256 ≡ config.type
    → has_key config.key store.keys ≡ false
    → store_set_config store (some config.key) (some config.value) config.type
      ≡ (with_config store config, true)
unfolding store_set_config with_config
store_set_config-fresh store config named filled small fresh = ground arith

module _ {D : Type 0} (xdr : Xdr D) where
  abbrev pub names : List (Str × Value D) → List Str
  names [] = []
  names (entry ∷ entries) = entry.0 ∷ names entries

  abbrev pub elements_of : List (Str × Value D) → List Element
  elements_of [] = []
  elements_of (entry ∷ entries) = element xdr entry ∷ elements_of entries

  abbrev pub configs_of : List (Str × Value D) → List Config
  configs_of [] = []
  configs_of (entry ∷ entries) = config_of xdr entry ∷ configs_of entries

  abbrev pub AllSaved : Bus → List (Str × Value D) → Type 0
  AllSaved bus [] = Unit {0}
  AllSaved bus (entry ∷ entries) = IsSaved xdr bus entry × AllSaved bus entries

  -- The key of every entry is new behind those before it.
  abbrev pub AreNew : List (Str × Value D) → List (Str × Value D) → Type 0
  AreNew before [] = Unit {0}
  AreNew before (entry ∷ entries) =
      (has_key entry.0 (names before) ≡ false) × AreNew (before ++ entry ∷ []) entries

  -- The store that holds these entries and nothing else.
  unfoldable pub store_of : List (Str × Value D) → Store
  store_of entries = record {
    num_keys = length entries;
    keys = names entries;
    removed_keys = [];
    unstored_configs = configs_of entries;
  }

  names-append :
      (before : List (Str × Value D)) (entry : Str × Value D)
      → names (before ++ entry ∷ []) ≡ names before ++ entry.0 ∷ []
  names-append [] entry = refl
  names-append (e ∷ before) entry = ap (◌∷◌ e.0) (names-append before entry)

  set_unstored-configs_of :
      (before : List (Str × Value D)) (entry : Str × Value D)
      → has_key entry.0 (names before) ≡ false
      → set_unstored (config_of xdr entry) (configs_of before) ≡ configs_of (before ++ entry ∷ [])
  unfolding set_unstored has_key config_of
  set_unstored-configs_of [] entry h = refl
  set_unstored-configs_of (e ∷ before) entry h =
      ground (arith, set_unstored-configs_of before entry)

  type_of_small :
      (entry : Str × Value D) → (config_of xdr entry).type % 256 ≡ (config_of xdr entry).type
  unfolding config_of
  type_of_small (key, value) = ground arith

  one_more :
      (before : List (Str × Value D)) (entry : Str × Value D)
      → has_key entry.0 (names before) ≡ false
      → suc (length before) < 2 ^ 64
      → with_config (store_of before) (config_of xdr entry) ≡ store_of (before ++ entry ∷ [])
  unfolding store_of with_config increment
  one_more before entry fresh small =
      let n : (length before + 1) % 2 ^ 64 ≡ length (before ++ entry ∷ []) =
        omega (arith, small, length-append before (entry ∷ [])) in
      let key : names before ++ (config_of xdr entry).key ∷ [] ≡ names (before ++ entry ∷ []) =
        unfold config_of in sym (names-append before entry) in
      λ i. record {
        num_keys = n i;
        keys = key i;
        removed_keys = [];
        unstored_configs = set_unstored-configs_of before entry fresh i;
      }

  store_set_config-store_of :
      (bus : Bus) (before : List (Str × Value D)) (entry : Str × Value D)
      → IsSaved xdr bus entry
      → has_key entry.0 (names before) ≡ false
      → suc (length before) < 2 ^ 64
      → let config = config_of xdr entry in
        store_set_config (store_of before) (some config.key) (some config.value) config.type
        ≡ (store_of (before ++ entry ∷ []), true)
  store_set_config-store_of bus before entry saved fresh small =
      store_set_config-fresh (store_of before) (config_of xdr entry) (unfold config_of in saved.0)
        (config_of-IsStorable xdr bus entry saved).nonempty (type_of_small entry)
        (unfold store_of in (unfold config_of in fresh))
      ∙ ap (λ s. (s, true)) (one_more before entry fresh small)

  -- The loop sets every entry.
  pub commit_configs-store_of :
      (bus : Bus) (before entries : List (Str × Value D))
      → AllSaved bus entries
      → AreNew before entries
      → length before + length entries < 2 ^ 64
      → commit_configs (store_of before) (elements_of entries)
        ≡ (store_of (before ++ entries), true)
  unfolding commit_configs
  commit_configs-store_of bus before [] saved new small =
      ap (λ es. (store_of es, true)) (sym (append_nil before))
  commit_configs-store_of bus before (entry ∷ entries) (one, all) (fresh, new) small =
      let step =
        get_and_set_config-element xdr bus (store_of before) entry one
        ∙ store_set_config-store_of bus before entry one fresh (omega (arith, small)) in
      let rest =
        commit_configs-store_of bus (before ++ entry ∷ []) entries all new
          (omega (arith, small, length-append before (entry ∷ []))) in
      rw (step, rest) (ap (λ es. (store_of es, true)) (append_one before entry entries))

  -- That store keeps no two configs for a key.
  pub store_of-DistinctConfigs :
      (bus : Bus) (before entries : List (Str × Value D))
      → AllSaved bus entries
      → AreNew before entries
      → length before + length entries < 2 ^ 64
      → DistinctConfigs (configs_of before)
      → DistinctConfigs (configs_of (before ++ entries))
  store_of-DistinctConfigs bus before [] saved new small distinct = rw (append_nil before) distinct
  store_of-DistinctConfigs bus before (entry ∷ entries) (one, all) (fresh, new) small distinct =
      subst (λ es. DistinctConfigs (configs_of es)) (append_one before entry entries)
        (store_of-DistinctConfigs bus (before ++ entry ∷ []) entries all new
          (omega (arith, small, length-append before (entry ∷ [])))
          (subst DistinctConfigs (set_unstored-configs_of before entry fresh)
            (DistinctConfigs-set_unstored (config_of xdr entry) (configs_of before) distinct)))

  pub configs_of-AllStorable :
      (bus : Bus) (entries : List (Str × Value D))
      → AllSaved bus entries
      → AllStorable (configs_of entries)
  configs_of-AllStorable bus [] saved = tt
  configs_of-AllStorable bus (entry ∷ entries) (one, all) =
      (config_of-IsStorable xdr bus entry one, configs_of-AllStorable bus entries all)
