-- ===== src/DataSet/RoundTrip/Loaded.antt =====
-- The data set as a whole: a client writes it, the daemon stores it on disk, opens the store again,
-- and sends the data set to the client, which reads it.
use gnu_lash.Prelude.{
  suc, ◌^◌, ◌<◌, ◌≡◌, refl, ap, subst, ◌∙◌, ◌≢◌, Bool, true, false, some, List, [], ◌∷◌, Str,
  str_eq_iff, length, arith, In, inl, inr, ◌>>=◌,
}
use gnu_lash.Tasks.Types.{save_data_set}
use gnu_lash.Store.Types.{Config, Store, store_new}
use gnu_lash.Store.Memory.{get_unstored_config}
use gnu_lash.Store.Memory.SetConfig.{DistinctConfigs}
use gnu_lash.Store.Info.RoundTrip.{AllLines}
use gnu_lash.Store.Disk.{Disk, Io, info_file}
use gnu_lash.Store.Write.{store_write}
use gnu_lash.Store.Read.{get_config, store_open}
use gnu_lash.Store.Read.Reopen.{store_open-store_write}
use gnu_lash.DataSet.Types.{Element, Bus}
use gnu_lash.DataSet.Client.{Xdr, Value, Handle}
use gnu_lash.DataSet.Server.{Side, written, create_config_array, commit_configs, commit_data_set}
use gnu_lash.DataSet.RoundTrip.Entry.{element, config_of}
use gnu_lash.DataSet.RoundTrip.Commit.{
  names, elements_of, configs_of, AllSaved, AreNew, store_of, commit_configs-store_of,
  store_of-DistinctConfigs, configs_of-AllStorable,
}
use gnu_lash.DataSet.RoundTrip.Lists.{
  empty_handle, loading_handle, write_all, read_all, write_all-elements_of, read_all-elements_of,
  create_entries-elements_of, length-elements_of,
}

-- A config that stands in a list without repetition is the one that is found.
get_unstored_config-In :
    (c : Config) (configs : List Config)
    → DistinctConfigs configs
    → In c configs
    → get_unstored_config c.key configs ≡ some c
unfolding get_unstored_config
get_unstored_config-In c [] distinct h = elim h [ ]
get_unstored_config-In c (d ∷ configs) distinct (inl e) = ground (arith, e, str_eq_iff d.key c.key)
get_unstored_config-In c (d ∷ configs) distinct (inr m) =
    ground
      (arith, str_eq_iff d.key c.key, get_unstored_config-In c configs distinct.1 m, distinct.0)

get_config-In :
    (io : Io) (disk : Disk) (store : Store) (c : Config)
    → DistinctConfigs store.unstored_configs
    → In c store.unstored_configs
    → get_config io disk store c.key ≡ some (c.value, c.type)
unfolding get_config
get_config-In io disk store c distinct m =
    rw (get_config, get_unstored_config-In c store.unstored_configs distinct m) refl

-- Every key has a file that can be read, and is no name of the daemon's own.
abbrev pub AllReadable : Io → List Str → Type 0
AllReadable io [] = Unit {0}
AllReadable io (key ∷ keys) = (io.open_ok key ≡ true) × (key ≢ info_file) × AllReadable io keys

AllReadable-In :
    {D : Type 0} (xdr : Xdr D) (io : Io) (c : Config) (entries : List (Str × Value D))
    → AllReadable io (names xdr entries)
    → In c (configs_of xdr entries)
    → (io.open_ok c.key ≡ true) × (c.key ≢ info_file)
AllReadable-In xdr io c [] readable h = elim h [ ]
AllReadable-In xdr io c (entry ∷ entries) readable (inl e) =
    rw e (unfold config_of in (readable.0, readable.1))
AllReadable-In xdr io c (entry ∷ entries) readable (inr m) =
    AllReadable-In xdr io c entries readable.2 m

-- What CommitDataSet leaves on disk if the data set can be set in the client's store.
commit_data_set-disk :
    (io : Io) (side : Side) (element : Element) (elements : List Element) (store store' : Store)
    → side.store ≡ some store
    → side.client.task_type ≡ save_data_set
    → side.client.pending_task ≢ 0
    → commit_configs store (element ∷ elements) ≡ (store', true)
    → let (after, signals, error) =
        commit_data_set io side (some side.client.pending_task) (some (element ∷ elements)) in
      (after.disk ≡ (store_write io side.disk store').0) × (error ≡ false)
unfolding commit_data_set written
commit_data_set-disk io side element elements store store' s t p done =
    ground (arith, s, t, p, done)

module _ {D : Type 0} (xdr : Xdr D) (bus : Bus) where
  counted : (entries : List (Str × Value D)) → length entries ≡ length (names xdr entries)
  counted [] = refl
  counted (entry ∷ entries) = ap suc (counted entries)

  kept :
      (entries : List (Str × Value D))
      → length entries < 2 ^ 64
      → length (names xdr entries) < 2 ^ 64
  kept entries h = omega (arith, h, counted entries)

  -- A store that has the keys of the entries and answers for every one gives them to the client.
  create_config_array-read_all :
      (io : Io) (disk : Disk) (store : Store) (entries : List (Str × Value D))
      → AllSaved xdr bus entries
      → store.keys ≡ names xdr entries
      → ((c : Config)
          → In c (configs_of xdr entries)
          → get_config io disk store c.key ≡ some (c.value, c.type))
      → (create_config_array bus io disk store >>= λ elements.
          read_all xdr bus (suc (length elements)) (loading_handle elements))
        ≡ some entries
  unfolding create_config_array
  create_config_array-read_all io disk store entries saved keys found =
      let made = create_entries-elements_of xdr bus io disk store entries saved found in
      let size : length (elements_of xdr entries) ≡ length entries =
        length-elements_of xdr bus entries in
      rw (create_config_array, keys, made, size) (read_all-elements_of xdr bus entries saved)

  store_open-read_all :
      (io : Io) (disk : Disk) (first : Str × Value D) (others : List (Str × Value D))
      → AllSaved xdr bus (first ∷ others)
      → AreNew xdr [] (first ∷ others)
      → suc (length others) < 2 ^ 64
      → AllLines (names xdr (first ∷ others))
      → AllReadable io (names xdr (first ∷ others))
      → io.open_ok info_file ≡ true
      → (store_write io disk (store_of xdr (first ∷ others))).2 ≡ true
      → let disk' = (store_write io disk (store_of xdr (first ∷ others))).0 in
        let (again, opened) = store_open io disk' store_new in
        (opened ≡ true)
        × ((create_config_array bus io disk' again >>= λ elements.
              read_all xdr bus (suc (length elements)) (loading_handle elements))
            ≡ some (first ∷ others))
  store_open-read_all io disk first others saved new small lines readable info ok =
      let entries = first ∷ others in
      let store = store_of xdr entries in
      let disk' = (store_write io disk store).0 in
      let again = (store_open io disk' store_new).0 in
      let distinct : DistinctConfigs (configs_of xdr entries) =
        store_of-DistinctConfigs xdr bus [] entries saved new (omega (arith, small)) tt in
      let reopen : (key : Str)
          → io.open_ok key ≡ true
          → key ≢ info_file
          → ((store_open io disk' store_new).1 ≡ true)
            × (again.keys ≡ names xdr entries)
            × (get_config io disk' again key ≡ get_config io disk store key) =
        λ key r ne.
          unfold store_of in
          store_open-store_write io disk store key (counted entries) (kept entries small) lines
            distinct (configs_of-AllStorable xdr bus entries saved) refl (λ e. cc e) info r ne ok in
      let (opened, keys, same) = reopen first.0 readable.0 readable.1 in
      (
        opened,
        create_config_array-read_all io disk' again entries saved keys (λ c m.
            let (r, ne) = AllReadable-In xdr io c entries readable m in
            (reopen c.key r ne).2 ∙ unfold store_of in get_config-In io disk store c distinct m),
      )

  -- The client of a project is asked to save its data set, for the first time. It writes entries
  -- whose keys differ, each with a key and a sound value that D-Bus takes, and sends them with
  -- CommitDataSet. If the daemon can write its store, the reply is no error, and the store that is
  -- opened again on the disk gives the client a message from which it reads the same entries in the
  -- same order. No key may hold a newline or be the name of the info file, and the files must be
  -- readable.
  pub commit_data_set-read_all :
      (io : Io) (side : Side) (first : Str × Value D) (others : List (Str × Value D))
      → AllSaved xdr bus (first ∷ others)
      → AreNew xdr [] (first ∷ others)
      → suc (length others) < 2 ^ 64
      → AllLines (names xdr (first ∷ others))
      → AllReadable io (names xdr (first ∷ others))
      → io.open_ok info_file ≡ true
      → side.store ≡ some store_new
      → side.client.task_type ≡ save_data_set
      → side.client.pending_task ≢ 0
      → (store_write io side.disk
          (commit_configs store_new (write_all xdr bus empty_handle (first ∷ others)).elements).0).2
        ≡ true
      → let message = (write_all xdr bus empty_handle (first ∷ others)).elements in
        let (after, signals, error) =
          commit_data_set io side (some side.client.pending_task) (some message) in
        let (again, opened) = store_open io after.disk store_new in
        (error ≡ false)
        × (opened ≡ true)
        × ((create_config_array bus io after.disk again >>= λ elements.
              read_all xdr bus (suc (length elements)) (loading_handle elements))
            ≡ some (first ∷ others))
  commit_data_set-read_all io side first others saved new small lines readable info s t p ok =
      let entries = first ∷ others in
      let message : write_all xdr bus empty_handle entries
          ≡ record empty_handle { elements = elements_of xdr entries } =
        write_all-elements_of xdr bus empty_handle entries saved refl in
      let store = store_of xdr entries in
      let done : commit_configs store_new (elements_of xdr entries) ≡ (store, true) =
        unfold store_new in
        (unfold store_of in
          commit_configs-store_of xdr bus [] entries saved new (omega (arith, small))) in
      let at = ap (λ (h : Handle). h.elements) message in
      let stored : (store_write io side.disk store).2 ≡ true =
        subst (λ s. (store_write io side.disk s).2 ≡ true)
          (ap (λ m. (commit_configs store_new m).0) at ∙ ap (λ (r : Store × Bool). r.0) done) ok in
      let (on_disk, sound) =
        commit_data_set-disk io side (element xdr first) (elements_of xdr others) store_new store s
          t p done in
      let (opened, back) =
        store_open-read_all io side.disk first others saved new small lines readable info stored in
      rw at (sound, rw on_disk opened, rw on_disk back)
