-- ===== src/DataSet/RoundTrip/Lists.antt =====
-- The entries of a data set together: a client that writes them, a client that reads them, and the
-- message that the daemon makes of a store.
use gnu_lash.Prelude.{
  ℕ, zero, suc, ◌≡◌, refl, sym, ap, ◌∙◌, ◌≢◌, true, false, Option, none, some, List, [], ◌∷◌, ◌++◌,
  Str, length, arith, In, inl, inr, ◌==◌, if◌then◌else◌, ◌>>=◌,
}
use gnu_lash.Store.Types.{Config, Store}
use gnu_lash.Store.Disk.{Disk, Io}
use gnu_lash.Store.Read.{get_config}
use gnu_lash.DataSet.Types.{Element, Bus}
use gnu_lash.DataSet.Client.{Xdr, Value, Handle, failed, no_data, read, config_read}
use gnu_lash.DataSet.Server.{create_entries}
use gnu_lash.DataSet.RoundTrip.Entry.{element, config_of}
use gnu_lash.DataSet.RoundTrip.Steps.{
  write_entry, write_entry-element, append_dict_entry-stored, config_read-element,
}
use gnu_lash.DataSet.RoundTrip.Commit.{
  append_nil, append_one, names, elements_of, configs_of, AllSaved,
}

-- The handle of a client that is asked to save, and of one that is given a data set.
abbrev pub empty_handle : Handle
empty_handle = record { elements = []; is_read = false; is_whole = true }

abbrev pub loading_handle : List Element → Handle
loading_handle elements = record { elements = elements; is_read = true; is_whole = true }

module _ {D : Type 0} (xdr : Xdr D) (bus : Bus) where
  -- A client that writes these entries, in this order.
  unfoldable pub write_all : Handle → List (Str × Value D) → Handle
  unfolding write_entry
  write_all handle [] = handle
  write_all handle (entry ∷ entries) = write_all (write_entry xdr bus handle entry).0 entries

  -- A client that reads until lash_config_read returns 0. A failure is `none`, as is running out of
  -- rounds.
  unfoldable pub read_all : ℕ → Handle → Option (List (Str × Value D))
  unfolding config_read
  read_all zero handle = none
  read_all (suc rounds) handle =
      let (outcome, handle') = config_read xdr handle in
      let rest = read_all rounds handle' in
      elim outcome [
        | failed ↦ none
        | no_data ↦ some []
        | read key value size ↦
            if size == 0 then some [] else (rest >>= λ entries. some ((key, value) ∷ entries))
      ]

  pub write_all-elements_of :
      (handle : Handle) (entries : List (Str × Value D))
      → AllSaved xdr bus entries
      → handle.is_read ≡ false
      → write_all handle entries
        ≡ record handle { elements = handle.elements ++ elements_of xdr entries }
  unfolding write_all
  write_all-elements_of handle [] saved h =
      ap (λ es. record handle { elements = es }) (sym (append_nil handle.elements))
  write_all-elements_of handle (entry ∷ entries) (one, all) h =
      let first = record handle { elements = handle.elements ++ element xdr entry ∷ [] } in
      ap (λ r. write_all r.0 entries) (write_entry-element xdr bus handle entry one h)
      ∙ write_all-elements_of first entries all h
      ∙ ap (λ es. record handle { elements = es })
          (append_one handle.elements (element xdr entry) (elements_of xdr entries))

  read_all-step :
      (rounds : ℕ) (handle handle' : Handle) (entry : Str × Value D) (size : ℕ)
      (entries : List (Str × Value D))
      → config_read xdr handle ≡ (read entry.0 entry.1 size, handle')
      → size ≢ 0
      → read_all rounds handle' ≡ some entries
      → read_all (suc rounds) handle ≡ some (entry ∷ entries)
  unfolding read_all
  read_all-step rounds handle handle' entry size entries step nonzero rest = ground arith

  pub read_all-elements_of :
      (entries : List (Str × Value D))
      → AllSaved xdr bus entries
      → read_all (suc (length entries)) (loading_handle (elements_of xdr entries)) ≡ some entries
  unfolding read_all
  read_all-elements_of [] saved = unfold config_read in refl
  read_all-elements_of (entry ∷ entries) (one, all) =
      let rest = elements_of xdr entries in
      let (size, nonzero, step) =
        config_read-element xdr bus (loading_handle (element xdr entry ∷ rest)) entry rest one refl
          refl in
      read_all-step (suc (length entries)) (loading_handle (element xdr entry ∷ rest))
        (loading_handle rest) entry size entries step nonzero (read_all-elements_of entries all)

  pub length-elements_of :
      (entries : List (Str × Value D)) → length (elements_of xdr entries) ≡ length entries
  length-elements_of [] = refl
  length-elements_of (entry ∷ entries) = ap suc (length-elements_of entries)

  -- If the store answers for every entry, the array holds all of them.
  pub create_entries-elements_of :
      (io : Io) (disk : Disk) (store : Store) (entries : List (Str × Value D))
      → AllSaved xdr bus entries
      → ((c : Config)
          → In c (configs_of xdr entries)
          → get_config io disk store c.key ≡ some (c.value, c.type))
      → create_entries bus io disk store (names xdr entries) ≡ some (elements_of xdr entries)
  unfolding create_entries config_of
  create_entries-elements_of io disk store [] saved found = refl
  create_entries-elements_of io disk store (entry ∷ entries) (one, all) found =
      let answer : get_config io disk store entry.0
          ≡ some ((config_of xdr entry).value, (config_of xdr entry).type) =
        found (config_of xdr entry) (inl refl) in
      ground (
        arith,
        answer,
        append_dict_entry-stored xdr bus entry one,
        create_entries-elements_of io disk store entries all (λ c m. found c (inr m)),
      )
