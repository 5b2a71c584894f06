-- ===== src/Jackdbus/Crash.antt =====
-- A connection to a foreign client while an old patch is one to a LASH client.
use gnu_lash.Prelude.{
  ℕ, ◌==◌, ◌≡◌, ◌≢◌, refl, sym, ap, ◌∙◌, Bool, true, false, none, some, List, [], ◌∷◌, Str,
  str_eq_refl, arith, find?,
}
use gnu_lash.Uuid.{Uuid, UuidLib}
use gnu_lash.JackPatch.Types.{JackPatch}
use gnu_lash.JackPatch.ByDescription.{
  reads_null, same_text, same_client, matches, find_by_description,
}
use gnu_lash.Jackdbus.Types.{JackdbusMgr, JackClient, find_by_jackdbus_id}
use gnu_lash.Jackdbus.Reconnect.{end_uuid, get_patch_uuids, del_described, del_old_patch}
use gnu_lash.Jackdbus.Signals.{Ends, connected_at, ports_connected}

pub find?-passes :
    {A : Type 0} (p : A → Bool) (xs : List A) (x : A) → find? p xs ≡ some x → p x ≡ true
find?-passes p [] x h = cc h
find?-passes p (y ∷ ys) x h = ground (arith, find?-passes p ys x)

-- The number of a client that is found.
pub found-jackdbus_id :
    (clients : List JackClient) (id : ℕ) (c : JackClient)
    → find_by_jackdbus_id clients id ≡ some c
    → c.jackdbus_id ≡ id
unfolding find_by_jackdbus_id
found-jackdbus_id clients id c h =
    let same = find?-passes (λ d. d.jackdbus_id == id) clients c h in ground arith

module _ (lib : UuidLib) where
  own_and_foreign :
      (clients : List JackClient) (client : JackClient) (id2 : ℕ)
      → find_by_jackdbus_id clients id2 ≡ none
      → id2 ≢ client.jackdbus_id
      → get_patch_uuids lib clients client client.jackdbus_id id2 ≡ some (some client.id, none)
  unfolding get_patch_uuids end_uuid
  own_and_foreign clients client id2 foreign apart =
      let same : (client.jackdbus_id == client.jackdbus_id) ≡ true = ground arith in
      let other : (id2 == client.jackdbus_id) ≡ false = ground arith in
      rw same (rw other (rw foreign refl))

  reads_dest_client :
      (id : Uuid) (name1 port1 name2 port2 : Str) (patch : JackPatch)
      → patch.src_client_id ≡ id
      → id ≢ lib.null
      → patch.dest_client ≡ none
      → patch.src_port ≡ some port1
      → patch.dest_port ≡ some port2
      → matches lib (some id) name1 port1 none name2 port2 patch ≡ reads_null
  unfolding matches same_text same_client
  reads_dest_client id name1 port1 name2 port2 patch own real by_id p1 p2 =
      let not_null : lib.is_null id ≡ false = ground (arith, lib.is_null_iff id) in
      let same : lib.same id id ≡ true = ground (arith, lib.same_iff id id) in
      rw p1 (
        rw p2 (
          rw (str_eq_refl port1)
            (rw (str_eq_refl port2) (rw own (rw not_null (rw same (rw by_id refl)))))))

  del_old_patch-crash :
      (clients : List JackClient) (client : JackClient) (id2 : ℕ) (name1 port1 name2 port2 : Str)
      (patch : JackPatch) (patches : List JackPatch)
      → find_by_jackdbus_id clients id2 ≡ none
      → id2 ≢ client.jackdbus_id
      → client.old_patches ≡ patch ∷ patches
      → matches lib (some client.id) name1 port1 none name2 port2 patch ≡ reads_null
      → del_old_patch lib clients client client.jackdbus_id name1 port1 id2 name2 port2 ≡ none
  unfolding del_old_patch del_described find_by_description
  del_old_patch-crash clients client id2 name1 port1 name2 port2 patch patches foreign apart old
        null =
      rw (own_and_foreign clients client id2 foreign apart)
        (rw old (rw (null, find_by_description, del_described) refl))

module _ (lib : UuidLib) (mgr : JackdbusMgr) (ends : Ends) (client : JackClient) (patch : JackPatch)
    (patches : List JackPatch) where
  -- Let a client's first old patch be from its port to a port of another LASH client, which it names
  -- by its ID. If a port of JACK with the name of the second one, which belongs to no client of the
  -- manager, is connected to the client's port, then the handler reads through a null pointer.
  pub ports_connected-crash :
      find_by_jackdbus_id mgr.clients ends.id1 ≡ some client
      → find_by_jackdbus_id mgr.clients ends.id2 ≡ none
      → client.old_patches ≡ patch ∷ patches
      → patch.src_client_id ≡ client.id
      → client.id ≢ lib.null
      → patch.dest_client ≡ none
      → patch.src_port ≡ some ends.port1
      → patch.dest_port ≡ some ends.port2
      → ports_connected lib mgr ends ≡ none
  unfolding ports_connected connected_at
  ports_connected-crash known foreign old own real by_id port1 port2 =
      let number = found-jackdbus_id mgr.clients ends.id1 client known in
      let apart : ends.id2 ≢ client.jackdbus_id =
        λ e. cc (known, foreign, ap (find_by_jackdbus_id mgr.clients) (e ∙ number)) in
      let null =
        reads_dest_client lib client.id ends.name1 ends.port1 ends.name2 ends.port2 patch own real
          by_id port1 port2 in
      rw known (
        rw (sym number) (
          rw
            (del_old_patch-crash lib mgr.clients client ends.id2 ends.name1 ends.port1 ends.name2
              ends.port2 patch patches foreign apart old null)
            refl))
