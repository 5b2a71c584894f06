-- ===== src/Alsa/Patch/Ids.antt =====
-- alsa_patch_set, which notes the IDs of the clients at the two ends, and alsa_patch_unset, which
-- finds their numbers again.
use gnu_lash.Prelude.{
  ℕ, ◌+◌, ◌≡◌, refl, ap, ◌∙◌, false, Option, none, some, List, ◌==◌, find?, if◌then◌else◌,
}
use gnu_lash.Uuid.{Uuid, UuidLib}
use gnu_lash.Alsa.Seq.{Addr, Fields, SeqLib}
use gnu_lash.Alsa.Patch.Types.{AlsaPatch}
use gnu_lash.Alsa.Client.{AlsaClient}

module _ {Sub : Type 0} (lib : UuidLib) (seq : SeqLib Sub) where
  -- alsa_patch_set_client_id: the ID that the patch has afterwards.
  unfoldable pub set_client_id : List (AlsaClient Sub) → ℕ → Uuid → Uuid
  set_client_id clients number id = elim (find? (λ c. c.client_id == number) clients) [
    | none ↦ id
    | some client ↦ client.id
  ]

  unfoldable pub patch_set : AlsaPatch Sub → List (AlsaClient Sub) → AlsaPatch Sub
  unfolding set_client_id
  patch_set patch clients =
      let f = seq.fields patch.sub in
      record patch {
        src_id = set_client_id clients f.sender.client patch.src_id;
        dest_id = set_client_id clients f.dest.client patch.dest_id;
      }

  -- alsa_patch_unset_client_id, with the two functions for the end as arguments: the subscription
  -- and the result, which is 1 if no client has the ID.
  unfoldable pub unset_client_id :
      Sub → List (AlsaClient Sub) → Uuid → (Fields → Addr) → (Sub → Addr → Sub) → Sub × ℕ
  unset_client_id sub clients id get set = elim (find? (λ c. lib.same id c.id) clients) [
    | none ↦ (sub, 1)
    | some client ↦
        (set sub (record { client = client.client_id; port = (get (seq.fields sub)).port }), 0)
  ]

  -- The block for one end: nothing is done for the null ID.
  unfoldable pub unset_end :
      Sub → List (AlsaClient Sub) → Uuid → (Fields → Addr) → (Sub → Addr → Sub) → Sub × ℕ
  unfolding unset_client_id
  unset_end sub clients id get set =
      if lib.is_null id then (sub, 0) else unset_client_id sub clients id get set

  -- alsa_patch_unset: the patch, and how many ends were not found.
  unfoldable pub patch_unset : AlsaPatch Sub → List (AlsaClient Sub) → AlsaPatch Sub × ℕ
  unfolding unset_end
  patch_unset patch clients =
      let (sub, missing) =
        unset_end patch.sub clients patch.src_id (λ f. f.sender) seq.set_sender in
      let (sub', missing') = unset_end sub clients patch.dest_id (λ f. f.dest) seq.set_dest in
      (record patch { sub = sub' }, missing + missing')

  -- The client with a number has an ID, under which a later list knows a client by another number.
  pub record Moved (before after : List (AlsaClient Sub)) (number number' : ℕ) : Type 0 where
    pub earlier_client : AlsaClient Sub
    pub later_client : AlsaClient Sub
    pub found : find? (λ (c : AlsaClient Sub). c.client_id == number) before ≡ some earlier_client
    pub proper : lib.is_null earlier_client.id ≡ false
    pub found_again :
        find? (λ (c : AlsaClient Sub). lib.same earlier_client.id c.id) after ≡ some later_client
    pub number_after : later_client.client_id ≡ number'

  module _ {before after : List (AlsaClient Sub)} {number number' : ℕ}
      (m : Moved before after number number') where
    set_client_id-found : (id : Uuid) → set_client_id before number id ≡ m.earlier_client.id
    unfolding set_client_id
    set_client_id-found id =
        ap (λ (r : Option (AlsaClient Sub)). elim r [ none ↦ id | some client ↦ client.id ]) m.found

    unset_end-found :
        (sub : Sub) (get : Fields → Addr) (set : Sub → Addr → Sub)
        → unset_end sub after m.earlier_client.id get set
          ≡ (set sub (record { client = number'; port = (get (seq.fields sub)).port }), 0)
    unfolding unset_end
    unset_end-found sub get set = rw m.proper (
        ap
          (λ (r : Option (AlsaClient Sub)). elim r [
            | none ↦ (sub, 1)
            | some client ↦ (
              set sub (record { client = client.client_id; port = (get (seq.fields sub)).port }),
              0,
            )
          ])
          m.found_again
        ∙ rw m.number_after refl)

  -- If the IDs of both ends of a patch are noted while the clients have their old numbers, and taken
  -- back when the clients with these IDs have new ones, then the patch connects the same ports of the
  -- same clients by their new numbers, with its queue and flags unchanged, and no end is missing.
  pub fields-patch_unset :
      (patch : AlsaPatch Sub) (before after : List (AlsaClient Sub)) (src dest : ℕ)
      → Moved before after (seq.fields patch.sub).sender.client src
      → Moved before after (seq.fields patch.sub).dest.client dest
      → let (restored, missing) = patch_unset (patch_set patch before) after in
        (missing ≡ 0)
        × (seq.fields restored.sub ≡ record (seq.fields patch.sub) {
          sender = record (seq.fields patch.sub).sender { client = src };
          dest = record (seq.fields patch.sub).dest { client = dest };
        })
  unfolding patch_set patch_unset
  fields-patch_unset patch before after src dest m n =
      rw
        (
          set_client_id-found m patch.src_id,
          set_client_id-found n patch.dest_id,
          unset_end-found m patch.sub (λ f. f.sender) seq.set_sender,
          unset_end-found n _ (λ f. f.dest) seq.set_dest,
          seq.set_dest_lem,
          seq.set_sender_lem,
        )
        (refl, refl)
