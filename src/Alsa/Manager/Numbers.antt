-- ===== src/Alsa/Manager/Numbers.antt =====
-- The numbers of clients and of foreign ports, and what the operations on the lists do to them.
use gnu_lash.Prelude.{
  ℕ, ◌==◌, ◌≡◌, refl, ap, inl, inr, none, some, List, [], ◌∷◌, ◌++◌, map, find?, find?-append, In,
  Bool-cases, arith,
}
use gnu_lash.Uuid.{Uuid, UuidLib}
use gnu_lash.Alsa.Client.{AlsaClient}
use gnu_lash.Alsa.Manager.Types.{Fport, get_client, put_client, delete_client}
use gnu_lash.Alsa.Manager.Registry.{delete_fport}

abbrev pub fport_numbers : List Fport → List ℕ
fport_numbers [] = []
fport_numbers (f ∷ fs) = f.client ∷ fport_numbers fs

abbrev pub Disjoint : List ℕ → List ℕ → Type 0
Disjoint xs ys = (n : ℕ) → In n xs → ¬ (In n ys)

pub fport_numbers-append :
    (fs gs : List Fport) → fport_numbers (fs ++ gs) ≡ fport_numbers fs ++ fport_numbers gs
fport_numbers-append [] gs = refl
fport_numbers-append (f ∷ fs) gs = ap (λ r. f.client ∷ r) (fport_numbers-append fs gs)

pub In-delete_fport :
    (n client port : ℕ) (fs : List Fport)
    → In n (fport_numbers (delete_fport client port fs))
    → In n (fport_numbers fs)
unfolding delete_fport
In-delete_fport n client port [] h = h
In-delete_fport n client port (f ∷ fs) h = ground (arith, In-delete_fport n client port fs)

module _ {Sub : Type 0} where
  abbrev pub numbers : List (AlsaClient Sub) → List ℕ
  numbers [] = []
  numbers (c ∷ cs) = c.client_id ∷ numbers cs

  pub numbers-append :
      (cs ds : List (AlsaClient Sub)) → numbers (cs ++ ds) ≡ numbers cs ++ numbers ds
  numbers-append [] ds = refl
  numbers-append (c ∷ cs) ds = ap (λ r. c.client_id ∷ r) (numbers-append cs ds)

  pub numbers-map :
      (change : AlsaClient Sub → AlsaClient Sub)
      → ((c : AlsaClient Sub) → (change c).client_id ≡ c.client_id)
      → (cs : List (AlsaClient Sub)) → numbers (map change cs) ≡ numbers cs
  numbers-map change same [] = refl
  numbers-map change same (c ∷ cs) = rw (same c, numbers-map change same cs) refl

  -- A number that no client has.
  pub In-find? :
      (n : ℕ) (cs : List (AlsaClient Sub))
      → find? (λ (c : AlsaClient Sub). c.client_id == n) cs ≡ none
      → ¬ (In n (numbers cs))
  In-find? n [] e h = h
  In-find? n (c ∷ cs) e h = ground (arith, In-find? n cs, h)

module _ {Sub : Type 0} (lib : UuidLib) where
  pub numbers-put_client :
      (cs : List (AlsaClient Sub)) (id : Uuid) (change : AlsaClient Sub → AlsaClient Sub)
      → ((c : AlsaClient Sub) → (change c).client_id ≡ c.client_id)
      → numbers (put_client lib cs id change) ≡ numbers cs
  unfolding put_client
  numbers-put_client [] id change same = refl
  numbers-put_client (c ∷ cs) id change same = elim (Bool-cases (lib.same c.id id)) [
    | inl e ↦ rw (e, same c) refl
    | inr e ↦ rw (e, numbers-put_client cs id change same) refl
  ]

  pub In-delete_client :
      (n : ℕ) (cs : List (AlsaClient Sub)) (id : Uuid)
      → In n (numbers (delete_client lib cs id))
      → In n (numbers cs)
  unfolding delete_client
  In-delete_client n [] id h = h
  In-delete_client n (c ∷ cs) id h = ground (arith, In-delete_client n cs id)

  -- A client that is appended is found if no client before it has its ID.
  pub get_client-append :
      (cs : List (AlsaClient Sub)) (c : AlsaClient Sub)
      → get_client lib cs c.id ≡ none
      → get_client lib (cs ++ (c ∷ [])) c.id ≡ some c
  unfolding get_client
  get_client-append cs c h =
      find?-append (λ (d : AlsaClient Sub). lib.same d.id c.id) cs c h
        ((lib.same_iff c.id c.id).1 refl)
