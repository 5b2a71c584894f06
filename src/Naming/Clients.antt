-- ===== src/Naming/Clients.antt =====
-- The name of a new client: free, short enough for its buffer, and found while there are fewer
-- than a hundred names.
use gnu_lash.Prelude.{
  ℕ, zero, suc, ◌+◌, ◌<◌, ◌≤◌, ◌≡◌, refl, sym, subst, inl, inr, Option, none, some, List, ◌∷◌, ◌++◌,
  Str, In, length, arith, Option-cases,
}
use gnu_lash.Naming.Distinct.{NoRepeats, length-NoRepeats}
use gnu_lash.Naming.{
  NamedClient, get_client_by_name, numbered, try_numbers, unique_client_name, name_client,
  new_client,
}
use gnu_lash.Naming.Candidates.{
  names_of, taken, numbered_from, get_client_by_name-none, get_client_by_name-some, length-numbered,
  length-numbered_from, class-not-In-numbered_from, NoRepeats-numbered_from,
}

module _ (clients lost_clients : List NamedClient) (class_name : Str) where
  abbrev find : Str → Option NamedClient
  find = get_client_by_name clients lost_clients

  try_numbers-none :
      (n i : ℕ)
      → try_numbers clients lost_clients class_name n i ≡ none
      → (z : Str) → In z (numbered_from class_name n i)
      → In z (taken clients lost_clients)
  unfolding try_numbers
  try_numbers-none zero i e z m = absurd m
  try_numbers-none (suc n) i e z m = elim (Option-cases (find (numbered class_name i))) [
    | inl q ↦ absurd (ground arith)
    | inr (c, q) ↦ elim m [
      | inl here ↦
          subst (λ s. In s (taken clients lost_clients)) (sym here)
            (get_client_by_name-some clients lost_clients (numbered class_name i) (ground arith))
      | inr later ↦ try_numbers-none n (suc i) (ground arith) z later
    ]
  ]

  try_numbers-some :
      (n i : ℕ) (s : Str)
      → try_numbers clients lost_clients class_name n i ≡ some s
      → n + i ≤ 100
      → (find s ≡ none) × (length s ≤ length class_name + 3)
  unfolding try_numbers
  try_numbers-some zero i s e h = absurd (ground arith)
  try_numbers-some (suc n) i s e h = elim (Option-cases (find (numbered class_name i))) [
    | inl q ↦
        let here : numbered class_name i ≡ s = ground arith in
        subst (λ t. (find t ≡ none) × (length t ≤ length class_name + 3)) here
          (q, length-numbered class_name i (omega arith))
    | inr (c, q) ↦ try_numbers-some n (suc i) s (ground arith) (omega arith)
  ]

  -- A name that project_get_unique_client_name gives is no other client's name, and fits, with its
  -- terminating NUL, the strlen (class) + 4 bytes of its buffer.
  unique_client_name-fresh :
      (s : Str)
      → unique_client_name clients lost_clients class_name ≡ some s
      → (¬ In s (taken clients lost_clients)) × (length s + 1 ≤ length class_name + 4)
  unfolding unique_client_name
  unique_client_name-fresh s e = elim (Option-cases (find class_name)) [
    | inl q ↦
        let here : class_name ≡ s = ground arith in
        subst (λ t. (¬ In t (taken clients lost_clients)) × (length t + 1 ≤ length class_name + 4))
          here (get_client_by_name-none clients lost_clients class_name q, omega arith)
    | inr (c, q) ↦
        let (free, short) = try_numbers-some 99 1 s (ground arith) (omega arith) in
        (get_client_by_name-none clients lost_clients s free, omega arith)
  ]

  -- While fewer than a hundred names are taken, project_get_unique_client_name finds one.
  unique_client_name-found :
      length (taken clients lost_clients) < 100
      → (s : Str) × (unique_client_name clients lost_clients class_name ≡ some s)
  unfolding unique_client_name
  unique_client_name-found h =
      elim (Option-cases (unique_client_name clients lost_clients class_name)) [
        | inr r ↦ r
        | inl none_left ↦ elim (Option-cases (find class_name)) [
          | inl q ↦ absurd (ground arith)
          | inr (c, q) ↦
              let candidates = class_name ∷ numbered_from class_name 99 1 in
              let first = get_client_by_name-some clients lost_clients class_name (ground arith) in
              let others = try_numbers-none 99 1 (ground arith) in
              let many =
                length-NoRepeats candidates (taken clients lost_clients)
                  (
                    class-not-In-numbered_from class_name 99 1,
                    NoRepeats-numbered_from class_name 99 1,
                  )
                  (λ z m. elim m [
                    | inl here ↦ subst (λ s. In s (taken clients lost_clients)) (sym here) first
                    | inr m' ↦ others z m'
                  ]) in
              absurd (omega (arith, many, length-numbered_from class_name 99 1))
        ]
      ]

-- If no two clients of a project have one name, and fewer than a hundred names are taken, then
-- project_new_client of a client that has no name yet leaves no two clients with one name.
pub new_client-NoRepeats :
    (clients lost_clients : List NamedClient) (client : NamedClient)
    → client.name ≡ none
    → NoRepeats (taken clients lost_clients)
    → length (taken clients lost_clients) < 100
    → NoRepeats (taken (new_client clients lost_clients client) lost_clients)
unfolding new_client name_client
new_client-NoRepeats clients lost_clients client unnamed h few =
    let before : names_of (client ∷ clients) ≡ names_of clients = rw unnamed refl in
    let (s, e) =
      unique_client_name-found (client ∷ clients) lost_clients client.class_name (rw unnamed few) in
    let fresh = unique_client_name-fresh (client ∷ clients) lost_clients client.class_name s e in
    rw e (subst (λ ns. ¬ In s (ns ++ names_of lost_clients)) before fresh.0, h)
