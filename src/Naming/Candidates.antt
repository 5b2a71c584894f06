-- ===== src/Naming/Candidates.antt =====
-- The names that project_get_unique_client_name tries, and those that are taken.
use gnu_lash.Prelude.{
  ℕ, zero, suc, ◌+◌, ◌<◌, ◌≤◌, ◌≡◌, refl, sym, ap, ◌∙◌, ◌≢◌, inl, inr, none, some, List, [], ◌∷◌,
  ◌++◌, Str, str_eq_iff, In, In-append_left, In-append_right, In-append_cases, length,
  length-append, arith, Option-cases, scan_digits, scan_digits-decimal,
}
use gnu_lash.Naming.Distinct.{NoRepeats}
use gnu_lash.Naming.Digits.{length-decimal}
use gnu_lash.Naming.{NamedClient, client_find_by_name, get_client_by_name, two_digits, numbered}

-- The names that are set.
abbrev pub names_of : List NamedClient → List Str
names_of [] = []
names_of (c ∷ cs) = elim c.name [ none ↦ names_of cs | some n ↦ n ∷ names_of cs ]

abbrev pub taken : List NamedClient → List NamedClient → List Str
taken clients lost_clients = names_of clients ++ names_of lost_clients

client_find_by_name-none :
    (clients : List NamedClient) (s : Str)
    → client_find_by_name clients s ≡ none
    → ¬ In s (names_of clients)
unfolding client_find_by_name
client_find_by_name-none [] s e m = m
client_find_by_name-none (c ∷ cs) s e m = elim (Option-cases c.name) [
  | inl q ↦ ground (arith, client_find_by_name-none cs s)
  | inr (n, q) ↦ ground (arith, str_eq_iff n s, client_find_by_name-none cs s)
]

client_find_by_name-some :
    (clients : List NamedClient) (s : Str)
    → client_find_by_name clients s ≢ none
    → In s (names_of clients)
unfolding client_find_by_name
client_find_by_name-some [] s e = absurd (e refl)
client_find_by_name-some (c ∷ cs) s e = elim (Option-cases c.name) [
  | inl q ↦ ground (arith, client_find_by_name-some cs s)
  | inr (n, q) ↦ ground (arith, str_eq_iff n s, client_find_by_name-some cs s)
]

pub get_client_by_name-none :
    (clients lost_clients : List NamedClient) (s : Str)
    → get_client_by_name clients lost_clients s ≡ none
    → ¬ In s (taken clients lost_clients)
unfolding get_client_by_name
get_client_by_name-none clients lost_clients s e m = ground (
  arith,
  client_find_by_name-none clients s,
  client_find_by_name-none lost_clients s,
  In-append_cases s (names_of clients) (names_of lost_clients) m,
)

pub get_client_by_name-some :
    (clients lost_clients : List NamedClient) (s : Str)
    → get_client_by_name clients lost_clients s ≢ none
    → In s (taken clients lost_clients)
unfolding get_client_by_name
get_client_by_name-some clients lost_clients s e =
    elim (Option-cases (client_find_by_name clients s)) [
      | inr (c, q) ↦
          In-append_left s (names_of clients) (names_of lost_clients)
            (client_find_by_name-some clients s (ground arith))
      | inl q ↦
          In-append_right s (names_of clients) (names_of lost_clients)
            (client_find_by_name-some lost_clients s (ground arith))
    ]

pub length-numbered :
    (class_name : Str) (i : ℕ) → i < 100 → length (numbered class_name i) ≤ length class_name + 3
unfolding numbered two_digits
length-numbered class_name i h =
    ground (
      arith,
      length-append class_name (b' ' ∷ two_digits i),
      length-decimal 0 i,
      length-decimal 1 i,
    )

two_digits_value : (i : ℕ) → scan_digits 0 (two_digits i ++ []) ≡ (i, [])
unfolding two_digits scan_digits
two_digits_value i = ground (arith, scan_digits-decimal i [] tt)

append_cancel : (xs ys zs : Str) → xs ++ ys ≡ xs ++ zs → ys ≡ zs
append_cancel [] ys zs e = e
append_cancel (x ∷ xs) ys zs e = append_cancel xs ys zs (ground arith)

numbered_injective :
    (class_name : Str) (i j : ℕ) → numbered class_name i ≡ numbered class_name j → i ≡ j
unfolding numbered
numbered_injective class_name i j e =
    let same : two_digits i ≡ two_digits j =
      append_cancel (b' ' ∷ []) (two_digits i) (two_digits j)
        (append_cancel class_name (b' ' ∷ two_digits i) (b' ' ∷ two_digits j) e) in
    ap (λ (r : ℕ × Str). r.0)
      (sym (two_digits_value i) ∙ ap (λ s. scan_digits 0 (s ++ [])) same ∙ two_digits_value j)

abbrev pub numbered_from : Str → ℕ → ℕ → List Str
numbered_from class_name zero i = []
numbered_from class_name (suc n) i = numbered class_name i ∷ numbered_from class_name n (suc i)

pub length-numbered_from : (class_name : Str) (n i : ℕ) → length (numbered_from class_name n i) ≡ n
length-numbered_from class_name zero i = refl
length-numbered_from class_name (suc n) i = ap suc (length-numbered_from class_name n (suc i))

not-In-numbered_from :
    (class_name : Str) (k n i : ℕ)
    → k < i
    → ¬ In (numbered class_name k) (numbered_from class_name n i)
not-In-numbered_from class_name k zero i h m = m
not-In-numbered_from class_name k (suc n) i h (inl q) =
    omega (arith, numbered_injective class_name k i q)
not-In-numbered_from class_name k (suc n) i h (inr m) =
    not-In-numbered_from class_name k n (suc i) (omega arith) m

pub class-not-In-numbered_from :
    (class_name : Str) (n i : ℕ) → ¬ In class_name (numbered_from class_name n i)
class-not-In-numbered_from class_name zero i m = m
class-not-In-numbered_from class_name (suc n) i (inl q) =
    let longer = length-append class_name (b' ' ∷ two_digits i) in
    let same : length class_name ≡ length (class_name ++ b' ' ∷ two_digits i) =
      ap length q ∙ unfold numbered in refl in
    omega (arith, longer, same)
class-not-In-numbered_from class_name (suc n) i (inr m) =
    class-not-In-numbered_from class_name n (suc i) m

pub NoRepeats-numbered_from :
    (class_name : Str) (n i : ℕ) → NoRepeats (numbered_from class_name n i)
NoRepeats-numbered_from class_name zero i = tt
NoRepeats-numbered_from class_name (suc n) i = (
  not-In-numbered_from class_name i n (suc i) (omega arith),
  NoRepeats-numbered_from class_name n (suc i),
)
