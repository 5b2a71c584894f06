-- ===== src/Naming/Projects.antt =====
-- The name of a new project: free, short enough for its buffer, and found unless about 10^9 names
-- are taken.
use gnu_lash.Prelude.{
  ℕ, zero, suc, ◌+◌, ◌<◌, ◌≤◌, ◌≡◌, subst, inl, inr, Bool, true, false, Option, none, some, List,
  [], ◌∷◌, Str, str_eq_iff, In, length, length-append, is_empty, ltb, ◌==◌, arith, Bool-cases,
  Option-cases, decimal,
}
use gnu_lash.Naming.Digits.{length-decimal}
use gnu_lash.Naming.{
  find_project_by_name, is_free, project_name, try_names, default_name, rounds,
  create_new_project_name,
}

find_project_by_name-none :
    (loaded : List Str) (s : Str) → find_project_by_name loaded s ≡ none → ¬ In s loaded
unfolding find_project_by_name
find_project_by_name-none [] s e m = m
find_project_by_name-none (n ∷ ns) s e m =
    ground (arith, str_eq_iff n s, find_project_by_name-none ns s)

module _ (loaded : List Str) (on_disk : Str → Bool) where
  -- No loaded project has the name, and no project on disk.
  abbrev pub IsFree : Str → Type 0
  IsFree s = (¬ In s loaded) × (on_disk s ≡ false)

  is_free-IsFree : (s : Str) → is_free loaded on_disk s ≡ true → IsFree s
  unfolding is_free
  is_free-IsFree s e = elim (Option-cases (find_project_by_name loaded s)) [
    | inl q ↦ (find_project_by_name-none loaded s q, ground arith)
    | inr (n, q) ↦ absurd (ground arith)
  ]

  length-project_name :
      (s : Str) (i : ℕ) → i < 1000000000 → length (project_name s i) ≤ length s + 10
  unfolding project_name
  length-project_name s i h =
      omega (arith, length-append s (b' ' ∷ decimal i), length-decimal 8 i h)

  found_first :
      (suggestion s found : Str)
      → s ≡ found
      → is_free loaded on_disk s ≡ true
      → length s ≤ length suggestion + 10
      → IsFree found × (length found ≤ length suggestion + 10)
  found_first suggestion s found here q short =
      subst (λ t. IsFree t × (length t ≤ length suggestion + 10)) here (is_free-IsFree s q, short)

  try_names-some :
      (suggestion : Str) (n i : ℕ) (s found : Str)
      → try_names loaded on_disk suggestion n i s ≡ some found
      → n + i ≤ 1000000001
      → length s ≤ length suggestion + 10
      → IsFree found × (length found ≤ length suggestion + 10)
  unfolding try_names
  try_names-some suggestion zero i s found e h short = absurd (ground arith)
  try_names-some suggestion (suc zero) i s found e h short =
      elim (Bool-cases (is_free loaded on_disk s)) [
        | inl q ↦ found_first suggestion s found (ground arith) q short
        | inr q ↦ absurd (ground arith)
      ]
  try_names-some suggestion (suc (suc n)) i s found e h short =
      elim (Bool-cases (is_free loaded on_disk s)) [
        | inl q ↦ found_first suggestion s found (ground arith) q short
        | inr q ↦
            try_names-some suggestion (suc n) (suc i) (project_name suggestion i) found
              (ground arith) (omega arith) (length-project_name suggestion i (omega arith))
      ]

  try_names-none :
      (suggestion : Str) (n i : ℕ) (s : Str)
      → try_names loaded on_disk suggestion (suc n) i s ≡ none
      → (is_free loaded on_disk s ≡ false)
        × ((j : ℕ) → i ≤ j → j < i + n → is_free loaded on_disk (project_name suggestion j) ≡ false)
  unfolding try_names
  try_names-none suggestion zero i s e = (ground arith, λ j h k. absurd (omega arith))
  try_names-none suggestion (suc n) i s e = elim (Bool-cases (is_free loaded on_disk s)) [
    | inl q ↦ absurd (ground arith)
    | inr q ↦
        let (first, rest) =
          try_names-none suggestion n (suc i) (project_name suggestion i) (ground arith) in
        (
          q,
          λ j h k. elim (Bool-cases (j == i)) [
            | inl same ↦
                subst (λ m. is_free loaded on_disk (project_name suggestion m) ≡ false)
                  (ground arith) first
            | inr other ↦ rest j (ground arith) (omega arith)
          ],
        )
  ]

  default-IsFree :
      (found : Str)
      → try_names loaded on_disk default_name rounds 2 default_name ≡ some found
      → IsFree found × (length found + 1 ≤ 1034)
  default-IsFree found e =
      let (free, short) =
        try_names-some default_name rounds 2 default_name found e (omega arith) (omega arith) in
      (free, omega arith)

  -- A name that server_create_new_project_name gives is that of no loaded project and of none on
  -- disk, and fits, with its terminating NUL, the 1034 bytes of its buffer.
  pub create_new_project_name-IsFree :
      (suggestion : Option Str) (found : Str)
      → create_new_project_name loaded on_disk suggestion ≡ some found
      → IsFree found × (length found + 1 ≤ 1034)
  unfolding create_new_project_name
  create_new_project_name-IsFree none found e = default-IsFree found e
  create_new_project_name-IsFree (some s) found e = elim (Bool-cases (is_empty s)) [
    | inl q ↦ default-IsFree found (ground arith)
    | inr q ↦ elim (Bool-cases (ltb 1023 (length s))) [
      | inl long ↦ absurd (ground arith)
      | inr fits ↦
          let (free, short) =
            try_names-some s rounds 2 s found (ground arith) (omega arith) (omega arith) in
          (free, ground arith)
    ]
  ]

  -- For a suggestion, server_create_new_project_name fails only if that is longer than 1023
  -- bytes, or if it and the names made from it with the numbers 2 to 999999999 are all taken.
  create_new_project_name-none :
      (c : ℕ) (t : Str) (j : ℕ)
      → create_new_project_name loaded on_disk (some (c ∷ t)) ≡ none
      → length (c ∷ t) ≤ 1023
      → 2 ≤ j
      → j ≤ 999999999
      → (is_free loaded on_disk (c ∷ t) ≡ false)
        × (is_free loaded on_disk (project_name (c ∷ t) j) ≡ false)
  unfolding create_new_project_name
  create_new_project_name-none c t j e short low high =
      let fits : ltb 1023 (length (c ∷ t)) ≡ false = ground arith in
      let (first, rest) = try_names-none (c ∷ t) 999999998 2 (c ∷ t) (ground arith) in
      (first, rest j low (omega arith))
