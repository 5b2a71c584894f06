-- ===== src/Liblash/Args/Compact.antt =====
-- The arguments that lash_extract_args leaves are those that it does not take out, in their order.
use gnu_lash.Prelude.{
  ℕ, zero, suc, ◌+◌, ◌-◌, ◌≤◌, ◌≡◌, refl, sym, ap, ◌∙◌, subst, Bool, true, false, Option, none,
  some, List, [], ◌∷◌, ◌++◌, Str, length, length-append, ◌||◌, ◌⊎◌, codes, Bool-cases, arith, inl,
  inr, if◌then◌else◌,
}
use gnu_lash.Liblash.Args.{
  Flags, is_prefix, is_prefix_nocase, take_out, mark, shift, shift_from, is_null_at, compact,
  extract_args,
}

abbrev pub take : ℕ → List (Option Str) → List (Option Str)
take zero xs = []
take (suc n) [] = []
take (suc n) (x ∷ xs) = x ∷ take n xs

-- The entries that are not NULL.
abbrev pub present : List (Option Str) → List (Option Str)
present [] = []
present (none ∷ xs) = present xs
present (some s ∷ xs) = some s ∷ present xs

length-shift : (xs : List (Option Str)) → length (shift xs) ≡ length xs
unfolding shift
length-shift [] = refl
length-shift (x ∷ []) = refl
length-shift (x ∷ y ∷ xs) = ap suc (length-shift (y ∷ xs))

take-shift :
    (n : ℕ) (x : Option Str) (xs : List (Option Str))
    → n ≤ length xs
    → take n (shift (x ∷ xs)) ≡ take n xs
unfolding shift
take-shift zero x xs h = refl
take-shift (suc n) x [] h = absurd (omega (arith, h))
take-shift (suc n) x (y ∷ xs) h = ap (λ r. y ∷ r) (take-shift n y xs (omega (arith, h)))

shift_from-append : (xs ys : List (Option Str)) → shift_from (length xs) (xs ++ ys) ≡ xs ++ shift ys
unfolding shift_from
shift_from-append [] ys = refl
shift_from-append (x ∷ xs) ys = ap (λ r. x ∷ r) (shift_from-append xs ys)

is_null_at-append :
    (xs : List (Option Str)) (y : Option Str) (ys : List (Option Str))
    → is_null_at (length xs) (xs ++ (y ∷ ys)) ≡ is_null_at 0 (y ∷ ys)
unfolding is_null_at
is_null_at-append [] y ys = refl
is_null_at-append (x ∷ xs) y ys = is_null_at-append xs y ys

append_assoc : (xs ys zs : List (Option Str)) → (xs ++ ys) ++ zs ≡ xs ++ (ys ++ zs)
append_assoc [] ys zs = refl
append_assoc (x ∷ xs) ys zs = ap (λ r. x ∷ r) (append_assoc xs ys zs)

append_nil : (xs : List (Option Str)) → xs ++ [] ≡ xs
append_nil [] = refl
append_nil (x ∷ xs) = ap (λ r. x ∷ r) (append_nil xs)

take-append_left : (xs ys : List (Option Str)) → take (length xs) (xs ++ ys) ≡ xs
take-append_left [] ys = refl
take-append_left (x ∷ xs) ys = ap (λ r. x ∷ r) (take-append_left xs ys)

-- The array begins with exactly these entries, as far as argc goes.
abbrev Leaves : List (Option Str) × ℕ → List (Option Str) → Type 0
Leaves r xs = (take r.1 r.0 ≡ xs) × (r.1 ≡ length xs)

-- Behind the entries that the loop has passed, the first `rounds` entries are still to be looked at.
compact-present :
    (rounds : ℕ) (passed rest : List (Option Str)) (valid_count : ℕ)
    → rounds ≤ length rest
    → valid_count ≡ length passed + rounds
    → Leaves
        (compact rounds (length passed) (passed ++ rest) valid_count)
        (passed ++ present (take rounds rest))
unfolding compact
compact-present zero passed rest valid_count h v =
    let n : valid_count ≡ length passed = omega (arith, v) in
    let nothing = append_nil passed in rw (n, nothing) (take-append_left passed rest, refl)
compact-present (suc rounds) passed [] valid_count h v = absurd (omega (arith, h))
compact-present (suc rounds) passed (none ∷ rest) valid_count h v =
    let null : is_null_at (length passed) (passed ++ (none ∷ rest)) ≡ true =
      is_null_at-append passed none rest ∙ unfold is_null_at in refl in
    let n : rounds ≤ length (shift (none ∷ rest)) =
      rw (length-shift (none ∷ rest)) (omega (arith, h)) in
    rw (compact, null, shift_from-append passed (none ∷ rest))
      (subst
        (λ r.
          Leaves (compact rounds (length passed) (passed ++ shift (none ∷ rest)) (valid_count - 1))
            (passed ++ present r))
        (take-shift rounds none rest (omega (arith, h)))
        (compact-present rounds passed (shift (none ∷ rest)) (valid_count - 1) n
          (omega (arith, v))))
compact-present (suc rounds) passed (some s ∷ rest) valid_count h v =
    let there : is_null_at (length passed) (passed ++ (some s ∷ rest)) ≡ false =
      is_null_at-append passed (some s) rest ∙ unfold is_null_at in refl in
    let longer = passed ++ (some s ∷ []) in
    let n : length longer ≡ suc (length passed) =
      omega (arith, length-append passed (some s ∷ [])) in
    let same : longer ++ rest ≡ passed ++ (some s ∷ rest) =
      append_assoc passed (some s ∷ []) rest in
    rw (compact, there, sym n, sym same)
      (subst (Leaves (compact rounds (length longer) (longer ++ rest) valid_count))
        (append_assoc passed (some s ∷ []) (present (take rounds rest)))
        (compact-present rounds longer rest valid_count (omega (arith, h)) (omega (arith, v, n))))

-- The prefixes of arguments for LASH: upper case counts as lower case in the first two.
abbrev pub is_for_lash : Str → Bool
is_for_lash s =
    is_prefix_nocase (codes "--lash-server=") s
    || is_prefix_nocase (codes "--lash-project=") s
    || is_prefix (codes "--lash-id=") s
    || is_prefix (codes "--lash-no-autoresume") s
    || is_prefix (codes "--lash-no-start-server") s

abbrev pub not_for_lash : List Str → List (Option Str)
not_for_lash [] = []
not_for_lash (s ∷ args) = if is_for_lash s then not_for_lash args else some s ∷ not_for_lash args

take_out-cases :
    (s : Str) (flags : Flags)
    → ((take_out s flags ≡ none) × (is_for_lash s ≡ false))
      ⊎ ((new : Flags) × (take_out s flags ≡ some new) × (is_for_lash s ≡ true))
unfolding take_out
take_out-cases s flags = elim (Bool-cases (is_prefix_nocase (codes "--lash-server=") s)) [
  | inl a ↦ rw a (inr (flags, refl, refl))
  | inr a ↦ elim (Bool-cases (is_prefix_nocase (codes "--lash-project=") s)) [
    | inl b ↦ rw (a, b) (inr (flags, refl, refl))
    | inr b ↦ elim (Bool-cases (is_prefix (codes "--lash-id=") s)) [
      | inl c ↦ rw (a, b, c) (inr (flags, refl, refl))
      | inr c ↦ elim (Bool-cases (is_prefix (codes "--lash-no-autoresume") s)) [
        | inl d ↦ rw (a, b, c, d) (inr (_, refl, refl))
        | inr d ↦ elim (Bool-cases (is_prefix (codes "--lash-no-start-server") s)) [
          | inl e ↦ rw (a, b, c, d, e) (inr (_, refl, refl))
          | inr e ↦ rw (a, b, c, d, e) (inl (refl, refl))
        ]
      ]
    ]
  ]
]

present-mark :
    (args : List Str) (flags : Flags)
    → (present (mark args flags).0 ≡ not_for_lash args) × (length (mark args flags).0 ≡ length args)
unfolding mark
present-mark [] flags = (refl, refl)
present-mark (s ∷ args) flags = elim (take_out-cases s flags) [
  | inl (e, f) ↦
      let (kept, n) = present-mark args flags in rw (e, f) (ap (λ r. some s ∷ r) kept, ap suc n)
  | inr (new, e, f) ↦ let (kept, n) = present-mark args new in rw (e, f) (kept, ap suc n)
]

take-length : (xs : List (Option Str)) → take (length xs) xs ≡ xs
take-length [] = refl
take-length (x ∷ xs) = ap (λ r. x ∷ r) (take-length xs)

-- lash_extract_args leaves the program's name and the arguments that are not for LASH, in their
-- order: argc counts them, and the array begins with them. An argument is for LASH if it has one of
-- five prefixes.
pub extract_args-not_for_lash :
    (program : Str) (args : List Str)
    → let (argv, argc, flags) = extract_args program args in
      (take argc argv ≡ some program ∷ not_for_lash args)
      × (argc ≡ length (some program ∷ not_for_lash args))
unfolding extract_args
extract_args-not_for_lash program args =
    let none_set : Flags = record { no_autoresume = false; no_start_server = false } in
    let marked = (mark args none_set).0 in
    let (kept, n) = present-mark args none_set in
    let whole : take (length args) marked ≡ marked =
      ap (λ k. take k marked) (sym n) ∙ take-length marked in
    subst (Leaves (compact (length args) 1 (some program ∷ marked) (suc (length args))))
      (ap (λ r. some program ∷ present r) whole ∙ ap (λ r. some program ∷ r) kept)
      (compact-present (length args) (some program ∷ []) marked (suc (length args))
        (omega (arith, n)) (omega arith))
