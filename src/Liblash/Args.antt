-- ===== src/Liblash/Args.antt =====
-- lash_extract_args of liblash/lash.c, which takes the arguments for LASH out of a program's command
-- line.
pub mod Compact
use gnu_lash.Prelude.{
  ℕ, zero, suc, ◌+◌, ◌-◌, ltb, leb, ◌&&◌, ◌==◌, Bool, true, false, Option, none, some, List, [],
  ◌∷◌, Str, codes, length, if◌then◌else◌,
}

-- strncmp (prefix, s, strlen (prefix)) == 0
unfoldable pub is_prefix : Str → Str → Bool
is_prefix [] s = true
is_prefix (c ∷ p) [] = false
is_prefix (c ∷ p) (d ∷ s) = let rest = is_prefix p s in if c == d then rest else false

-- tolower
unfoldable pub lower : ℕ → ℕ
lower c = if leb 65 c && leb c 90 then c + 32 else c

-- The same with strncasecmp.
unfoldable pub is_prefix_nocase : Str → Str → Bool
unfolding lower
is_prefix_nocase [] s = true
is_prefix_nocase (c ∷ p) [] = false
is_prefix_nocase (c ∷ p) (d ∷ s) =
    let rest = is_prefix_nocase p s in if lower c == lower d then rest else false

-- LASH_No_Autoresume and LASH_No_Start_Server in the flags of struct _lash_args
pub record Flags : Type 0 where
  pub no_autoresume : Bool
  pub no_start_server : Bool

-- An argument that is set to NULL, and the flags behind it, or none if it is kept.
unfoldable pub take_out : Str → Flags → Option Flags
unfolding is_prefix is_prefix_nocase
take_out s flags =
    if is_prefix_nocase (codes "--lash-server=") s
    then some flags
    else if is_prefix_nocase (codes "--lash-project=") s
    then some flags
    else if is_prefix (codes "--lash-id=") s
    then some flags
    else if is_prefix (codes "--lash-no-autoresume") s
    then some (record flags { no_autoresume = true })
    else if is_prefix (codes "--lash-no-start-server") s
    then some (record flags { no_start_server = true })
    else none

-- The first loop, over the arguments behind the program's name.
unfoldable pub mark : List Str → Flags → List (Option Str) × Flags
unfolding take_out
mark [] flags = ([], flags)
mark (s ∷ args) flags = elim (take_out s flags) [
  | none ↦ (let (marked, flags') = mark args flags in (some s ∷ marked, flags'))
  | some new ↦ (let (marked, flags') = mark args new in (none ∷ marked, flags'))
]

-- The inner loop from j = 0: each entry but the last becomes the one behind it.
unfoldable pub shift : List (Option Str) → List (Option Str)
shift [] = []
shift (x ∷ []) = x ∷ []
shift (x ∷ y ∷ xs) = y ∷ shift (y ∷ xs)

-- The inner loop from j = i.
unfoldable pub shift_from : ℕ → List (Option Str) → List (Option Str)
unfolding shift
shift_from zero xs = shift xs
shift_from (suc i) [] = []
shift_from (suc i) (x ∷ xs) = x ∷ shift_from i xs

-- (*argv)[i] == NULL
unfoldable pub is_null_at : ℕ → List (Option Str) → Bool
is_null_at i [] = true
is_null_at zero (none ∷ xs) = true
is_null_at zero (some s ∷ xs) = false
is_null_at (suc i) (x ∷ xs) = is_null_at i xs

-- The second loop, with as many rounds left as valid_count exceeds i: the array and valid_count.
unfoldable pub compact : ℕ → ℕ → List (Option Str) → ℕ → List (Option Str) × ℕ
unfolding is_null_at shift_from
compact zero i argv valid_count = (argv, valid_count)
compact (suc rounds) i argv valid_count =
    let gone = is_null_at i argv in
    compact rounds (if gone then i else suc i) (if gone then shift_from i argv else argv)
      (if gone then valid_count - 1 else valid_count)

-- lash_extract_args for the program's name and its arguments: the array, argc, and the flags.
unfoldable pub extract_args : Str → List Str → List (Option Str) × ℕ × Flags
unfolding mark compact
extract_args program args =
    let (marked, flags) = mark args (record { no_autoresume = false; no_start_server = false }) in
    let (argv, argc) = compact (length args) 1 (some program ∷ marked) (suc (length args)) in
    (argv, argc, flags)
