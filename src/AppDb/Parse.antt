-- ===== src/AppDb/Parse.antt =====
-- The parsing of a desktop entry: strlstrip, strrstrip and lash_appdb_parse_file_data.
pub mod Printed
pub mod Keys
use gnu_lash.Prelude.{
  ℕ, ◌+◌, Bool, true, false, ◌||◌, Option, none, some, List, [], ◌∷◌, Str, codes, str_eq, ◌==◌,
  ◌>>=◌, if◌then◌else◌,
}

pub record Entry : Type 0 where
  pub key : Str
  pub value : Str

-- The C string in a buffer: what stands in front of the first NUL.
unfoldable pub c_string : Str → Str
c_string [] = []
c_string (c ∷ s) = let rest = c_string s in if c == 0 then [] else c ∷ rest

unfoldable pub is_blank : ℕ → Bool
is_blank c = c == b' ' || c == 9

unfoldable pub strlstrip : Str → Str
unfolding is_blank
strlstrip [] = []
strlstrip (c ∷ s) = let rest = strlstrip s in if is_blank c then rest else c ∷ s

-- The loop of strrstrip, from the end to the start: every blank that it meets becomes NUL, and it goes
-- on where there is none.
unfoldable pub blank_out : Str → Str
unfolding is_blank
blank_out [] = []
blank_out (c ∷ s) = let rest = blank_out s in (if is_blank c then 0 else c) ∷ rest

-- The string that strrstrip leaves.
unfoldable pub strrstrip : Str → Str
unfolding blank_out c_string
strrstrip s = c_string (blank_out s)

unfoldable pub put_first : ℕ → List Str → List Str
put_first c [] = (c ∷ []) ∷ []
put_first c (line ∷ lines) = (c ∷ line) ∷ lines

-- The strings that strchr cuts at a byte, when it goes on behind each one.
unfoldable pub cut : ℕ → Str → List Str
unfolding put_first
cut sep [] = [] ∷ []
cut sep (c ∷ s) = let rest = cut sep s in if c == sep then [] ∷ rest else put_first c rest

-- What stands before and behind the byte that strchr finds.
unfoldable pub split_at : ℕ → Str → Option (Str × Str)
split_at sep [] = none
split_at sep (c ∷ s) =
    let rest = split_at sep s in
    if c == sep then some ([], s) else (rest >>= λ (before, behind). some (c ∷ before, behind))

-- A comment, or an empty line
unfoldable pub is_skipped : Str → Bool
is_skipped [] = true
is_skipped (c ∷ line) = c == b'#'

abbrev pub group_line : Str
group_line = codes "[Desktop Entry]"

unfoldable pub entry_of_line : Str × Str → Entry
unfolding strrstrip strlstrip
entry_of_line (line, value) = record { key = strrstrip line; value = strlstrip value }

-- The loop of lash_appdb_parse_file_data: the entries from here on, if the result is true.
unfoldable pub parse_lines : ℕ → List Str → Bool → ℕ → Option (List Entry)
unfolding is_skipped split_at entry_of_line
parse_lines max_count [] group_found count = if group_found then some [] else none
parse_lines max_count (line ∷ lines) group_found count =
    let skipped = parse_lines max_count lines group_found count in
    let grouped = parse_lines max_count lines true count in
    let rest = parse_lines max_count lines true (count + 1) in
    if is_skipped line
    then skipped
    else if group_found
    then elim (split_at b'=' line) [
      | none ↦ some []
      | some halves ↦
          if count + 1 == max_count
          then none
          else (rest >>= λ entries. some (entry_of_line halves ∷ entries))
    ]
    else if str_eq line group_line
    then grouped
    else none

-- lash_appdb_parse_file_data: the entries in the array, if the result is true.
unfoldable pub parse_file_data : Str → ℕ → Option (List Entry)
unfolding parse_lines cut c_string
parse_file_data text max_count = parse_lines max_count (cut b'\n' (c_string text)) false 0

unfoldable pub find_key : List Entry → Str → Option Str
find_key [] key = none
find_key (entry ∷ entries) key =
    let rest = find_key entries key in if str_eq entry.key key then some entry.value else rest
