-- ===== src/Store/Info.antt =====
-- The info file of a store: what store_write_info_file prints, and what store_open reads. Text has
-- no NUL bytes; an unsigned long has 64 bits.
pub mod RoundTrip
use gnu_lash.Prelude.{
  ℕ, zero, suc, ◌+◌, ◌-◌, ◌%◌, ◌^◌, Bool, true, false, ◌||◌, ◌&&◌, Option, none, some, List, [],
  ◌∷◌, ◌++◌, ltb, leb, ◌==◌, is_empty, Str, decimal, is_digit, scan_digits, if◌then◌else◌, ◌>>=◌,
}

abbrev pub newline : ℕ
newline = 10

-- fprintf ("%ld", num_keys), for an unsigned long
unfoldable pub print_long : ℕ → Str
print_long n = if ltb n (2 ^ 63) then decimal n else b'-' ∷ decimal (2 ^ 64 - n)

unfoldable pub print_keys : List Str → Str
print_keys [] = []
print_keys (key ∷ keys) = key ++ newline ∷ print_keys keys

-- The text that store_write_info_file writes.
unfoldable pub print_info : ℕ → List Str → Str
print_info num_keys keys = print_long num_keys ++ newline ∷ print_keys keys

-- getline: a line with its newline, and the rest of the file. `none` at the end of the file.
unfoldable pub split_line : Str → Str × Str
split_line [] = ([], [])
split_line (c ∷ s) =
    let (line, rest) = split_line s in if c == newline then (c ∷ [], s) else (c ∷ line, rest)

unfoldable pub get_line : Str → Option (Str × Str)
unfolding split_line
get_line s = if is_empty s then none else some (split_line s)

-- The line up to its newline, as strchr finds it.
unfoldable pub chop_newline : Str → Str
chop_newline [] = []
chop_newline (c ∷ s) = if c == newline then [] else c ∷ chop_newline s

abbrev is_space : ℕ → Bool
is_space c = c == 32 || leb 9 c && leb c 13

unfoldable pub skip_spaces : Str → Str
skip_spaces [] = []
skip_spaces (c ∷ s) = if is_space c then skip_spaces s else c ∷ s

-- A negative result is converted to an unsigned long; `none` is ERANGE.
unfoldable pub convert : Bool → ℕ × Str → Option (ℕ × Str)
convert false (v, rest) = if ltb v (2 ^ 63) then some (v, rest) else none
convert true (v, rest) = if leb v (2 ^ 63) then some ((2 ^ 64 - v) % 2 ^ 64, rest) else none

-- Where no digit stands, nothing is converted and the end pointer is at the start of the line.
unfoldable pub number_at : Str → Bool → Str → Option (ℕ × Str)
unfolding convert
number_at line negative [] = some (0, line)
number_at line negative (c ∷ s) =
    if is_digit c then convert negative (scan_digits 0 (c ∷ s)) else some (0, line)

unfoldable pub signed : Str → Str → Option (ℕ × Str)
unfolding number_at
signed line [] = some (0, line)
signed line (c ∷ s) =
    if c == b'-'
    then number_at line true s
    else (if c == b'+' then number_at line false s else number_at line false (c ∷ s))

-- strtol (line, &endptr, 10): the number and the text from the end pointer on.
unfoldable pub strtol : Str → Option (ℕ × Str)
unfolding signed skip_spaces
strtol line = signed line (skip_spaces line)

unfoldable pub read_keys : ℕ → Str → Option (List Str)
unfolding get_line chop_newline
read_keys zero s = some []
read_keys (suc n) s = elim (get_line s) [
  | none ↦ none
  | some (line, rest) ↦ (read_keys n rest >>= λ keys. some (chop_newline line ∷ keys))
]

-- The three ways in which reading the open info file ends.
pub data InfoFile : Type 0 where
  corrupt_header corrupt_keys : InfoFile
  info : ℕ → List Str → InfoFile

-- `*endptr == '\n'`
abbrev pub at_newline : Str → Bool
at_newline [] = false
at_newline (c ∷ s) = c == newline

unfoldable pub read_info : Str → InfoFile
read_info file = elim (get_line file) [
  | none ↦ corrupt_header
  | some (line, rest) ↦ elim (strtol line) [
    | none ↦ corrupt_header
    | some (n, end) ↦
        if at_newline end
        then elim (read_keys n rest) [ none ↦ corrupt_keys | some keys ↦ info n keys ]
        else corrupt_header
  ]
]
