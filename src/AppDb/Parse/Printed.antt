-- ===== src/AppDb/Parse/Printed.antt =====
-- The parsing of a desktop entry that is given line by line.
use gnu_lash.Prelude.{
  ℕ, ◌+◌, ◌<◌, ◌≡◌, refl, ap, ◌∙◌, true, false, none, some, List, [], ◌∷◌, ◌++◌, Str, str_eq, ltb,
  arith, length, if◌then◌else◌,
}
use gnu_lash.AppDb.Parse.{Entry, cut, is_skipped, group_line, parse_lines, parse_file_data}
use gnu_lash.AppDb.Parse.Keys.{
  Lacks, LacksBlanks, AllBlank, BeginsBlank, BeginsSolid, Lacks-append, strrstrip-append,
  strlstrip-append, split_at-append, c_string-Lacks,
}

-- A line: a comment, an empty line, or the parts of a key and a value, from left to right.
pub data Line : Type 0 where
  remark : Str → Line
  empty : Line
  pair : Str → Str → Str → Str → Line

abbrev pub print_line : Line → Str
print_line (remark text) = b'#' ∷ text
print_line empty = []
print_line (pair key rest lead value) = (key ++ rest) ++ (b'=' ∷ (lead ++ value))

-- The key has no blank, and is followed by nothing or by a blank. The value has no blank in front.
pub record IsPair (key rest lead value : Str) : Type 0 where
  pub begins : is_skipped key ≡ false
  pub solid : LacksBlanks key
  pub blank : BeginsBlank rest
  pub lead_blank : AllBlank lead
  pub value_solid : BeginsSolid value
  pub no_equals : Lacks b'=' (key ++ rest)
  pub no_nul : Lacks 0 key

abbrev pub IsLine : Line → Type 0
IsLine (remark text) = Unit {0}
IsLine empty = Unit {0}
IsLine (pair key rest lead value) = IsPair key rest lead value

-- No line has a newline or a NUL.
abbrev pub AreLines : List Line → Type 0
AreLines [] = Unit {0}
AreLines (line ∷ lines) =
    IsLine line × Lacks b'\n' (print_line line) × Lacks 0 (print_line line) × AreLines lines

abbrev pub entries_of : List Line → List Entry
entries_of [] = []
entries_of (remark text ∷ lines) = entries_of lines
entries_of (empty ∷ lines) = entries_of lines
entries_of (pair key rest lead value ∷ lines) =
    record { key = key; value = value } ∷ entries_of lines

abbrev pub print_lines : List Line → Str
print_lines [] = []
print_lines (line ∷ lines) = print_line line ++ (b'\n' ∷ print_lines lines)

abbrev pub strings : List Line → List Str
strings [] = [] ∷ []
strings (line ∷ lines) = print_line line ∷ strings lines

cut-line :
    (line rest : Str)
    → Lacks b'\n' line
    → cut b'\n' (line ++ (b'\n' ∷ rest)) ≡ line ∷ cut b'\n' rest
unfolding cut
cut-line [] rest h = refl
cut-line (c ∷ line) rest h = rw (h.0) (rw (cut-line line rest h.1) refl)

cut-print_lines :
    (lines : List Line) → AreLines lines → cut b'\n' (print_lines lines) ≡ strings lines
unfolding cut
cut-print_lines [] h = refl
cut-print_lines (line ∷ lines) h =
    cut-line (print_line line) (print_lines lines) h.1
    ∙ ap (◌∷◌ (print_line line)) (cut-print_lines lines h.3)

Lacks-print_lines : (lines : List Line) → AreLines lines → Lacks 0 (print_lines lines)
Lacks-print_lines [] h = tt
Lacks-print_lines (line ∷ lines) h =
    Lacks-append 0 (print_line line) (b'\n' ∷ print_lines lines) h.2
      (refl, Lacks-print_lines lines h.3)

is_skipped-append : (key rest : Str) → is_skipped key ≡ false → is_skipped (key ++ rest) ≡ false
unfolding is_skipped
is_skipped-append [] rest h = cc h
is_skipped-append (c ∷ key) rest h = h

module _ (max_count : ℕ) where
  -- From `count` on, the entries are taken as long as they fit.
  parse_lines-strings :
      (lines : List Line) (count : ℕ)
      → AreLines lines
      → count < max_count
      → parse_lines max_count (strings lines) true count ≡ (
          if ltb (count + length (entries_of lines)) max_count
          then some (entries_of lines)
          else none)
  unfolding parse_lines
  parse_lines-strings [] count h m = ground arith
  parse_lines-strings (remark text ∷ lines) count h m = parse_lines-strings lines count h.3 m
  parse_lines-strings (empty ∷ lines) count h m = parse_lines-strings lines count h.3 m
  parse_lines-strings (pair key rest lead value ∷ lines) count h m =
      let p = h.0 in
      rw
        (is_skipped-append (key ++ rest) (b'=' ∷ (lead ++ value))
          (is_skipped-append key rest p.begins))
        (rw (split_at-append b'=' (key ++ rest) (lead ++ value) p.no_equals) (
          rw (strrstrip-append key rest p.solid p.no_nul p.blank) (
            rw (strlstrip-append lead value p.lead_blank p.value_solid)
              (ground (arith, parse_lines-strings lines (count + 1) h.3)))))

  -- A desktop entry whose group line stands first is read back: comments and empty lines are skipped,
  -- a key is what stands in front of the first blank, and a value begins behind the blanks. Its
  -- entries are taken if they are fewer than the maximal count, and the entry is refused otherwise.
  pub parse_file_data-print_lines :
      (lines : List Line)
      → AreLines lines
      → 0 < max_count
      → parse_file_data (group_line ++ (b'\n' ∷ print_lines lines)) max_count
        ≡ (if ltb (length (entries_of lines)) max_count then some (entries_of lines) else none)
  unfolding parse_file_data str_eq
  parse_file_data-print_lines lines h m =
      let text = group_line ++ (b'\n' ∷ print_lines lines) in
      let none_yet : 0 + length (entries_of lines) ≡ length (entries_of lines) = omega arith in
      ap (λ (t : Str). parse_lines max_count (cut b'\n' t) false 0)
        (c_string-Lacks text (
          Lacks-append 0 group_line (b'\n' ∷ print_lines lines) (ground arith)
            (refl, Lacks-print_lines lines h)))
      ∙ ap (λ (ls : List Str). parse_lines max_count ls false 0)
          (cut-line group_line (print_lines lines) (ground arith)
            ∙ ap (◌∷◌ group_line) (cut-print_lines lines h))
      ∙ (rw none_yet at (parse_lines-strings lines 0 h m))
