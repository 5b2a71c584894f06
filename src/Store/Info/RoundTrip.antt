-- ===== src/Store/Info/RoundTrip.antt =====
-- What store_write_info_file prints, store_open reads back.
use gnu_lash.Prelude.{
  ℕ, ◌-◌, ◌^◌, ◌<◌, ◌≡◌, refl, sym, ap, ◌∙◌, ◌≢◌, inl, inr, Bool, true, false, some, List, [], ◌∷◌,
  ◌++◌, ltb, arith, length, Str, decimal, is_digit, scan_digits, scan_digits-decimal, Digits,
  decimal-Digits, decimal_head, Bool-cases,
}
use gnu_lash.Store.Info.{
  newline, print_long, print_keys, print_info, split_line, get_line, chop_newline, skip_spaces,
  convert, number_at, signed, strtol, read_keys, info, read_info,
}

-- No byte is a newline.
abbrev pub IsLine : Str → Type 0
IsLine [] = Unit {0}
IsLine (c ∷ s) = (c ≢ newline) × IsLine s

abbrev pub AllLines : List Str → Type 0
AllLines [] = Unit {0}
AllLines (k ∷ ks) = IsLine k × AllLines ks

split_line-append :
    (s rest : Str) → IsLine s → split_line (s ++ newline ∷ rest) ≡ (s ++ newline ∷ [], rest)
unfolding split_line
split_line-append [] rest h = refl
split_line-append (c ∷ s) rest h = ground (arith, split_line-append s rest h.1)

get_line-append :
    (s rest : Str) → IsLine s → get_line (s ++ newline ∷ rest) ≡ some (s ++ newline ∷ [], rest)
unfolding get_line
get_line-append [] rest h = refl
get_line-append (c ∷ s) rest h = ap some (split_line-append (c ∷ s) rest h)

chop_newline-append : (s : Str) → IsLine s → chop_newline (s ++ newline ∷ []) ≡ s
unfolding chop_newline
chop_newline-append [] h = refl
chop_newline-append (c ∷ s) h = ground (arith, chop_newline-append s h.1)

read_keys-print_keys :
    (keys : List Str) → AllLines keys → read_keys (length keys) (print_keys keys) ≡ some keys
unfolding read_keys print_keys
read_keys-print_keys [] h = refl
read_keys-print_keys (k ∷ ks) h = ground (
  arith,
  get_line-append k (print_keys ks) h.0,
  chop_newline-append k h.0,
  read_keys-print_keys ks h.1,
)

IsLine-Digits : (s : Str) → Digits s → IsLine s
IsLine-Digits [] h = tt
IsLine-Digits (c ∷ s) h = (ground arith, IsLine-Digits s h.1)

print_long-IsLine : (n : ℕ) → IsLine (print_long n)
unfolding print_long
print_long-IsLine n = elim (Bool-cases (ltb n (2 ^ 63))) [
  | inl e ↦ rw e (IsLine-Digits _ (decimal-Digits n))
  | inr e ↦ rw e (omega arith, IsLine-Digits _ (decimal-Digits (2 ^ 64 - n)))
]

number_at-cons :
    (line : Str) (negative : Bool) (d : ℕ) (s : Str)
    → is_digit d ≡ true
    → number_at line negative (d ∷ s) ≡ convert negative (scan_digits 0 (d ∷ s))
unfolding number_at
number_at-cons line negative d s digit = rw digit refl

signed-cons :
    (line : Str) (d : ℕ) (s : Str)
    → is_digit d ≡ true
    → signed line (skip_spaces (d ∷ s)) ≡ number_at line false (d ∷ s)
unfolding signed skip_spaces
signed-cons line d s digit = ground arith

-- A number in front of a newline, after its sign has been read.
number_at-decimal :
    (line : Str) (negative : Bool) (n : ℕ)
    → number_at line negative (decimal n ++ newline ∷ []) ≡ convert negative (n, newline ∷ [])
number_at-decimal line negative n =
    let (d, t, e, digit) = decimal_head n in
    ap (λ s. number_at line negative (s ++ newline ∷ [])) e
    ∙ number_at-cons line negative d (t ++ newline ∷ []) digit
    ∙ ap (λ s. convert negative (scan_digits 0 (s ++ newline ∷ []))) (sym e)
    ∙ ap (convert negative) (scan_digits-decimal n (newline ∷ []) refl)

strtol-decimal : (n : ℕ) → strtol (decimal n ++ newline ∷ []) ≡ convert false (n, newline ∷ [])
unfolding strtol
strtol-decimal n =
    let (d, t, e, digit) = decimal_head n in
    ap (λ s. signed (s ++ newline ∷ []) (skip_spaces (s ++ newline ∷ []))) e
    ∙ signed-cons (d ∷ t ++ newline ∷ []) d (t ++ newline ∷ []) digit
    ∙ ap (λ s. number_at (s ++ newline ∷ []) false (s ++ newline ∷ [])) (sym e)
    ∙ number_at-decimal (decimal n ++ newline ∷ []) false n

strtol-minus : (s : Str) → strtol (b'-' ∷ s) ≡ number_at (b'-' ∷ s) true s
unfolding strtol
strtol-minus s = refl

convert-wraps :
    (n : ℕ)
    → n < 2 ^ 64
    → ltb n (2 ^ 63) ≡ false
    → convert true (2 ^ 64 - n, newline ∷ []) ≡ some (n, newline ∷ [])
unfolding convert
convert-wraps n h e = ground arith

strtol-print_long :
    (n : ℕ) → n < 2 ^ 64 → strtol (print_long n ++ newline ∷ []) ≡ some (n, newline ∷ [])
unfolding print_long
strtol-print_long n h = elim (Bool-cases (ltb n (2 ^ 63))) [
  | inl e ↦ rw e (strtol-decimal n ∙ unfold convert in rw e refl)
  | inr e ↦ rw e (
      strtol-minus (decimal (2 ^ 64 - n) ++ newline ∷ [])
      ∙ number_at-decimal _ true (2 ^ 64 - n)
      ∙ convert-wraps n h e)
]

-- The info file of a store is read back as it was written: the number of keys and the keys, if
-- no key holds a newline and the number is that of the keys.
pub read_info-print_info :
    (keys : List Str)
    → AllLines keys
    → length keys < 2 ^ 64
    → read_info (print_info (length keys) keys) ≡ info (length keys) keys
unfolding read_info print_info
read_info-print_info keys lines h =
    let n = length keys in
    ground (
      arith,
      get_line-append (print_long n) (print_keys keys) (print_long-IsLine n),
      strtol-print_long n h,
      read_keys-print_keys keys lines,
    )
