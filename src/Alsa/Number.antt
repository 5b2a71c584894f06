-- ===== src/Alsa/Number.antt =====
-- strtoul (text, NULL, 10), on a machine where an unsigned long has 64 bits.
use gnu_lash.Prelude.{
  ℕ, ◌-◌, ◌%◌, ◌^◌, ◌<◌, ◌≡◌, refl, sym, ap, ◌∙◌, Bool, true, false, [], ◌∷◌, ◌++◌, leb, ◌==◌, Str,
  arith, decimal, decimal_head, scan_digits, scan_digits-decimal, is_digit, if◌then◌else◌,
}
use gnu_lash.Store.Info.{skip_spaces}

-- The digits at the start of the text; without any, the result is 0.
unfoldable pub digits_value : Str → ℕ
digits_value s = (scan_digits 0 s).0

-- A value that is too large gives ULONG_MAX, and a negative one is converted.
unfoldable pub to_ulong : Bool → ℕ → ℕ
to_ulong negative v =
    if leb (2 ^ 64) v then 2 ^ 64 - 1 else if negative then (2 ^ 64 - v) % 2 ^ 64 else v

unfoldable pub with_sign : Str → ℕ
unfolding digits_value to_ulong
with_sign [] = 0
with_sign (c ∷ s) =
    if c == b'-'
    then to_ulong true (digits_value s)
    else to_ulong false (digits_value (if c == b'+' then s else c ∷ s))

unfoldable pub strtoul : Str → ℕ
unfolding with_sign
strtoul s = with_sign (skip_spaces s)

with_sign-digit :
    (c : ℕ) (s : Str)
    → is_digit c ≡ true
    → with_sign (c ∷ s) ≡ to_ulong false (digits_value (c ∷ s))
unfolding with_sign
with_sign-digit c s h = ground arith

skip_spaces-digit : (c : ℕ) (s : Str) → is_digit c ≡ true → skip_spaces (c ∷ s) ≡ c ∷ s
unfolding skip_spaces
skip_spaces-digit c s h = ground arith

append_nil : (s : Str) → s ++ [] ≡ s
append_nil [] = refl
append_nil (c ∷ s) = ap (λ t. c ∷ t) (append_nil s)

digits_value-decimal : (n : ℕ) → digits_value (decimal n) ≡ n
unfolding digits_value
digits_value-decimal n =
    ap (λ (s : Str). (scan_digits 0 s).0) (sym (append_nil (decimal n)))
    ∙ ap (λ (r : ℕ × Str). r.0) (scan_digits-decimal n [] tt)

-- What sprintf prints for a number, strtoul reads.
pub strtoul-decimal : (n : ℕ) → n < 2 ^ 64 → strtoul (decimal n) ≡ n
unfolding strtoul
strtoul-decimal n h =
    let (d, t, e, digit) = decimal_head n in
    let fits : to_ulong false n ≡ n = unfold to_ulong in ground arith in
    ap (λ s. with_sign (skip_spaces s)) e
    ∙ ap with_sign (skip_spaces-digit d t digit)
    ∙ with_sign-digit d t digit
    ∙ ap (λ s. to_ulong false (digits_value s)) (sym e)
    ∙ ap (to_ulong false) (digits_value-decimal n)
    ∙ fits
