-- ===== src/Prelude/Decimal.antt =====
-- What printf ("%ld") writes and strtol reads, for numbers in base ten.
use Prim.Native.Nat.{ℕ, zero, suc, ◌+◌, ◌-◌, ◌*◌, ◌/◌, ◌%◌, ◌<◌}
use mathlib.Core.Path.{◌≡◌, refl, ◌∙◌, ap}
use mathlib.Core.Logic.{inl, inr}
use mathlib.Core.Bool.{Bool, true, false, ◌&&◌}
use mathlib.Core.List.{[], ◌∷◌, ◌++◌, append_assoc}
use native.Mathlib.Omega.{arith}
use gnu_lash.Prelude.Tests.{ltb, leb, if◌then◌else◌, Bool-cases}
use gnu_lash.Prelude.Text.{Str}

-- isdigit
abbrev pub is_digit : ℕ → Bool
is_digit c = leb b'0' c && leb c b'9'

-- The digits of n, with one unit of fuel for each.
unfoldable pub decimal_digits : ℕ → ℕ → Str
decimal_digits zero n = []
decimal_digits (suc fuel) n =
    let high = decimal_digits fuel (n / 10) in
    if ltb n 10 then (b'0' + n) ∷ [] else high ++ (b'0' + n % 10) ∷ []

-- sprintf ("%ld", n)
unfoldable pub decimal : ℕ → Str
unfolding decimal_digits
decimal n = decimal_digits (suc n) n

-- The digits at the head of a text, read onto an accumulator, and the text behind them.
unfoldable pub scan_digits : ℕ → Str → ℕ × Str
scan_digits acc [] = (acc, [])
scan_digits acc (c ∷ s) =
    let more = scan_digits (acc * 10 + (c - b'0')) s in if is_digit c then more else (acc, c ∷ s)

-- The text does not go on with a digit.
abbrev pub EndsNumber : Str → Type 0
EndsNumber [] = Unit {0}
EndsNumber (c ∷ s) = is_digit c ≡ false

scan_digits-stop : (acc : ℕ) (s : Str) → EndsNumber s → scan_digits acc s ≡ (acc, s)
unfolding scan_digits
scan_digits-stop acc [] h = refl
scan_digits-stop acc (c ∷ s) h = ground arith

scan_digits-cons :
    (acc d : ℕ) (s : Str) → d < 10 → scan_digits acc ((b'0' + d) ∷ s) ≡ scan_digits (acc * 10 + d) s
unfolding scan_digits
scan_digits-cons acc d s h = ground arith

scan_digits-decimal_digits :
    (fuel n : ℕ) (s : Str) → n < fuel → scan_digits 0 (decimal_digits fuel n ++ s) ≡ scan_digits n s
unfolding decimal_digits
scan_digits-decimal_digits zero n s h = elim h [ ]
scan_digits-decimal_digits (suc fuel) n s h = elim (Bool-cases (ltb n 10)) [
  | inl e ↦
      let z : 0 * 10 + n ≡ n = omega arith in
      rw e (scan_digits-cons 0 n s (ground arith) ∙ ap (λ k. scan_digits k s) z)
  | inr e ↦
      let last : n / 10 * 10 + n % 10 ≡ n = omega arith in
      rw (e, append_assoc)
        (scan_digits-decimal_digits fuel (n / 10) ((b'0' + n % 10) ∷ s) (ground arith)
          ∙ scan_digits-cons (n / 10) (n % 10) s (omega arith)
          ∙ ap (λ k. scan_digits k s) last)
]

-- What is printed is read back, up to the first character that is no digit.
pub scan_digits-decimal : (n : ℕ) (s : Str) → EndsNumber s → scan_digits 0 (decimal n ++ s) ≡ (n, s)
unfolding decimal
scan_digits-decimal n s h =
    scan_digits-decimal_digits (suc n) n s (omega arith) ∙ scan_digits-stop n s h

-- A text of digits only.
abbrev pub Digits : Str → Type 0
Digits [] = Unit {0}
Digits (c ∷ s) = (is_digit c ≡ true) × Digits s

Digits-append : (s t : Str) → Digits s → Digits t → Digits (s ++ t)
Digits-append [] t h k = k
Digits-append (c ∷ s) t h k = (h.0, Digits-append s t h.1 k)

digit-is_digit : (d : ℕ) → d < 10 → is_digit (b'0' + d) ≡ true
digit-is_digit d h = ground arith

decimal_digits-Digits : (fuel n : ℕ) → Digits (decimal_digits fuel n)
unfolding decimal_digits
decimal_digits-Digits zero n = tt
decimal_digits-Digits (suc fuel) n = elim (Bool-cases (ltb n 10)) [
  | inl e ↦ rw e (digit-is_digit n (ground arith), tt)
  | inr e ↦ rw e (
      Digits-append _ _ (decimal_digits-Digits fuel (n / 10))
        (digit-is_digit (n % 10) (omega arith), tt))
]

pub decimal-Digits : (n : ℕ) → Digits (decimal n)
unfolding decimal
decimal-Digits n = decimal_digits-Digits (suc n) n

head-append :
    (s : Str) (c : ℕ)
    → Digits (s ++ c ∷ [])
    → (d : ℕ) × (t : Str) × (s ++ c ∷ [] ≡ d ∷ t) × (is_digit d ≡ true)
head-append [] c h = (c, [], refl, h.0)
head-append (d ∷ s) c h = (d, s ++ c ∷ [], refl, h.0)

-- It begins with a digit.
pub decimal_head : (n : ℕ) → (d : ℕ) × (t : Str) × (decimal n ≡ d ∷ t) × (is_digit d ≡ true)
unfolding decimal
decimal_head n = elim (Bool-cases (ltb n 10)) [
  | inl e ↦ (b'0' + n, [], rw e refl, digit-is_digit n (ground arith))
  | inr e ↦ rw e (
      head-append (decimal_digits n (n / 10)) (b'0' + n % 10) (
        Digits-append _ _ (decimal_digits-Digits n (n / 10))
          (digit-is_digit (n % 10) (omega arith), tt)))
]
