-- ===== src/Naming/Digits.antt =====
-- How many digits a number has.
use gnu_lash.Prelude.{
  ℕ, zero, suc, ◌+◌, ◌*◌, ◌/◌, ◌%◌, ◌<◌, ◌≤◌, inl, inr, [], ◌∷◌, length, length-append, ltb, arith,
  Bool-cases, decimal_digits, decimal,
}

abbrev pub power_of_ten : ℕ → ℕ
power_of_ten zero = 1
power_of_ten (suc k) = 10 * power_of_ten k

length-decimal_digits :
    (k fuel n : ℕ) → n < power_of_ten (suc k) → length (decimal_digits fuel n) ≤ suc k
unfolding decimal_digits
length-decimal_digits k zero n h = omega arith
length-decimal_digits zero (suc fuel) n h = ground arith
length-decimal_digits (suc k) (suc fuel) n h = elim (Bool-cases (ltb n 10)) [
  | inl e ↦ rw e (omega arith)
  | inr e ↦ rw e (
      omega (
        arith,
        length-decimal_digits k fuel (n / 10) (omega arith),
        length-append (decimal_digits fuel (n / 10)) ((b'0' + n % 10) ∷ []),
      ))
]

pub length-decimal : (k n : ℕ) → n < power_of_ten (suc k) → length (decimal n) ≤ suc k
unfolding decimal
length-decimal k n h = length-decimal_digits k (suc n) n h
