-- ===== src/Naming/Distinct.antt =====
-- Lists of names without repetition: such a list that stands in another is no longer than it.
use gnu_lash.Prelude.{
  suc, ◌≤◌, ◌≡◌, refl, subst, ◌≢◌, inl, inr, List, [], ◌∷◌, Str, str_eq, str_eq_iff, In, length,
  arith, Bool-cases, if◌then◌else◌,
}

abbrev pub NoRepeats : List Str → Type 0
NoRepeats [] = Unit {0}
NoRepeats (x ∷ xs) = (¬ In x xs) × NoRepeats xs

-- The list without its first entry `x`.
abbrev drop_first : Str → List Str → List Str
drop_first x [] = []
drop_first x (y ∷ ys) = if str_eq y x then ys else y ∷ drop_first x ys

length-drop_first : (x : Str) (ys : List Str) → In x ys → suc (length (drop_first x ys)) ≡ length ys
length-drop_first x [] m = absurd m
length-drop_first x (y ∷ ys) m = ground (arith, str_eq_iff y x, length-drop_first x ys)

In-drop_first : (x z : Str) (ys : List Str) → z ≢ x → In z ys → In z (drop_first x ys)
In-drop_first x z [] ne m = m
In-drop_first x z (y ∷ ys) ne m = elim (Bool-cases (str_eq y x)) [
  | inr e ↦ rw e (elim m [ inl q ↦ inl q | inr k ↦ inr (In-drop_first x z ys ne k) ])
  | inl e ↦ rw e (elim m [ inl q ↦ absurd (ground (arith, str_eq_iff y x, q, ne, e)) | inr k ↦ k ])
]

pub length-NoRepeats :
    (xs ys : List Str) → NoRepeats xs → ((z : Str) → In z xs → In z ys) → length xs ≤ length ys
length-NoRepeats [] ys h all = omega arith
length-NoRepeats (x ∷ xs) ys h all =
    let shorter =
      length-NoRepeats xs (drop_first x ys) h.1
        λ z m. In-drop_first x z ys (λ q. h.0 (subst (λ w. In w xs) q m)) (all z (inr m)) in
    omega (arith, shorter, length-drop_first x ys (all x (inl refl)))
