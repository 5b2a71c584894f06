-- ===== src/AppDb/Load/Suffix.antt =====
-- Which file names are those of desktop entries.
use gnu_lash.Prelude.{
  ℕ, zero, suc, ◌+◌, ◌-◌, ◌<◌, ◌≡◌, ◌≢◌, ◌↔◌, refl, sym, ap, ◌∙◌, true, false, [], ◌∷◌, ◌++◌, Str,
  codes, leb, length, length-append, arith, Bool-cases, inl, inr,
}
use gnu_lash.AppDb.Load.{drop, mem_eq, suffix_match}

abbrev pub extension : Str
extension = codes ".desktop"

mem_eq_refl : (s : Str) → mem_eq (length s) s s ≡ true
unfolding mem_eq
mem_eq_refl [] = refl
mem_eq_refl (c ∷ s) = ground (arith, mem_eq_refl s)

mem_eq-eq : (s t : Str) → length s ≡ length t → mem_eq (length t) s t ≡ true → s ≡ t
unfolding mem_eq
mem_eq-eq [] [] l h = refl
mem_eq-eq [] (d ∷ t) l h = absurd (omega arith)
mem_eq-eq (c ∷ s) [] l h = absurd (omega arith)
mem_eq-eq (c ∷ s) (d ∷ t) l h = ground (arith, mem_eq-eq s t)

drop-append : (s t : Str) → drop (length s) (s ++ t) ≡ t
unfolding drop
drop-append [] t = refl
drop-append (c ∷ s) t = drop-append s t

-- The first bytes, as many as the number says.
abbrev take : ℕ → Str → Str
take zero s = []
take (suc n) [] = []
take (suc n) (c ∷ s) = c ∷ take n s

take-drop : (n : ℕ) (s : Str) → take n s ++ drop n s ≡ s
unfolding drop
take-drop zero s = refl
take-drop (suc n) [] = refl
take-drop (suc n) (c ∷ s) = ap (◌∷◌ c) (take-drop n s)

length-drop : (n : ℕ) (s : Str) → length (drop n s) ≡ length s - n
unfolding drop
length-drop zero s = omega arith
length-drop (suc n) [] = omega arith
length-drop (suc n) (c ∷ s) = omega (arith, length-drop n s)

-- A text as long as that is not empty.
take-ne-nil : (n : ℕ) (s : Str) → 0 < n → 0 < length s → take n s ≢ []
take-ne-nil zero s h l = absurd (omega arith)
take-ne-nil (suc n) [] h l = absurd (omega arith)
take-ne-nil (suc n) (c ∷ s) h l = λ e. cc e

length-pos : (s : Str) → s ≢ [] → 0 < length s
length-pos [] ne = absurd (ne refl)
length-pos (c ∷ s) ne = omega arith

suffix_match-extension :
    (stem : Str) → stem ≢ [] → suffix_match (stem ++ extension) extension ≡ true
unfolding suffix_match
suffix_match-extension stem ne =
    let pos = length-pos stem ne in
    let size : length (stem ++ extension) ≡ length stem + 8 = length-append stem extension in
    let long : leb (length stem + 8) 8 ≡ false = ground arith in
    let front : length stem + 8 - 8 ≡ length stem = omega arith in
    rw (size, long, front, drop-append stem extension) (mem_eq_refl extension)

extension-at_end :
    (name : Str)
    → leb (length name) 8 ≡ false
    → suffix_match name extension ≡ true
    → name ≡ take (length name - 8) name ++ extension
unfolding suffix_match
extension-at_end name long h =
    let rest = drop (length name - 8) name in
    let more : 8 < length name = ground arith in
    let size : length rest ≡ 8 = omega (arith, length-drop (length name - 8) name, more) in
    sym (take-drop (length name - 8) name)
    ∙ ap (λ (t : Str). take (length name - 8) name ++ t)
        (mem_eq-eq rest extension size (rw long at h))

-- suffix_match takes exactly the names that have something in front of the extension .desktop.
pub suffix_match_iff :
    (name : Str)
    → (suffix_match name extension ≡ true)
      ↔ ((stem : Str) × (stem ≢ []) × (name ≡ stem ++ extension))
unfolding suffix_match
suffix_match_iff name = (
  λ h. elim (Bool-cases (leb (length name) 8)) [
    | inl short ↦ cc (rw short at h)
    | inr long ↦ (
      take (length name - 8) name,
      take-ne-nil (length name - 8) name (ground arith) (ground arith),
      extension-at_end name long h,
    )
  ],
  λ (stem, ne, e). rw e (suffix_match-extension stem ne),
)
