-- ===== src/AppDb/Parse/Keys.antt =====
-- What strrstrip and strlstrip leave of the two sides of a line.
use gnu_lash.Prelude.{ℕ, ◌≡◌, refl, ap, true, false, some, [], ◌∷◌, ◌++◌, Str, ◌==◌, arith}
use gnu_lash.AppDb.Parse.{c_string, is_blank, strrstrip, strlstrip, split_at}

-- The byte does not stand in the text.
abbrev pub Lacks : ℕ → Str → Type 0
Lacks b [] = Unit {0}
Lacks b (c ∷ s) = ((c == b) ≡ false) × Lacks b s

abbrev pub LacksBlanks : Str → Type 0
LacksBlanks [] = Unit {0}
LacksBlanks (c ∷ s) = (is_blank c ≡ false) × LacksBlanks s

abbrev pub AllBlank : Str → Type 0
AllBlank [] = Unit {0}
AllBlank (c ∷ s) = (is_blank c ≡ true) × AllBlank s

-- The text is empty or begins with a blank.
abbrev pub BeginsBlank : Str → Type 0
BeginsBlank [] = Unit {0}
BeginsBlank (c ∷ s) = is_blank c ≡ true

-- The text does not begin with a blank.
abbrev pub BeginsSolid : Str → Type 0
BeginsSolid [] = Unit {0}
BeginsSolid (c ∷ s) = is_blank c ≡ false

pub Lacks-append : (b : ℕ) (s t : Str) → Lacks b s → Lacks b t → Lacks b (s ++ t)
Lacks-append b [] t h k = k
Lacks-append b (c ∷ s) t h k = (h.0, Lacks-append b s t h.1 k)

pub strrstrip-append :
    (key rest : Str)
    → LacksBlanks key
    → Lacks 0 key
    → BeginsBlank rest
    → strrstrip (key ++ rest) ≡ key
unfolding strrstrip
strrstrip-append [] [] h l b = refl
strrstrip-append [] (c ∷ rest) h l b = rw b refl
strrstrip-append (c ∷ key) rest h l b =
    rw (h.0) (rw (l.0) (ap (◌∷◌ c) (strrstrip-append key rest h.1 l.1 b)))

pub strlstrip-append :
    (lead value : Str) → AllBlank lead → BeginsSolid value → strlstrip (lead ++ value) ≡ value
unfolding strlstrip
strlstrip-append [] [] h b = refl
strlstrip-append [] (c ∷ value) h b = rw b refl
strlstrip-append (c ∷ lead) value h b = rw (h.0) (strlstrip-append lead value h.1 b)

pub split_at-append :
    (sep : ℕ) (before behind : Str)
    → Lacks sep before
    → split_at sep (before ++ (sep ∷ behind)) ≡ some (before, behind)
unfolding split_at
split_at-append sep [] behind h = ground arith
split_at-append sep (c ∷ before) behind h =
    rw (h.0) (rw (split_at-append sep before behind h.1) refl)

pub c_string-Lacks : (s : Str) → Lacks 0 s → c_string s ≡ s
unfolding c_string
c_string-Lacks [] h = refl
c_string-Lacks (c ∷ s) h = rw (h.0) (ap (◌∷◌ c) (c_string-Lacks s h.1))
