-- ===== src/Uuid/Sample.antt =====
-- A concrete libuuid for the tests: an ID is spelled by one character, and 0 is the null ID.
use gnu_lash.Prelude.{refl, ◌==◌, ==_iff, Option, none, some, [], ◌∷◌, Str}
use gnu_lash.Uuid.{Uuid, UuidLib}

abbrev spell : Uuid → Str
spell a = a ∷ []

abbrev read : Str → Option Uuid
read [] = none
read (a ∷ []) = some a
read (a ∷ b ∷ s) = none

abbrev pub sample : UuidLib
sample = record {
  same = λ a b. a == b;
  same_iff = λ a b. ==_iff a b;
  null = 0;
  is_null = λ a. a == 0;
  is_null_iff = λ a. ==_iff a 0;
  unparse = spell;
  parse = read;
  parse-unparse = λ a. refl;
}
