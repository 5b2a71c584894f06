-- ===== src/Store/Encoding.antt =====
-- The format of a config file: what store_write_config writes and store_get_config reads. The
-- value's size in network byte order, the value, and the type byte.
use gnu_lash.Prelude.{
  ℕ, zero, suc, ◌+◌, ◌*◌, ◌/◌, ◌%◌, ◌^◌, ◌<◌, ◌≡◌, refl, ap, ◌∙◌, Bool, true, ◌||◌, Option, none,
  some, List, [], ◌∷◌, ◌++◌, arith, length, ◌==◌, if◌then◌else◌,
}
use gnu_lash.Store.Types.{Config, type_double, type_integer, type_string, type_raw}

-- The four bytes of ntohl (n), as they stand in memory: most significant first. The argument is
-- converted to a uint32_t.
unfoldable pub be32 : ℕ → List ℕ
be32 n = n / 2 ^ 24 % 256 ∷ n / 2 ^ 16 % 256 ∷ n / 2 ^ 8 % 256 ∷ n % 256 ∷ []

-- The bytes of a config file. All of the config but its key.
unfoldable pub encode_config : Config → List ℕ
unfolding be32
encode_config config = be32 (length config.value) ++ config.value ++ config.type ∷ []

-- read (fd, value, n): the bytes that are there, up to n, and the rest.
split_at : ℕ → List ℕ → List ℕ × List ℕ
split_at zero bytes = ([], bytes)
split_at (suc n) [] = ([], [])
split_at (suc n) (b ∷ bytes) = let (value, rest) = split_at n bytes in (b ∷ value, rest)

abbrev pub is_api_type : ℕ → Bool
is_api_type t = t == type_double || t == type_integer || t == type_string || t == type_raw

-- The type byte. If it is missing the value is taken as raw data.
read_type : List ℕ → Option ℕ
read_type [] = some type_raw
read_type (t ∷ rest) = if is_api_type t then some t else none

-- The value of the given size, and its type.
read_value : ℕ → List ℕ → Option (List ℕ × ℕ)
unfolding split_at read_type
read_value size bytes =
    let (value, rest) = split_at size bytes in
    if length value == size
    then elim (read_type rest) [ none ↦ none | some t ↦ some (value, t) ]
    else none

read_sized : ℕ → List ℕ → Option (List ℕ × ℕ)
read_sized size bytes = if size == 0 then none else read_value size bytes

-- `none` where store_get_config reports a read error: a short file, a size of 0 or a bad type.
pub decode_config : List ℕ → Option (List ℕ × ℕ)
decode_config (a ∷ b ∷ c ∷ d ∷ bytes) = read_sized (a * 2 ^ 24 + b * 2 ^ 16 + c * 2 ^ 8 + d) bytes
decode_config bytes = none

-- A config that survives the round trip: between 1 and 2^32 - 1 bytes, of a type of the API.
pub record IsStorable (config : Config) : Type 0 where
  pub nonempty : 0 < length config.value
  pub small : length config.value < 2 ^ 32
  pub known_type : is_api_type config.type ≡ true

split_at-append : (value rest : List ℕ) → split_at (length value) (value ++ rest) ≡ (value, rest)
unfolding split_at
split_at-append [] rest = refl
split_at-append (b ∷ value) rest = ground (arith, split_at-append value rest)

pub be32_sum :
    (n : ℕ)
    → n < 2 ^ 32
    → n / 2 ^ 24 % 256 * 2 ^ 24 + n / 2 ^ 16 % 256 * 2 ^ 16 + n / 2 ^ 8 % 256 * 2 ^ 8 + n % 256 ≡ n
be32_sum n h = omega arith

read_value-append :
    (value : List ℕ) (t : ℕ)
    → is_api_type t ≡ true
    → read_value (length value) (value ++ t ∷ []) ≡ some (value, t)
unfolding read_value read_type
read_value-append value t h = ground (arith, split_at-append value (t ∷ []))

-- What is written to a config file is read back.
pub decode_config-encode_config :
    (config : Config)
    → IsStorable config
    → decode_config (encode_config config) ≡ some (config.value, config.type)
unfolding decode_config encode_config
decode_config-encode_config config ok =
    ap (λ n. read_sized n (config.value ++ config.type ∷ []))
      (be32_sum (length config.value) ok.small)
    ∙ unfold read_sized in
      ground (arith, ok.nonempty, read_value-append config.value config.type ok.known_type)
