-- ===== src/Utf8.antt =====
-- Python's strict UTF-8 codec, `bytes.decode("utf-8")` and `str.encode()`, as `decode_asgi_path`,
-- `valid_server_name` and the stream handlers call it. The decoder takes a byte at a time; its state
-- holds the bytes of the character that is not finished.
pub mod Laws
use anycorn.Prelude.{
  ℕ, ◌+◌, ◌-◌, ◌*◌, ◌/◌, ◌%◌, ◌<◌, ◌≤◌, Bool, ◌&&◌, ◌⊎◌, [], ◌∷◌, ◌++◌, Option, none, some, ltb,
  leb, ◌==◌, if◌then◌else◌, All,
}
use anycorn.Bytes.{Bytes, Text}

-- A code point that is no surrogate.
abbrev pub IsScalar : ℕ → Type 0
IsScalar c = (c < 55296) ⊎ ((57344 ≤ c) × (c < 1114112))

unfoldable pub encode_char : ℕ → Bytes
encode_char c =
    if ltb c 128
    then c ∷ []
    else if ltb c 2048
    then (192 + c / 64) ∷ (128 + c % 64) ∷ []
    else if ltb c 65536
    then (224 + c / 4096) ∷ (128 + c / 64 % 64) ∷ (128 + c % 64) ∷ []
    else (240 + c / 262144) ∷ (128 + c / 4096 % 64) ∷ (128 + c / 64 % 64) ∷ (128 + c % 64) ∷ []

unfoldable pub encode : Text → Bytes
encode [] = []
encode (c ∷ s) = encode_char c ++ encode s

-- The bytes of the unfinished character: of two, of three, of four bytes.
pub data Pending : Type 0 where
  start : Pending
  two : ℕ → Pending
  three : ℕ → Pending
  three_second : ℕ → ℕ → Pending
  four : ℕ → Pending
  four_second : ℕ → ℕ → Pending
  four_third : ℕ → ℕ → ℕ → Pending

pub data Step : Type 0 where
  reject : Step
  more : Pending → Step
  emit : ℕ → Step

-- A byte between two bounds, or no text.
abbrev expect : ℕ → ℕ → ℕ → Step → Step
expect lo hi b next = if leb lo b && leb b hi then next else reject

-- A second byte below the bound would be an overlong form, or a surrogate, or past U+10FFFF.
unfoldable pub step : Pending → ℕ → Step
step start b =
    if ltb b 128
    then emit b
    else if ltb b 194
    then reject
    else if ltb b 224
    then more (two b)
    else if ltb b 240
    then more (three b)
    else if ltb b 245
    then more (four b)
    else reject
step (two a) b = expect 128 191 b (emit ((a - 192) * 64 + (b - 128)))
step (three a) b =
    expect (if a == 224 then 160 else 128) (if a == 237 then 159 else 191) b
      (more (three_second a b))
step (three_second a b) c = expect 128 191 c (emit ((a - 224) * 4096 + (b - 128) * 64 + (c - 128)))
step (four a) b =
    expect (if a == 240 then 144 else 128) (if a == 244 then 143 else 191) b
      (more (four_second a b))
step (four_second a b) c = expect 128 191 c (more (four_third a b c))
step (four_third a b c) d =
    expect 128 191 d (emit ((a - 240) * 262144 + (b - 128) * 4096 + (c - 128) * 64 + (d - 128)))

abbrev finish : Pending → Option Text
finish start = some []
finish _ = none

abbrev prepend : ℕ → Option Text → Option Text
prepend c none = none
prepend c (some s) = some (c ∷ s)

unfoldable pub decode_from : Pending → Bytes → Option Text
unfolding step
decode_from p [] = finish p
decode_from p (b ∷ s) = elim (step p b) [
  | reject ↦ none
  | more q ↦ decode_from q s
  | emit c ↦ prepend c (decode_from start s)
]

-- `none` is a `UnicodeDecodeError`.
unfoldable pub decode : Bytes → Option Text
unfolding decode_from
decode = decode_from start
