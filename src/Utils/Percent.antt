-- ===== src/Utils/Percent.antt =====
-- utils.py `decode_asgi_path` and `valid_request_target`, with the two functions of Python's
-- `urllib.parse` that requests are decoded and redirects are encoded by.
pub mod Laws
use anycorn.Prelude.{
  ℕ, ◌+◌, ◌-◌, ◌*◌, ◌/◌, ◌%◌, Bool, true, false, ◌&&◌, ◌||◌, not, List, [], ◌∷◌, ◌++◌, Option, none,
  some, ltb, leb, ◌==◌, if◌then◌else◌, all,
}
use anycorn.Exec.{Result, ok, err, invalid_request_path}
use anycorn.Bytes.{Bytes, Text}
use anycorn.Utf8.{decode}

abbrev pub percent : ℕ
percent = b'%'

-- `_HEX_DIGITS`
unfoldable pub is_hex : ℕ → Bool
is_hex b = leb 48 b && leb b 57 || leb 97 b && leb b 102 || leb 65 b && leb b 70

unfoldable pub hex_value : ℕ → ℕ
hex_value b = if leb b 57 then b - 48 else if leb b 70 then b - 55 else b - 87

-- The loop of `decode_asgi_path`: `find` goes on to the next `%`, and an escape is passed over
-- whole. False is the first `InvalidRequestPathError`.
unfoldable pub valid_escapes : Bytes → Bool
unfolding is_hex
valid_escapes [] = true
valid_escapes (b ∷ []) = not (b == percent)
valid_escapes (b ∷ c ∷ []) = not (b == percent) && valid_escapes (c ∷ [])
valid_escapes (b ∷ c ∷ d ∷ s) = elim (b == percent) [
  | true ↦ is_hex c && (is_hex d && valid_escapes s)
  | false ↦ valid_escapes (c ∷ d ∷ s)
]

-- `urllib.parse.unquote_to_bytes`: what is no escape stays as it is.
unfoldable pub unquote_to_bytes : Bytes → Bytes
unfolding is_hex hex_value
unquote_to_bytes [] = []
unquote_to_bytes (b ∷ []) = b ∷ []
unquote_to_bytes (b ∷ c ∷ []) = b ∷ unquote_to_bytes (c ∷ [])
unquote_to_bytes (b ∷ c ∷ d ∷ s) = elim (b == percent && (is_hex c && is_hex d)) [
  | true ↦ (hex_value c * 16 + hex_value d) ∷ unquote_to_bytes s
  | false ↦ b ∷ unquote_to_bytes (c ∷ d ∷ s)
]

abbrev decoded : Option Text → Result Text
decoded none = err invalid_request_path
decoded (some t) = ok t

unfoldable pub decode_asgi_path : Bytes → Result Text
unfolding valid_escapes unquote_to_bytes
decode_asgi_path raw_path =
    if valid_escapes raw_path
    then decoded (decode (unquote_to_bytes raw_path))
    else err invalid_request_path

abbrev is_vchar : ℕ → Bool
is_vchar b = leb 33 b && leb b 126

abbrev is_empty : Bytes → Bool
is_empty [] = true
is_empty (b ∷ s) = false

-- `[\x21-\x7e]+` matches the whole of it.
unfoldable pub valid_request_target : Bytes → Bool
valid_request_target raw_path = not (is_empty raw_path) && all is_vchar raw_path

unfoldable pub hex_digit : ℕ → ℕ
hex_digit n = if ltb n 10 then n + 48 else n + 55

-- `urllib.parse.quote(raw, safe)` on bytes: the letters, the digits and `_.-~` are always safe.
module _ (safe : ℕ → Bool) where
  unfoldable pub is_quote_safe : ℕ → Bool
  is_quote_safe b =
      leb 48 b && leb b 57
      || leb 65 b && leb b 90
      || leb 97 b && leb b 122
      || b == 95
      || b == 46
      || b == 45
      || b == 126
      || safe b

  unfoldable pub quote : Bytes → Bytes
  unfolding hex_digit is_quote_safe
  quote [] = []
  quote (b ∷ s) =
      (if is_quote_safe b then b ∷ [] else percent ∷ hex_digit (b / 16) ∷ hex_digit (b % 16) ∷ [])
      ++ quote s
