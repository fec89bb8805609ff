-- ===== src/Utils/Percent/Laws.antt =====
-- Decoding a quoted path gives the path back, a decoded path determines its bytes, and a malformed
-- escape or a byte string that is not UTF-8 is refused.
use anycorn.Prelude.{
  ℕ, ◌+◌, ◌*◌, ◌/◌, ◌%◌, ◌<◌, ◌≡◌, refl, ap, sym, ◌∙◌, Bool, true, false, [], ◌∷◌, ◌++◌, some,
  arith, ==_iff, Bool-cases, inl, inr, All, ◌==◌, ◌↔◌, ◌≤◌, ◌≢◌, ◌⊎◌, ◌&&◌, not,
}
use anycorn.Exec.{ok}
use anycorn.Bytes.{Bytes, Text, IsBytes}
use anycorn.Utf8.{IsScalar, encode, decode, encode_char}
use anycorn.Utf8.Laws.{encode-decode, decode-encode}
use anycorn.Utils.Percent.{
  percent, is_hex, hex_value, valid_escapes, unquote_to_bytes, decode_asgi_path, hex_digit,
  is_quote_safe, quote, decoded,
}

hex_digit_lem : (n : ℕ) → n < 16 → (is_hex (hex_digit n) ≡ true) × (hex_value (hex_digit n) ≡ n)
unfolding is_hex hex_value hex_digit
hex_digit_lem n h = ground arith

-- An escape in front is one byte, and a byte that is no `%` is itself.
valid_escapes-escape :
    (c d : ℕ) (s : Bytes)
    → is_hex c ≡ true
    → is_hex d ≡ true
    → valid_escapes (percent ∷ c ∷ d ∷ s) ≡ valid_escapes s
unfolding valid_escapes
valid_escapes-escape c d s hc hd = rw (hc, hd) refl

valid_escapes-plain :
    (b : ℕ) (s : Bytes) → (b == percent) ≡ false → valid_escapes (b ∷ s) ≡ valid_escapes s
unfolding valid_escapes
valid_escapes-plain b [] h = rw h
valid_escapes-plain b (c ∷ []) h = rw h refl
valid_escapes-plain b (c ∷ d ∷ s) h = rw (h, valid_escapes) refl

unquote-escape :
    (c d : ℕ) (s : Bytes)
    → is_hex c ≡ true
    → is_hex d ≡ true
    → unquote_to_bytes (percent ∷ c ∷ d ∷ s) ≡ (hex_value c * 16 + hex_value d) ∷ unquote_to_bytes s
unfolding unquote_to_bytes
unquote-escape c d s hc hd = ground arith

unquote-plain :
    (b : ℕ) (s : Bytes) → (b == percent) ≡ false → unquote_to_bytes (b ∷ s) ≡ b ∷ unquote_to_bytes s
unfolding unquote_to_bytes
unquote-plain b [] h = refl
unquote-plain b (c ∷ []) h = refl
unquote-plain b (c ∷ d ∷ s) h = rw (h, unquote_to_bytes) refl

unquote_step :
    (b : ℕ)
    → b < 256
    → (s : Bytes)
    → unquote_to_bytes (percent ∷ hex_digit (b / 16) ∷ hex_digit (b % 16) ∷ s)
      ≡ b ∷ unquote_to_bytes s
unquote_step b h s =
    let (hex₁, value₁) = hex_digit_lem (b / 16) (omega arith) in
    let (hex₂, value₂) = hex_digit_lem (b % 16) (omega arith) in
    unquote-escape _ _ s hex₁ hex₂ ∙ ap (λ n. n ∷ unquote_to_bytes s) (omega arith)

IsBytes-append : (a b : Bytes) → IsBytes a → IsBytes b → IsBytes (a ++ b)
IsBytes-append [] b ha hb = hb
IsBytes-append (x ∷ a) b ha hb = (ha.0, IsBytes-append a b ha.1 hb)

IsBytes-encode_char : (c : ℕ) → IsScalar c → IsBytes (encode_char c)
unfolding encode_char
IsBytes-encode_char c h = ground arith

pub IsBytes-encode : (t : Text) → All IsScalar t → IsBytes (encode t)
unfolding encode
IsBytes-encode [] h = tt
IsBytes-encode (c ∷ t) h =
    IsBytes-append (encode_char c) (encode t) (IsBytes-encode_char c h.0) (IsBytes-encode t h.1)

module _ (safe : ℕ → Bool) (no_percent : safe percent ≡ false) where
  percent_unsafe : (b : ℕ) → is_quote_safe safe b ≡ true → (b == percent) ≡ false
  unfolding is_quote_safe
  percent_unsafe b h = elim (Bool-cases (b == percent)) [
    | inl e ↦ let p = (==_iff b percent).0 e in ground (arith, ap safe p)
    | inr e ↦ e
  ]

  valid_escapes-quote : (s : Bytes) → IsBytes s → valid_escapes (quote safe s) ≡ true
  unfolding quote
  valid_escapes-quote [] h = unfold valid_escapes in refl
  valid_escapes-quote (b ∷ s) (hb, h) = elim (Bool-cases (is_quote_safe safe b)) [
    | inl e ↦
        rw e (valid_escapes-plain b (quote safe s) (percent_unsafe b e) ∙ valid_escapes-quote s h)
    | inr e ↦ rw e (
        valid_escapes-escape _ _ (quote safe s) (hex_digit_lem (b / 16) (omega arith)).0
          (hex_digit_lem (b % 16) (omega arith)).0
        ∙ valid_escapes-quote s h)
  ]

  unquote-quote : (s : Bytes) → IsBytes s → unquote_to_bytes (quote safe s) ≡ s
  unfolding quote
  unquote-quote [] h = unfold unquote_to_bytes in refl
  unquote-quote (b ∷ s) (hb, h) = elim (Bool-cases (is_quote_safe safe b)) [
    | inl e ↦
        rw e (
          unquote-plain b (quote safe s) (percent_unsafe b e) ∙ ap (λ l. b ∷ l) (unquote-quote s h))
    | inr e ↦ rw e (unquote_step b hb (quote safe s) ∙ ap (λ l. b ∷ l) (unquote-quote s h))
  ]

  -- Decoding undoes quoting: the path of a text is decoded from its quoted encoding, whatever else
  -- than `%` is left as it is.
  pub decode_asgi_path-quote :
      (t : Text) → All IsScalar t → decode_asgi_path (quote safe (encode t)) ≡ ok t
  unfolding decode_asgi_path
  decode_asgi_path-quote t h = rw (valid_escapes-quote (encode t) (IsBytes-encode t h)) (
      ap (λ b. decoded (decode b)) (unquote-quote (encode t) (IsBytes-encode t h))
      ∙ ap decoded (decode-encode t h))

decoded-eq_ok :
    (raw : Bytes) (t : Text)
    → decode_asgi_path raw ≡ ok t
    → (valid_escapes raw ≡ true) × (decode (unquote_to_bytes raw) ≡ some t)
unfolding decode_asgi_path
decoded-eq_ok raw t h = ground arith

abbrev pub IsHexDigit : ℕ → Type 0
IsHexDigit c = ((b'0' ≤ c) × (c ≤ b'9')) ⊎ (((b'a' ≤ c) × (c ≤ b'f')) ⊎ ((b'A' ≤ c) × (c ≤ b'F')))

-- Every `%` has two hexadecimal digits behind it, which belong to it.
pub data IsEscaped : Bytes → Type 0 where
  done : IsEscaped []
  plain : {b : ℕ} {s : Bytes} → b ≢ b'%' → IsEscaped s → IsEscaped (b ∷ s)
  escape :
      {c d : ℕ} {s : Bytes}
      → IsHexDigit c
      → IsHexDigit d
      → IsEscaped s
      → IsEscaped (b'%' ∷ c ∷ d ∷ s)

is_hex_iff : (c : ℕ) → (is_hex c ≡ true) ↔ IsHexDigit c
unfolding is_hex
is_hex_iff c = (λ h. ground arith, λ h. ground arith)

plain_byte : (b : ℕ) → (b == percent) ≡ false → b ≢ b'%'
plain_byte b h e = let t = (==_iff b percent).1 e in cc

IsEscaped-valid_escapes : {s : Bytes} → IsEscaped s → valid_escapes s ≡ true
IsEscaped-valid_escapes done = unfold valid_escapes in refl
IsEscaped-valid_escapes (plain {b} {s} n e) =
    valid_escapes-plain b s (ground arith) ∙ IsEscaped-valid_escapes e
IsEscaped-valid_escapes (escape {c} {d} {s} hc hd e) =
    valid_escapes-escape c d s ((is_hex_iff c).1 hc) ((is_hex_iff d).1 hd)
    ∙ IsEscaped-valid_escapes e

and_both : (a b : Bool) → (a && b) ≡ true → (a ≡ true) × (b ≡ true)
and_both a b h = ground arith

valid_escapes-IsEscaped : (s : Bytes) → valid_escapes s ≡ true → IsEscaped s
unfolding valid_escapes
valid_escapes-IsEscaped [] h = done
valid_escapes-IsEscaped (b ∷ []) h = plain (plain_byte b (ground arith)) done
valid_escapes-IsEscaped (b ∷ c ∷ []) h =
    let (p, q) = and_both (not (b == percent)) (valid_escapes (c ∷ [])) h in
    plain (plain_byte b (ground arith)) (valid_escapes-IsEscaped (c ∷ []) q)
valid_escapes-IsEscaped (b ∷ c ∷ d ∷ s) h = elim (Bool-cases (b == percent)) [
  | inl e ↦
      let (hc, rest) =
        and_both (is_hex c) (is_hex d && valid_escapes s) (rw ((==_iff b percent).0 e) at h) in
      let (hd, later) = and_both (is_hex d) (valid_escapes s) rest in
      rw ((==_iff b percent).0 e)
        (escape ((is_hex_iff c).0 hc) ((is_hex_iff d).0 hd) (valid_escapes-IsEscaped s later))
  | inr e ↦
      plain (plain_byte b e)
        (valid_escapes-IsEscaped (c ∷ d ∷ s) (sym (valid_escapes-plain b (c ∷ d ∷ s) e) ∙ h))
]

-- A path is decoded exactly when each `%` in it has two hexadecimal digits of its own behind it and it is UTF-8 once unquoted, and
-- then its encoding is the unquoted path: nothing is replaced.
pub decode_asgi_path_iff :
    (raw : Bytes) (t : Text)
    → (decode_asgi_path raw ≡ ok t)
      ↔ (IsEscaped raw × All IsScalar t × (encode t ≡ unquote_to_bytes raw))
decode_asgi_path_iff raw t = (
  λ h.
      let (escapes, utf8) = decoded-eq_ok raw t h in
      let (same, scalars) = encode-decode (unquote_to_bytes raw) t utf8 in
      (valid_escapes-IsEscaped raw escapes, scalars, same),
  λ h.
      let utf8 : decode (unquote_to_bytes raw) ≡ some t = rw (← h.2) (decode-encode t h.1) in
      unfold decode_asgi_path in rw (IsEscaped-valid_escapes h.0, utf8),
)

-- Two request paths are decoded to the same text only if they are the same bytes once unquoted.
decode_asgi_path-injective :
    (a b : Bytes) (t : Text)
    → decode_asgi_path a ≡ ok t
    → decode_asgi_path b ≡ ok t
    → unquote_to_bytes a ≡ unquote_to_bytes b
decode_asgi_path-injective a b t p q =
    sym ((decode_asgi_path_iff a t).0 p).2 ∙ ((decode_asgi_path_iff b t).0 q).2
