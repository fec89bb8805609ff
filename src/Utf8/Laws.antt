-- ===== src/Utf8/Laws.antt =====
-- Decoding undoes encoding, and a text has one encoding: two byte strings that decode to the same
-- text are the same.
use anycorn.Prelude.{
  ℕ, ◌+◌, ◌*◌, ◌/◌, ◌%◌, ◌≤◌, ◌<◌, ◌≡◌, refl, sym, ap, ◌∙◌, [], ◌∷◌, ◌++◌, Option, none, some,
  arith, All,
}
use mathlib.Core.List.{append_assoc}
use anycorn.Bytes.{Bytes, Text}
use anycorn.Utf8.{
  IsScalar, encode_char, encode, Pending, start, two, three, three_second, four, four_second,
  four_third, Step, reject, more, emit, step, prepend, decode_from, decode,
}

-- A finished character, from its bytes and their bounds.
module _ (s : Bytes) where
  decode_from-one : (a : ℕ) → a < 128 → decode_from start (a ∷ s) ≡ prepend a (decode_from start s)
  unfolding decode_from
  decode_from-one a h = ground arith

  decode_from-two :
      (a b c : ℕ)
      → 194 ≤ a
      → a < 224
      → 128 ≤ b
      → b ≤ 191
      → c + 12416 ≡ a * 64 + b
      → decode_from start (a ∷ b ∷ s) ≡ prepend c (decode_from start s)
  unfolding decode_from
  decode_from-two a b c h₁ h₂ h₃ h₄ e = ground arith

  decode_from-three :
      (a b c v : ℕ)
      → 224 ≤ a
      → a < 240
      → 128 ≤ b
      → b ≤ 191
      → 128 ≤ c
      → c ≤ 191
      → (a ≡ 224 → 160 ≤ b)
      → (a ≡ 237 → b ≤ 159)
      → v + 925824 ≡ a * 4096 + b * 64 + c
      → decode_from start (a ∷ b ∷ c ∷ s) ≡ prepend v (decode_from start s)
  unfolding decode_from
  decode_from-three a b c v h₁ h₂ h₃ h₄ h₅ h₆ over surr e = ground arith

  decode_from-four :
      (a b c d v : ℕ)
      → 240 ≤ a
      → a < 245
      → 128 ≤ b
      → b ≤ 191
      → 128 ≤ c
      → c ≤ 191
      → 128 ≤ d
      → d ≤ 191
      → (a ≡ 240 → 144 ≤ b)
      → (a ≡ 244 → b ≤ 143)
      → v + 63447168 ≡ a * 262144 + b * 4096 + c * 64 + d
      → decode_from start (a ∷ b ∷ c ∷ d ∷ s) ≡ prepend v (decode_from start s)
  unfolding decode_from
  decode_from-four a b c d v h₁ h₂ h₃ h₄ h₅ h₆ h₇ h₈ over top e = ground arith

module _ (c : ℕ) (s : Bytes) where
  decode-encode_char :
      IsScalar c → decode_from start (encode_char c ++ s) ≡ prepend c (decode_from start s)
  unfolding encode_char
  decode-encode_char h = ground (
    arith,
    decode_from-one s c,
    decode_from-two s (192 + c / 64) (128 + c % 64) c,
    decode_from-three s (224 + c / 4096) (128 + c / 64 % 64) (128 + c % 64) c,
    decode_from-four s (240 + c / 262144) (128 + c / 4096 % 64) (128 + c / 64 % 64) (128 + c % 64)
        c,
  )

decode_from-encode : (t : Text) → All IsScalar t → decode_from start (encode t) ≡ some t
unfolding encode
decode_from-encode [] h = unfold decode_from in refl
decode_from-encode (c ∷ t) h =
    decode-encode_char c (encode t) h.0 ∙ ap (prepend c) (decode_from-encode t h.1)

-- Every text of scalar values is decoded from its encoding.
pub decode-encode : (t : Text) → All IsScalar t → decode (encode t) ≡ some t
unfolding decode
decode-encode t h = decode_from-encode t h

-- The bytes that a state holds, and what the decoder has checked of them.
abbrev held : Pending → Bytes
held start = []
held (two a) = a ∷ []
held (three a) = a ∷ []
held (three_second a b) = a ∷ b ∷ []
held (four a) = a ∷ []
held (four_second a b) = a ∷ b ∷ []
held (four_third a b c) = a ∷ b ∷ c ∷ []

abbrev IsHeld : Pending → Type 0
IsHeld start = Unit
IsHeld (two a) = (194 ≤ a) × (a < 224)
IsHeld (three a) = (224 ≤ a) × (a < 240)
IsHeld (three_second a b) =
    (224 ≤ a) × (a < 240) × (128 ≤ b) × (b ≤ 191) × (a ≡ 224 → 160 ≤ b) × (a ≡ 237 → b ≤ 159)
IsHeld (four a) = (240 ≤ a) × (a < 245)
IsHeld (four_second a b) =
    (240 ≤ a) × (a < 245) × (128 ≤ b) × (b ≤ 191) × (a ≡ 240 → 144 ≤ b) × (a ≡ 244 → b ≤ 143)
IsHeld (four_third a b c) =
    (240 ≤ a)
    × (a < 245)
    × (128 ≤ b)
    × (b ≤ 191)
    × (128 ≤ c)
    × (c ≤ 191)
    × (a ≡ 240 → 144 ≤ b)
    × (a ≡ 244 → b ≤ 143)

step-more : (p q : Pending) (b : ℕ) → step p b ≡ more q → IsHeld p → IsHeld q
unfolding step
step-more start q b e h = ground arith
step-more _ q b e h = ground arith

held-more : (p q : Pending) (b : ℕ) → step p b ≡ more q → held q ≡ held p ++ b ∷ []
unfolding step
held-more start q b e = ground arith
held-more _ q b e = ground arith

encode_char-emit :
    (p : Pending) (b c : ℕ) → step p b ≡ emit c → IsHeld p → encode_char c ≡ held p ++ b ∷ []
unfolding step encode_char
encode_char-emit start b c e h = ground arith
encode_char-emit _ b c e h = ground arith

IsScalar-emit : (p : Pending) (b c : ℕ) → step p b ≡ emit c → IsHeld p → IsScalar c
unfolding step
IsScalar-emit start b c e h = ground arith
IsScalar-emit _ b c e h = ground arith

prepend-eq_some :
    (c : ℕ) (o : Option Text) (t : Text)
    → prepend c o ≡ some t
    → (u : Text) × (o ≡ some u) × (t ≡ c ∷ u)
prepend-eq_some c none t e = cc
prepend-eq_some c (some u) t e = (u, refl, cc)

-- What is left to read encodes the rest of the text, behind the bytes that the state holds.
abbrev Inverts : Bytes → Type 0
Inverts b =
    (p : Pending) (t : Text)
    → decode_from p b ≡ some t
    → IsHeld p
    → (encode t ≡ held p ++ b) × All IsScalar t

Inverts-nil : Inverts []
unfolding decode_from encode
Inverts-nil start t e h = ground arith
Inverts-nil (two a) t e h = cc
Inverts-nil _ t e h = cc

module _ (b : ℕ) (s : Bytes) (ih : Inverts s) (p : Pending) (t : Text) (h : IsHeld p) where
  Inverts-more :
      (q : Pending)
      → step p b ≡ more q
      → decode_from q s ≡ some t
      → (encode t ≡ held p ++ b ∷ s) × All IsScalar t
  Inverts-more q st e =
      let (same, scalars) = ih q t e (step-more p q b st h) in
      (same ∙ ap (λ l. l ++ s) (held-more p q b st) ∙ append_assoc (held p) (b ∷ []) s, scalars)

  Inverts-emit :
      (c : ℕ)
      → step p b ≡ emit c
      → prepend c (decode_from start s) ≡ some t
      → (encode t ≡ held p ++ b ∷ s) × All IsScalar t
  unfolding encode
  Inverts-emit c st e =
      let (u, rest, whole) = prepend-eq_some c (decode_from start s) t e in
      let (same, scalars) = ih start u rest tt in
      rw whole (
        ap (λ l. encode_char c ++ l) same
            ∙ ap (λ l. l ++ s) (encode_char-emit p b c st h)
            ∙ append_assoc (held p) (b ∷ []) s,
        (IsScalar-emit p b c st h, scalars),
      )

decode_from-Inverts : (b : Bytes) → Inverts b
unfolding decode_from
decode_from-Inverts [] p t e h = Inverts-nil p t e h
decode_from-Inverts (b ∷ s) p t e h = split (decode_from-Inverts s) (step p b) refl e
  where
    split :
        Inverts s
        → (r : Step) → step p b ≡ r
        → (elim r [
          | reject ↦ none
          | more q ↦ decode_from q s
          | emit c ↦ prepend c (decode_from start s)
        ])
          ≡ some t
        → (encode t ≡ held p ++ b ∷ s) × All IsScalar t
    split ih reject st d = cc
    split ih (more q) st d = Inverts-more b s ih p t h q st d
    split ih (emit c) st d = Inverts-emit b s ih p t h c st d

-- What is decoded holds scalar values, and its encoding is what was decoded.
pub encode-decode : (b : Bytes) (t : Text) → decode b ≡ some t → (encode t ≡ b) × All IsScalar t
unfolding decode
encode-decode b t e = decode_from-Inverts b start t e tt

-- Bytes that decode to one text are the same.
pub decode-injective : (a b : Bytes) (t : Text) → decode a ≡ some t → decode b ≡ some t → a ≡ b
decode-injective a b t p q = sym (encode-decode a t p).0 ∙ (encode-decode b t q).0
