-- ===== src/WsStream/Buffer/Laws.antt =====
-- What `WebsocketBuffer` (protocol/ws_stream.py) makes of the fragments of a message.
use mathlib.Core.List.{flatten, append_assoc, append-nil}
use native.Mathlib.Decide.{dec_lt}
use anycorn.Prelude.{
  ℕ, ◌+◌, ◌≤◌, ◌<◌, ◌≡◌, ◌∙◌, ap, refl, List, [], ◌∷◌, ◌++◌, none, some, length, length-append, map,
  arith,
}
use anycorn.Exec.{Result, ok, err, frame_too_large}
use anycorn.Bytes.{Text}
use anycorn.WsStream.State.{Value, text, bytes, WebsocketBuffer}
use anycorn.WsStream.Buffer.{write, extended, extend}

-- The fragments in their order, up to the first that raises
abbrev and_then :
    Result (Unit {0}) × WebsocketBuffer
    → (WebsocketBuffer → Result (Unit {0}) × WebsocketBuffer)
    → Result (Unit {0}) × WebsocketBuffer
and_then (ok u, b) f = f b
and_then (err e, b) f = (err e, b)

abbrev pub extend_all : List Value → WebsocketBuffer → Result (Unit {0}) × WebsocketBuffer
extend_all [] b = (ok tt, b)
extend_all (f ∷ fs) b = and_then (extend f b) (extend_all fs)

-- A buffer that holds `t` of a text, or of bytes
module _ (kind : Text → Value) (max : ℕ) where
  abbrev holding : Text → WebsocketBuffer
  holding t = record { value = some (kind t); length = length t; max_length = max }

-- A buffer with nothing in it
abbrev pub empty : ℕ → WebsocketBuffer
empty max = record { value = none; length = 0; max_length = max }

-- A kind of fragments: those of text, or those of bytes
pub record IsKind (kind : Text → Value) : Type 0 where
  pub more : (t s : Text) → write (some (kind t)) (kind s) ≡ ok (kind (t ++ s), length s)
  pub first : (s : Text) → write none (kind s) ≡ ok (kind s, length s)

pub text-IsKind : IsKind text
unfolding write
text-IsKind = record { more = λ t s. refl; first = λ s. refl }

pub bytes-IsKind : IsKind bytes
unfolding write
bytes-IsKind = record { more = λ t s. refl; first = λ s. refl }

module _ (kind : Text → Value) (is_kind : IsKind kind) (max : ℕ) where
  extended-fits :
      (b : WebsocketBuffer) (v : Value) (n : ℕ)
      → b.length + n ≤ b.max_length
      → extended b (ok (v, n)) ≡ (ok tt, record b { value = some v; length = b.length + n })
  unfolding extended
  extended-fits b v n h = ground arith

  extend-fits :
      (s t : Text)
      → length t + length s ≤ max
      → extend (kind s) (holding kind max t) ≡ (ok tt, holding kind max (t ++ s))
  unfolding extend
  extend-fits s t h =
      rw (is_kind.more t s, length-append t s)
        (extended-fits (holding kind max t) (kind (t ++ s)) (length s) h)

  extend-over :
      (s t : Text)
      → max < length t + length s
      → (extend (kind s) (holding kind max t)).0 ≡ err frame_too_large
  unfolding extend extended
  extend-over s t h = rw (is_kind.more t s) (ground arith)

  extend_all-holding :
      (ss : List Text) (t : Text)
      → length (t ++ flatten ss) ≤ max
      → extend_all (map kind ss) (holding kind max t) ≡ (ok tt, holding kind max (t ++ flatten ss))
  unfolding flatten
  extend_all-holding [] t h = rw (append-nil t)
  extend_all-holding (s ∷ ss) t h =
      let n : length (t ++ (s ++ flatten ss)) ≡ length t + (length s + length (flatten ss)) =
        length-append t (s ++ flatten ss) ∙ ap (λ n. length t + n) (length-append s (flatten ss)) in
      rw (extend-fits s t (omega arith), ← append_assoc t s (flatten ss))
        (extend_all-holding ss (t ++ s) (rw (append_assoc t s (flatten ss)) h))

  extend_all-over_holding :
      (ss : List Text) (t : Text)
      → length t ≤ max
      → max < length (t ++ flatten ss)
      → (extend_all (map kind ss) (holding kind max t)).0 ≡ err frame_too_large
  unfolding flatten
  extend_all-over_holding [] t l h =
      let e : length (t ++ []) ≡ length t = ap length (append-nil t) in absurd (omega arith)
  extend_all-over_holding (s ∷ ss) t l h = elim (dec_lt max (length t + length s)) [
    | yes over ↦ raised (extend (kind s) (holding kind max t)) (extend-over s t over)
    | no fits ↦ rw (extend-fits s t (omega arith)) (
        extend_all-over_holding ss (t ++ s) (omega (arith, length-append t s))
          (rw (append_assoc t s (flatten ss)) h))
  ]
    where
      raised :
          (r : Result (Unit {0}) × WebsocketBuffer)
          → r.0 ≡ err frame_too_large
          → (and_then r (extend_all (map kind ss))).0 ≡ err frame_too_large
      raised (ok u, b) e = cc
      raised (err x, b) e = e

  extend-first : (s : Text) → extend (kind s) (empty max) ≡ extend (kind s) (holding kind max [])
  unfolding extend
  extend-first s = rw (is_kind.first s, is_kind.more [] s)

  -- Fragments of one kind within the limit are put together in their order.
  extend_all-fits :
      (s : Text) (ss : List Text)
      → length (flatten (s ∷ ss)) ≤ max
      → extend_all (map kind (s ∷ ss)) (empty max) ≡ (
        ok tt,
        record {
          value = some (kind (flatten (s ∷ ss)));
          length = length (flatten (s ∷ ss));
          max_length = max;
        },
      )
  extend_all-fits s ss h = rw (extend-first s) (extend_all-holding (s ∷ ss) [] h)

  -- Fragments of one kind over the limit are refused, however they are cut.
  pub extend_all-over :
      (s : Text) (ss : List Text)
      → max < length (flatten (s ∷ ss))
      → (extend_all (map kind (s ∷ ss)) (empty max)).0 ≡ err frame_too_large
  extend_all-over s ss h = rw (extend-first s) (extend_all-over_holding (s ∷ ss) [] (omega arith) h)
