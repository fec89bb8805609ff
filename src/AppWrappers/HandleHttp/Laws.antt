-- ===== src/AppWrappers/HandleHttp/Laws.antt =====
-- How much of a request's body `handle_http` (app_wrappers.py) takes, and which.
use mathlib.Core.List.{append_assoc}
use anycorn.Prelude.{
  ℕ, ◌≤◌, ◌≡◌, ◌↔◌, ◌∙◌, sym, ap, refl, Bool, true, false, List, [], ◌∷◌, ◌++◌, Option, none, some,
  length, length-append, ltb, ltb→le, Bool-cases, Option-cases, inl, inr, arith,
}
use anycorn.Bytes.{Bytes}
use anycorn.AppWrappers.HandleHttp.{Reading, too_large, whole, read_message, read_body}

-- A chunk in front of the rest, where there is one
abbrev pub in_front : Bytes → Option Bytes → Option Bytes
in_front chunk none = none
in_front chunk (some rest) = some (chunk ++ rest)

-- The body of these messages, up to the first one that says there is no more; `none` without one
abbrev pub body_of : List (Bytes × Bool) → Option Bytes
body_of [] = none
body_of ((chunk, true) ∷ messages) = in_front chunk (body_of messages)
body_of ((chunk, false) ∷ messages) = some chunk

whole-injective : {b c : Bytes} → whole b ≡ whole c → b ≡ c
whole-injective e = cc

some-injective : {b c : Bytes} → some b ≡ some c → b ≡ c
some-injective e = cc

over :
    (max : ℕ) (before : Bytes) (more_body : Bool) (rest : Reading)
    → ltb max (length before) ≡ true
    → read_message max before more_body rest ≡ too_large
unfolding read_message
over max before more_body rest h = rw h refl

more :
    (max : ℕ) (before : Bytes) (rest : Reading)
    → ltb max (length before) ≡ false
    → read_message max before true rest ≡ rest
unfolding read_message
more max before rest h = rw h refl

last :
    (max : ℕ) (before : Bytes) (rest : Reading)
    → ltb max (length before) ≡ false
    → read_message max before false rest ≡ whole before
unfolding read_message
last max before rest h = rw h refl

not_large : {b : Bytes} → too_large ≡ whole b → ⊥
not_large e = cc

read_body_sound :
    (max : ℕ) (before : Bytes) (messages : List (Bytes × Bool)) (b : Bytes)
    → read_body max before messages ≡ whole b
    → (rest : Bytes) × (body_of messages ≡ some rest) × (b ≡ before ++ rest) × (length b ≤ max)
unfolding read_body
read_body_sound max before [] b e = absurd cc
read_body_sound max before ((chunk, true) ∷ messages) b e =
    elim (Bool-cases (ltb max (length (before ++ chunk)))) [
      | inl h ↦ absurd (
          not_large (
            rw (over max (before ++ chunk) true (read_body max (before ++ chunk) messages) h) at e))
      | inr h ↦
          let (rest, o, is, l) =
            read_body_sound max (before ++ chunk) messages b
              (rw (more max (before ++ chunk) (read_body max (before ++ chunk) messages) h) at e) in
          (chunk ++ rest, ap (in_front chunk) o, is ∙ append_assoc before chunk rest, l)
    ]
read_body_sound max before ((chunk, false) ∷ messages) b e =
    elim (Bool-cases (ltb max (length (before ++ chunk)))) [
      | inl h ↦ absurd (
          not_large (
            rw (over max (before ++ chunk) false (read_body max (before ++ chunk) messages) h) at
              e))
      | inr h ↦
          let is =
            whole-injective
              (rw (last max (before ++ chunk) (read_body max (before ++ chunk) messages) h) at e) in
          (chunk, refl, sym is, rw⁻¹ is (ltb→le max (length (before ++ chunk)) h))
    ]

-- A body within the limit
fits :
    (max : ℕ) (before rest : Bytes)
    → length (before ++ rest) ≤ max
    → ltb max (length before) ≡ false
fits max before rest l = let n = length-append before rest in ground arith

within : (max : ℕ) (b : Bytes) → length b ≤ max → ltb max (length b) ≡ false
within max b l = ground arith

not_none : {b : Bytes} → none ≡ some b → ⊥
not_none e = cc

read_body_complete :
    (max : ℕ) (before : Bytes) (messages : List (Bytes × Bool)) (rest : Bytes)
    → body_of messages ≡ some rest
    → length (before ++ rest) ≤ max
    → read_body max before messages ≡ whole (before ++ rest)
unfolding read_body
read_body_complete max before [] rest e l = absurd cc
read_body_complete max before ((chunk, false) ∷ messages) rest e l =
    let is = some-injective e in
    last max (before ++ chunk) (read_body max (before ++ chunk) messages)
      (within max (before ++ chunk) (rw is l))
    ∙ ap (λ c. whole (before ++ c)) is
read_body_complete max before ((chunk, true) ∷ messages) rest e l =
    elim (Option-cases (body_of messages)) [
      | inl o ↦ absurd (not_none (rw o at e))
      | inr (r, o) ↦
          let is : chunk ++ r ≡ rest = some-injective (rw o at e) in
          let size : length ((before ++ chunk) ++ r) ≤ max =
            rw (append_assoc before chunk r, is) l in
          more max (before ++ chunk) (read_body max (before ++ chunk) messages)
            (fits max (before ++ chunk) r size)
          ∙ read_body_complete max (before ++ chunk) messages r o size
          ∙ ap whole (append_assoc before chunk r ∙ ap (λ c. before ++ c) is)
    ]

-- The application is given a body exactly where it is within the limit, and it is the whole of it.
pub read_body_iff :
    (max : ℕ) (messages : List (Bytes × Bool)) (b : Bytes)
    → (read_body max [] messages ≡ whole b) ↔ ((body_of messages ≡ some b) × (length b ≤ max))
read_body_iff max messages b = (
  λ e. let (rest, o, is, l) = read_body_sound max [] messages b e in (o ∙ ap some (sym is), l),
  λ (o, l). read_body_complete max [] messages b o l,
)
