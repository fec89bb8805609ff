-- ===== src/Middleware/ProxyFix/Hops.antt =====
-- What the proxies in front do to the headers that middleware/proxy_fix.py reads.
use mathlib.Core.List.{append_assoc, append-nil}
use anycorn.Prelude.{
  ℕ, ◌≡◌, ◌∙◌, sym, ap, refl, false, List, [], ◌∷◌, ◌++◌, map, ◌==◌, All, Bool-cases, inl, inr,
  arith,
}
use anycorn.Bytes.{Bytes, Headers, eq, lower, split, latin_strip, has}
use anycorn.Bytes.Laws.{eq_refl}
use anycorn.Middleware.ProxyFix.{values_of}

-- A proxy appends `v` to the headers of this name, which is in lower case: in a line of its own behind
-- the others, or behind a comma in the last line of this name.
pub data Hop (name v : Bytes) (before after : Headers) : Type 0 where
  own_line : (n : Bytes) → lower n ≡ name → after ≡ before ++ (n, v) ∷ [] → Hop name v before after
  joined :
      (n old : Bytes) (xs ys : Headers)
      → lower n ≡ name
      → All (λ h. eq (lower h.0) name ≡ false) ys
      → before ≡ xs ++ (n, old) ∷ ys
      → after ≡ xs ++ (n, old ++ b',' ∷ v) ∷ ys
      → Hop name v before after

-- The proxies append these values one after another, and may put in headers of other names.
pub data Hops (name : Bytes) : List Bytes → Headers → Headers → Type 0 where
  arrived : {hs : Headers} → Hops name [] hs hs
  passed :
      {v : Bytes} {vs : List Bytes} {a b c : Headers}
      → Hop name v a b
      → Hops name vs b c
      → Hops name (v ∷ vs) a c
  other :
      {vs : List Bytes} {b c : Headers} (n w : Bytes) (xs ys : Headers)
      → eq (lower n) name ≡ false
      → b ≡ xs ++ (n, w) ∷ ys
      → Hops name vs b c
      → Hops name vs (xs ++ ys) c

values_of-here :
    (name n v : Bytes) (headers : Headers)
    → lower n ≡ name
    → values_of name ((n, v) ∷ headers) ≡ map latin_strip (split b',' v) ++ values_of name headers
unfolding values_of
values_of-here name n v headers h = rw (h, eq_refl name) refl

values_of-other :
    (name n v : Bytes) (headers : Headers)
    → eq (lower n) name ≡ false
    → values_of name ((n, v) ∷ headers) ≡ values_of name headers
unfolding values_of
values_of-other name n v headers h = rw h refl

values_of-append :
    (name : Bytes) (a b : Headers) → values_of name (a ++ b) ≡ values_of name a ++ values_of name b
unfolding values_of
values_of-append name [] b = refl
values_of-append name ((n, v) ∷ a) b = elim (Bool-cases (eq (lower n) name)) [
  | inl e ↦ rw (
    e,
    values_of-append name a b,
    append_assoc (map latin_strip (split b',' v)) (values_of name a) (values_of name b),
  )
  | inr e ↦ rw e (values_of-append name a b)
]

values_of-unnamed :
    (name : Bytes) (hs : Headers)
    → All (λ h. eq (lower h.0) name ≡ false) hs
    → values_of name hs ≡ []
values_of-unnamed name [] h = unfold values_of in refl
values_of-unnamed name ((n, v) ∷ hs) h =
    values_of-other name n v hs h.0 ∙ values_of-unnamed name hs h.1

split-whole : (sep : ℕ) (s : Bytes) → has sep s ≡ false → split sep s ≡ s ∷ []
unfolding has split
split-whole sep [] h = refl
split-whole sep (x ∷ s) h = ground (arith, split-whole sep s)

split-nonempty :
    (sep : ℕ) (s : Bytes) → (part : Bytes) × (parts : List Bytes) × (split sep s ≡ part ∷ parts)
unfolding split
split-nonempty sep [] = ([], [], refl)
split-nonempty sep (x ∷ s) =
    let (part, parts, e) = split-nonempty sep s in
    elim (Bool-cases (x == sep)) [
      | inl h ↦ ([], part ∷ parts, rw (h, e) refl)
      | inr h ↦ (x ∷ part, parts, rw (h, e) refl)
    ]

-- A value put behind a comma is the last part.
pub split-join :
    (sep : ℕ) (old s : Bytes)
    → has sep s ≡ false
    → split sep (old ++ sep ∷ s) ≡ split sep old ++ s ∷ []
unfolding split
split-join sep [] s h = ground (arith, split-whole sep s h)
split-join sep (x ∷ old) s h =
    let (part, parts, e) = split-nonempty sep old in
    elim (Bool-cases (x == sep)) [
      | inl d ↦ rw (d, split-join sep old s h) refl
      | inr d ↦ rw (d, split-join sep old s h, e) refl
    ]

map-append : {A B : Type 0} (f : A → B) (xs ys : List A) → map f (xs ++ ys) ≡ map f xs ++ map f ys
map-append f [] ys = refl
map-append f (x ∷ xs) ys = ap (λ l. f x ∷ l) (map-append f xs ys)

module _ (name : Bytes) where
  Hop-values :
      (v : Bytes) (before after : Headers)
      → has b',' v ≡ false
      → Hop name v before after
      → values_of name after ≡ values_of name before ++ latin_strip v ∷ []
  Hop-values v before after h (own_line n lowered e) = rw e (
      values_of-append name before ((n, v) ∷ [])
      ∙ ap (λ l. values_of name before ++ l)
          (values_of-here name n v [] lowered
            ∙ unfold values_of in ap (λ l. map latin_strip l ++ []) (split-whole b',' v h)))
  Hop-values v before after h (joined n old xs ys lowered unnamed e e') = rw e' (
      values_of-append name xs ((n, old ++ b',' ∷ v) ∷ ys)
      ∙ ap (λ l. values_of name xs ++ l) (values_of-here name n (old ++ b',' ∷ v) ys lowered ∙ tail)
      ∙ sym
          (append_assoc (values_of name xs) (map latin_strip (split b',' old)) (latin_strip v ∷ []))
      ∙ sym (ap (λ l. l ++ latin_strip v ∷ []) was))
    where
      tail :
          map latin_strip (split b',' (old ++ b',' ∷ v)) ++ values_of name ys
          ≡ map latin_strip (split b',' old) ++ latin_strip v ∷ []
      tail =
          rw
            (
              values_of-unnamed name ys unnamed,
              append-nil (map latin_strip (split b',' (old ++ b',' ∷ v))),
              split-join b',' old v h,
              map-append latin_strip (split b',' old) (v ∷ []),
            )
            refl

      was : values_of name before ≡ values_of name xs ++ map latin_strip (split b',' old)
      was = rw e (
          values_of-append name xs ((n, old) ∷ ys)
          ∙ ap (λ l. values_of name xs ++ l)
              (values_of-here name n old ys lowered
                ∙ rw (values_of-unnamed name ys unnamed)
                    (append-nil (map latin_strip (split b',' old)))))

  values_of-inserted :
      (n w : Bytes) (xs ys : Headers)
      → eq (lower n) name ≡ false
      → values_of name (xs ++ (n, w) ∷ ys) ≡ values_of name (xs ++ ys)
  values_of-inserted n w xs ys h =
      values_of-append name xs ((n, w) ∷ ys)
      ∙ ap (λ l. values_of name xs ++ l) (values_of-other name n w ys h)
      ∙ sym (values_of-append name xs ys)

  -- The values that the proxies append come last, in their order.
  pub Hops-values :
      {vs : List Bytes} {sent headers : Headers}
      → All (λ v. has b',' v ≡ false) vs
      → Hops name vs sent headers
      → values_of name headers ≡ values_of name sent ++ map latin_strip vs
  Hops-values {sent} h arrived = sym (append-nil (values_of name sent))
  Hops-values {sent} h (passed {v} {vs} {a} {b} {c} hop hops) =
      Hops-values h.1 hops
      ∙ ap (λ l. l ++ map latin_strip vs) (Hop-values v a b h.0 hop)
      ∙ append_assoc (values_of name a) (latin_strip v ∷ []) (map latin_strip vs)
  Hops-values h (other {vs} {b} {c} n w xs ys d e hops) =
      Hops-values h hops
      ∙ ap (λ l. l ++ map latin_strip vs) (ap (values_of name) e ∙ values_of-inserted n w xs ys d)
