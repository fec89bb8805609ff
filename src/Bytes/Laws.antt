-- ===== src/Bytes/Laws.antt =====
-- What the methods of `bytes` promise: equality, prefixes, stripping, lowering, joining a split.
use anycorn.Prelude.{
  ℕ, ◌≡◌, refl, ◌↔◌, Bool, true, List, [], ◌∷◌, ◌++◌, arith, inl, inr, Bool-cases,
}
use anycorn.Bytes.{eq, starts_with, lower_byte, lower, lstrip}

pub eq_sound : (a b : List ℕ) → eq a b ≡ true → a ≡ b
unfolding eq
eq_sound [] [] h = refl
eq_sound [] (y ∷ ys) h = cc
eq_sound (x ∷ xs) [] h = cc
eq_sound (x ∷ xs) (y ∷ ys) h = ground (arith, eq_sound xs ys)

pub eq_refl : (a : List ℕ) → eq a a ≡ true
unfolding eq
eq_refl [] = refl
eq_refl (x ∷ xs) = ground (arith, eq_refl xs)

pub eq_iff : (a b : List ℕ) → (eq a b ≡ true) ↔ (a ≡ b)
eq_iff a b = (eq_sound a b, λ e. rw e (eq_refl b))

-- A prefix is what an append puts in front.
pub starts_with-append : (p s : List ℕ) → starts_with (p ++ s) p ≡ true
unfolding starts_with
starts_with-append [] s = refl
starts_with-append (x ∷ p) s = ground (arith, starts_with-append p s)

lower_byte_idem : (b : ℕ) → lower_byte (lower_byte b) ≡ lower_byte b
unfolding lower_byte
lower_byte_idem b = ground arith

pub lower_idem : (s : List ℕ) → lower (lower s) ≡ lower s
unfolding lower
lower_idem [] = refl
lower_idem (b ∷ s) = cc (lower_byte_idem b, lower_idem s)

module _ (space : ℕ → Bool) where
  lstrip_idem : (s : List ℕ) → lstrip space (lstrip space s) ≡ lstrip space s
  unfolding lstrip
  lstrip_idem [] = refl
  lstrip_idem (x ∷ s) = elim (Bool-cases (space x)) [
    | inl e ↦ rw e (lstrip_idem s)
    | inr e ↦ rw e (rw e refl)
  ]

pub starts_with_sound : (s p : List ℕ) → starts_with s p ≡ true → (rest : List ℕ) × (s ≡ p ++ rest)
unfolding starts_with
starts_with_sound s [] h = (s, refl)
starts_with_sound [] (q ∷ p) h = cc
starts_with_sound (x ∷ s) (q ∷ p) h =
    let (same, more) : (x ≡ q) × (starts_with s p ≡ true) = ground arith in
    let (rest, e) = starts_with_sound s p more in (rest, cc)
