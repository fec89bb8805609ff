-- ===== src/Prelude/Dicts.antt =====
-- Dictionaries keyed by numbers, in the order of insertion.
use Prim.Native.Nat.{ℕ}
use mathlib.Core.Path.{subst, ◌≡◌, refl}
use mathlib.Core.Bool.{true, false}
use mathlib.Core.Option.{Option, none, some}
use mathlib.Core.List.{List, [], ◌∷◌}
use native.Mathlib.Omega.{arith}
use anycorn.Prelude.Tests.{==_iff, ◌==◌, if◌then◌else◌}

abbrev pub Dict {ℓ} : Type ℓ → Type ℓ
Dict A = List (ℕ × A)

module _ {ℓ} {A : Type ℓ} where
  -- `d.get(key)`
  abbrev pub get : ℕ → Dict A → Option A
  get key [] = none
  get key ((k, a) ∷ d) = if k == key then some a else get key d

  -- `d[key] = value`
  abbrev pub put : ℕ → A → Dict A → Dict A
  put key value [] = (key, value) ∷ []
  put key value ((k, a) ∷ d) =
      let rest = put key value d in if k == key then (k, value) ∷ d else (k, a) ∷ rest

  -- `del d[key]`, or `d.pop(key, None)`
  abbrev pub delete : ℕ → Dict A → Dict A
  delete key [] = []
  delete key ((k, a) ∷ d) = let rest = delete key d in if k == key then rest else (k, a) ∷ rest

  -- `list(d.keys())`
  abbrev pub keys : Dict A → List ℕ
  keys [] = []
  keys ((k, a) ∷ d) = k ∷ keys d

  pub get-put : (key : ℕ) (value : A) (d : Dict A) → get key (put key value d) ≡ some value
  get-put key value [] = ground arith
  get-put key value ((k, a) ∷ d) = let ih = get-put key value d in ground arith

  pub get-put_other :
      (key other : ℕ) (value : A) (d : Dict A)
      → (key == other) ≡ false
      → get other (put key value d) ≡ get other d
  get-put_other key other value [] h = ground arith
  get-put_other key other value ((k, a) ∷ d) h =
      let ih = get-put_other key other value d h in ground arith

  pub get-delete : (key : ℕ) (d : Dict A) → get key (delete key d) ≡ none
  get-delete key [] = refl
  get-delete key ((k, a) ∷ d) = let ih = get-delete key d in ground arith

  pub get-delete_other :
      (key other : ℕ) (d : Dict A) → (key == other) ≡ false → get other (delete key d) ≡ get other d
  get-delete_other key other [] h = refl
  get-delete_other key other ((k, a) ∷ d) h =
      let ih = get-delete_other key other d h in ground arith

  pub get-put_same :
      (key other : ℕ) (value : A) (d : Dict A)
      → (key == other) ≡ true
      → get other (put key value d) ≡ some value
  get-put_same key other value d e =
      subst (λ k. get k (put key value d) ≡ some value) ((==_iff key other).0 e)
        (get-put key value d)

  pub get-delete_same :
      (key other : ℕ) (d : Dict A) → (key == other) ≡ true → get other (delete key d) ≡ none
  get-delete_same key other d e =
      subst (λ k. get k (delete key d) ≡ none) ((==_iff key other).0 e) (get-delete key d)
