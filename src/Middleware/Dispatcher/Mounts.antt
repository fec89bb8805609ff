-- ===== src/Middleware/Dispatcher/Mounts.antt =====
-- Which paths a mount of middleware/dispatcher.py takes.
use mathlib.Core.List.{append_assoc}
use anycorn.Prelude.{◌≡◌, ◌↔◌, ◌⊎◌, inl, inr, ◌∙◌, Bool, true, ◌||◌, [], ◌∷◌, ◌++◌, arith}
use anycorn.Bytes.{Text, eq, starts_with, rstrip}
use anycorn.Bytes.Laws.{eq_refl, eq_sound, starts_with-append, starts_with_sound}
use anycorn.Middleware.Dispatcher.{is_slash, mounted_at}

or-eq_true : (a b : Bool) → (a || b) ≡ true → (a ≡ true) ⊎ (b ≡ true)
or-eq_true a b h = ground arith

or_true : (a b : Bool) → b ≡ true → (a || b) ≡ true
or_true a b h = ground arith

-- With strict paths a mount takes its own path and what lies below it, and no path that only shares
-- a prefix with it.
pub mounted_at_iff :
    (path mount : Text)
    → (mounted_at true path mount ≡ true)
      ↔ ((path ≡ mount) ⊎ ((rest : Text) × (path ≡ rstrip is_slash mount ++ b'/' ∷ rest)))
unfolding mounted_at
mounted_at_iff path mount = (
  λ h. elim (or-eq_true (eq path mount) (starts_with path (rstrip is_slash mount ++ b'/' ∷ [])) h) [
    | inl e ↦ inl (eq_sound path mount e)
    | inr e ↦
        let (rest, e') = starts_with_sound path (rstrip is_slash mount ++ b'/' ∷ []) e in
        inr (rest, e' ∙ append_assoc (rstrip is_slash mount) (b'/' ∷ []) rest)
  ],
  λ h. elim h [
    | inl e ↦ rw (e, eq_refl mount)
    | inr (rest, e) ↦
        or_true (eq path mount) (starts_with path (rstrip is_slash mount ++ b'/' ∷ [])) (
          rw (e, ← append_assoc (rstrip is_slash mount) (b'/' ∷ []) rest)
            (starts_with-append (rstrip is_slash mount ++ b'/' ∷ []) rest))
  ],
)
