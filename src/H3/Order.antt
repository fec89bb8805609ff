-- ===== src/H3/Order.antt =====
-- What an `H3Protocol` (protocol/h3.py) keeps to: the order of the calls on its streams, and what it
-- writes to streams that the peer has reset.
pub mod Methods
pub mod Entries
pub mod Whole
use anycorn.Prelude.{
  ℕ, ◌≡◌, refl, ◌∙◌, sym, ap, Bool, true, false, not, ◌&&◌, ◌||◌, List, [], ◌∷◌, ◌==◌, is_some,
  Bool-cases, inl, inr, arith,
}
use anycorn.Prelude.Dicts.{
  Dict, get, put, delete, get-put_same, get-put_other, get-delete_same, get-delete_other,
}
use anycorn.Connection.{StreamKind, Call, was_reset, wrote, dropped}
use anycorn.Connection.Lives.{InTurn, NewStream}
use anycorn.H3.State.{World}
use anycorn.H3.Handle.{Protocol}

-- Whether the peer has reset the stream of this number, which has not closed itself since
abbrev pub is_reset_by : ℕ → List Call → Bool
is_reset_by id [] = false
is_reset_by id (was_reset i ∷ calls) = (i == id) || is_reset_by id calls
is_reset_by id (dropped i ∷ calls) = not (i == id) && is_reset_by id calls
is_reset_by id (_ ∷ calls) = is_reset_by id calls

-- Headers and data were written only to streams that were not reset, but for push promises.
-- `promised` is not looked at.
abbrev pub Spares : List Call → Type 0
Spares [] = Unit
Spares (wrote id ∷ calls) = (is_reset_by id calls ≡ false) × Spares calls
Spares (_ ∷ calls) = Spares calls

-- The set of the streams that were reset
abbrev pub Marks : List Call → Dict (Unit {0}) → Type 0
Marks calls reset = (id : ℕ) → is_some (get id reset) ≡ is_reset_by id calls

pub Marks-was_reset :
    (id : ℕ) (calls : List Call) (reset : Dict (Unit {0}))
    → Marks calls reset
    → Marks (was_reset id ∷ calls) (put id tt reset)
Marks-was_reset id calls reset m i = elim (Bool-cases (id == i)) [
  | inl e ↦ rw (get-put_same id i tt reset e) (rw e refl)
  | inr e ↦ rw (get-put_other id i tt reset e) (rw e (m i))
]

pub Marks-dropped :
    (id : ℕ) (calls : List Call) (reset : Dict (Unit {0}))
    → Marks calls reset
    → Marks (dropped id ∷ calls) (delete id reset)
Marks-dropped id calls reset m i = elim (Bool-cases (id == i)) [
  | inl e ↦ rw (get-delete_same id i reset e) (rw e refl)
  | inr e ↦ rw (get-delete_other id i reset e) (rw e (m i))
]

module _ (x : World) where
  -- Every stream is in its turn, the set of the streams that were reset is right, and none of them was
  -- written to.
  pub record IsSound (s : Protocol x) : Type 0 where
    pub turns : InTurn s.calls s.streams
    pub marks : Marks s.calls s.reset_streams
    pub spares : Spares s.calls

  -- So it is but for the turn of a stream that has just been made
  pub record IsOpening (id : ℕ) (s : Protocol x) : Type 0 where
    pub fresh_one : NewStream id s.calls s.streams
    pub marks : Marks s.calls s.reset_streams
    pub spares : Spares s.calls
