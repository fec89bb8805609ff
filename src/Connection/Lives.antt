-- ===== src/Connection/Lives.antt =====
-- The life of a stream: an automaton for each number, which reads the calls about it.
pub mod Laws
use mathlib.Core.Path.{subst}
use anycorn.Prelude.{
  ℕ, ◌≡◌, refl, ◌∙◌, true, false, List, [], ◌∷◌, Option, none, some, ◌==◌, if◌then◌else◌,
  Bool-cases, inl, inr, arith, ==_iff,
}
use anycorn.Prelude.Dicts.{
  Dict, get, put, delete, get-put, get-put_other, get-delete, get-delete_other,
}
use anycorn.Connection.{
  ServerEvent, StreamKind, Call, sent, opened, abandoned, delivered, marked, dropped, flushed,
  was_reset, wrote,
}
use anycorn.Events.{Event, Request}

-- There is no stream; one that has not been called; one that has its request; one that will not be
-- given a request, which could not be made.
pub data Phase : Type 0 where
  absent fresh served stray : Phase

abbrev pub event_id : Event → ℕ
event_id (Event.request id r) = id
event_id (Event.body id chunk) = id
event_id (Event.end_body id) = id
event_id (Event.zero_copy_send id file offset count) = id
event_id (Event.trailers id headers) = id
event_id (Event.raw id chunk) = id
event_id (Event.end_raw id) = id
event_id (Event.response id headers status) = id
event_id (Event.informational id headers status) = id
event_id (Event.stream_closed id) = id

abbrev pub advance : Event → Phase → Option Phase
advance (Event.request id r) fresh = some served
advance (Event.body id chunk) served = some served
advance (Event.body id chunk) stray = some stray
advance (Event.end_body id) served = some served
advance (Event.end_body id) stray = some stray
advance (Event.stream_closed id) served = some absent
advance (Event.stream_closed id) stray = some absent
advance _ _ = none

abbrev pub strand : Phase → Option Phase
strand fresh = some stray
strand _ = none

abbrev pub observe : ℕ → Call → Option Phase → Option Phase
observe id c none = none
observe id (opened i kind) (some p) = if i == id then some fresh else some p
observe id (abandoned i) (some p) = if i == id then strand p else some p
observe id (delivered e) (some p) = if event_id e == id then advance e p else some p
observe id (dropped i) (some p) = if i == id then some absent else some p
observe id _ (some p) = some p

-- The phase of a stream after these calls, the newest first; `none` where one came out of its turn.
abbrev pub phase : ℕ → List Call → Option Phase
phase id [] = some absent
phase id (c ∷ calls) = observe id c (phase id calls)

-- A stream that can be called is in the dictionary, and no other.
pub data Agrees : Phase → Option StreamKind → Type 0 where
  nobody : Agrees absent none
  serving : {kind : StreamKind} → Agrees served (some kind)
  stranded : {kind : StreamKind} → Agrees stray (some kind)

abbrev pub InTurnAt : ℕ → List Call → Dict StreamKind → Type 0
InTurnAt id calls streams = (p : Phase) × (phase id calls ≡ some p) × Agrees p (get id streams)

-- Every stream is in its turn, and the dictionary holds those that can be called.
abbrev pub InTurn : List Call → Dict StreamKind → Type 0
InTurn calls streams = (id : ℕ) → InTurnAt id calls streams

-- So it is but for a stream that has just been made
pub record NewStream (id : ℕ) (calls : List Call) (streams : Dict StreamKind) : Type 0 where
  pub rest : (other : ℕ) → (id == other) ≡ false → InTurnAt other calls streams
  pub uncalled : phase id calls ≡ some fresh
  pub kind : StreamKind
  pub entered : get id streams ≡ some kind
