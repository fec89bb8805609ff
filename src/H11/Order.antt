-- ===== src/H11/Order.antt =====
-- What `H11Protocol` (protocol/h11.py) relies on in h11, and the order of its calls on streams.
pub mod Sending
pub mod Streams
pub mod Opening
pub mod Reading
pub mod Whole
pub mod Faults
use anycorn.Prelude.{ℕ, ◌≡◌, ◌≢◌, refl, Bool, true, false, List, [], ◌∷◌, Option, none, some}
use anycorn.Exec.{ok}
use anycorn.Bytes.{Bytes}
use anycorn.Events.{Event, ℤ}
use anycorn.H11.State.{
  Side, H11, H11Request, H11Event, Next, Sendable, Wire, plain, websocket, StreamKind, Call,
  Surroundings, opened, delivered,
}
use anycorn.H11.Calls.{Protocol}

-- h11's rules for the client's side: a request comes where the side is `IDLE`, and takes it from
-- there; nothing but `start_next_cycle` leads back.
pub record Lawful (h : H11) : Type 0 where
  pub from_idle :
      (c : h.Connection) (r : H11Request)
      → (h.next_event c).0 ≡ Next.event (H11Event.request r)
      → (h.their_state c ≡ Side.idle) × (h.their_state (h.next_event c).1 ≢ Side.idle)
  pub next_event_taken :
      (c : h.Connection)
      → h.their_state c ≢ Side.idle
      → h.their_state (h.next_event c).1 ≢ Side.idle
  pub receive_data_taken :
      (chunk : Bytes) (c c' : h.Connection)
      → h.receive_data chunk c ≡ ok c'
      → h.their_state c ≢ Side.idle
      → h.their_state c' ≢ Side.idle
  pub send_taken :
      (e : Sendable) (c : h.Connection)
      → h.their_state c ≢ Side.idle
      → h.their_state (h.send e c).1 ≢ Side.idle
  pub send_passthrough_taken :
      (n : ℤ) (c : h.Connection)
      → h.their_state c ≢ Side.idle
      → h.their_state (h.send_passthrough n c).1 ≢ Side.idle

-- No stream is there, or one without its request yet, or one with it.
pub data Phase : Type 0 where
  absent fresh served : Phase

abbrev pub advance : Event → Phase → Option Phase
advance (Event.request id r) fresh = some served
advance (Event.stream_closed id) fresh = some absent
advance (Event.stream_closed id) served = some absent
advance (Event.body id chunk) served = some served
advance (Event.end_body id) served = some served
advance (Event.raw id chunk) served = some served
advance _ _ = none

abbrev pub open_at : Phase → Option Phase
open_at absent = some fresh
open_at _ = none

abbrev pub observe : Call → Option Phase → Option Phase
observe c none = none
observe (opened kind) (some p) = open_at p
observe (delivered e) (some p) = advance e p
observe _ (some p) = some p

-- The phase after these calls, the newest first; `none` where a call came out of its turn.
abbrev pub phase : List Call → Option Phase
phase [] = some absent
phase (c ∷ calls) = observe c (phase calls)

-- A stream that has its request has a wire that is taken. Where `failing`, one may be there without
-- its request.
pub data Allowed : Bool → Phase → Option StreamKind → Bool → Type 0 where
  nobody : {failing taken : Bool} → Allowed failing absent none taken
  serving : {failing : Bool} {kind : StreamKind} → Allowed failing served (some kind) true
  unserved : {kind : StreamKind} → Allowed true fresh (some kind) true

module _ (h : H11) where
  -- No stream is opened or called while one handles its `StreamClosed`.
  abbrev pub IsAside : Surroundings h.Connection → Type 0
  IsAside env = (s : Protocol h) → phase (env.closing s).calls ≡ phase s.calls

  -- The client's side is past its request.
  abbrev pub IsTaken : Wire h.Connection → Type 0
  IsTaken (plain c) = h.their_state c ≢ Side.idle
  IsTaken (websocket c buffer) = Unit

  -- The phase, the stream, and where `taken`, that the client's side is
  pub record At (p : Phase) (kind : Option StreamKind) (taken : Bool) (s : Protocol h)
      : Type 0 where
    pub phases : phase s.calls ≡ some p
    pub streams : s.stream ≡ kind
    pub wires : taken ≡ true → IsTaken s.connection

  abbrev pub Follows : Bool → Protocol h → Type 0
  Follows failing s =
      (p : Phase) × (kind : Option StreamKind) × (taken : Bool) × Allowed failing p kind taken
      × At p kind taken s
