-- ===== src/WsStream/Grammar.antt =====
-- What a protocol may rely on: the events that a WebSocket's stream sends are one response, and the
-- bytes of the WebSocket only where the handshake was accepted.
pub mod Rules
pub mod Wire
pub mod Phases
pub mod Methods
pub mod Answers
pub mod Deliver
pub mod Runs
use anycorn.Prelude.{
  ℕ, ◌≡◌, refl, ◌∙◌, ap, Bool, true, false, not, List, [], ◌∷◌, Option, none, some, is_some, arith,
  if◌then◌else◌, Bool-cases, Option-cases, inl, inr, ◌⊎◌,
}
use anycorn.Exec.{Result, ok, err, Exec, ◌>>=◌, ◌>>◌, continue, lift, gets}
use anycorn.Exec.Hoare.{
  Triple, T-modify, T-gets, T-if, T-when, T-lift, T-raise, T-skip, T-state, ◌>>>◌, keeps, Post,
}
use anycorn.Events.{Event}
use anycorn.WsStream.State.{
  Wsproto, WsState, Call, sent, put, logged, WsStream, Interference, WebsocketScope, ResponseStart,
}
use anycorn.WsStream.Calls.{Stream, M, interrupt, on_stream_closed, record_call, await_call}

-- `awaiting` a response, `headed` by one, `open` for the bytes of the WebSocket, `ended` with the
-- body, and `reported` to the access log.
pub data Phase : Type 0 where
  awaiting headed tunnel ended reported : Phase

abbrev pub advance : Event → Phase → Option Phase
advance (Event.stream_closed id) p = some p
advance (Event.response id headers status) awaiting = some headed
advance (Event.body id chunk) headed = some headed
advance (Event.end_body id) headed = some ended
advance (Event.raw id chunk) headed = some tunnel
advance (Event.raw id chunk) tunnel = some tunnel
advance (Event.end_raw id) headed = some tunnel
advance (Event.end_raw id) tunnel = some tunnel
advance _ _ = none

-- One line in the access log, once the head of an acceptance or the whole of a response was sent.
abbrev pub report : Phase → Option Phase
report headed = some tunnel
report ended = some reported
report _ = none

abbrev pub observe : Call → Option Phase → Option Phase
observe c none = none
observe (sent e) (some p) = advance e p
observe (logged scope r) (some p) = report p
observe _ (some p) = some p

-- The phase after these calls, the newest first; `none` where a call came out of its turn.
abbrev pub phase : List Call → Option Phase
phase [] = some awaiting
phase (c ∷ calls) = observe c (phase calls)

-- The phases that go with a state and with whether there is a WebSocket connection.
abbrev pub Agrees : Phase → WsState → Bool → Type 0
Agrees awaiting WsState.handshake false = Unit
Agrees awaiting WsState.connected false = Unit
Agrees awaiting WsState.closed false = Unit
Agrees headed WsState.response false = Unit
Agrees headed WsState.closed false = Unit
Agrees ended WsState.http_closed false = Unit
Agrees ended WsState.closed false = Unit
Agrees reported WsState.http_closed false = Unit
Agrees reported WsState.closed false = Unit
Agrees headed WsState.connected true = Unit
Agrees headed WsState.closed true = Unit
Agrees tunnel WsState.connected true = Unit
Agrees tunnel WsState.closed true = Unit
Agrees _ _ _ = ⊥

-- A stream that is closed does nothing more.
abbrev pub Allowed : Bool → Option Phase → WsState → Bool → Type 0
Allowed closed none state connected = ⊥
Allowed true (some p) state connected = Unit
Allowed false (some p) state connected = Agrees p state connected

module _ (w : Wsproto) where
  abbrev pub Conforms : Stream w → Type 0
  Conforms s = Allowed s.closed (phase s.calls) s.state (is_some s.connection)

  -- In the phase `p`, the state `st`, with a connection or without.
  abbrev pub At : Phase → WsState → Bool → Stream w → Type 0
  At p st c s = (phase s.calls ≡ some p) × (s.state ≡ st) × (is_some s.connection ≡ c)

  pub Conforms-At :
      {p : Phase} {st : WsState} {c : Bool}
      → Agrees p st c
      → (s : Stream w) → At p st c s
      → Conforms s
  Conforms-At {p} {st} {c} h s (k, l, m) = rw (k, l, m) (open_or_closed s.closed)
    where
      open_or_closed : (closed : Bool) → Allowed closed (some p) st c
      open_or_closed true = tt
      open_or_closed false = h

  -- Nothing of the client but its disconnect is handled while a call is awaited.
  abbrev pub OnlyDisconnects : Interference w.Connection → Type 0
  OnlyDisconnects env = (s : Stream w) → (env s ≡ s) ⊎ (env s ≡ interrupt w s)

  pub interrupt_keeps :
      (s : Stream w) (p : Phase)
      → phase s.calls ≡ some p
      → (phase (interrupt w s).calls ≡ some p)
        × ((interrupt w s).state ≡ s.state)
        × ((interrupt w s).connection ≡ s.connection)
  unfolding interrupt on_stream_closed
  interrupt_keeps s p h = ground arith

-- Where the bytes of the WebSocket may be sent.
abbrev pub OnWire : Option Phase → Type 0
OnWire (some headed) = Unit
OnWire (some tunnel) = Unit
OnWire _ = ⊥

abbrev pub IsUp : WsState → Type 0
IsUp WsState.connected = Unit
IsUp WsState.closed = Unit
IsUp _ = ⊥

-- The handshake was accepted.
abbrev pub IsLive : (w : Wsproto) → Stream w → Type 0
IsLive w s = OnWire (phase s.calls) × IsUp s.state × (is_some s.connection ≡ true)

Agrees-live :
    (o : Option Phase) (st : WsState) (closed : Bool)
    → OnWire o
    → IsUp st
    → Allowed closed o st true
Agrees-live (some headed) WsState.connected true h k = tt
Agrees-live (some headed) WsState.connected false h k = tt
Agrees-live (some headed) WsState.closed true h k = tt
Agrees-live (some headed) WsState.closed false h k = tt
Agrees-live (some tunnel) WsState.connected true h k = tt
Agrees-live (some tunnel) WsState.connected false h k = tt
Agrees-live (some tunnel) WsState.closed true h k = tt
Agrees-live (some tunnel) WsState.closed false h k = tt
Agrees-live (some p) st true h k = tt
Agrees-live _ _ _ h k = ground arith

pub Conforms-live : (w : Wsproto) (s : Stream w) → IsLive w s → Conforms w s
Conforms-live w s (h, k, c) = rw c (Agrees-live (phase s.calls) s.state s.closed h k)
