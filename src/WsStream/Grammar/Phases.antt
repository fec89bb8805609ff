-- ===== src/WsStream/Grammar/Phases.antt =====
-- What the state of a stream that conforms says of its phase.
use anycorn.Prelude.{◌≡◌, refl, Bool, true, false, Option, none, some, arith}
use anycorn.WsStream.State.{WsState}
use anycorn.WsStream.AppSend.{is_handshake}
use anycorn.WsStream.Grammar.{
  Phase, awaiting, headed, tunnel, ended, reported, Agrees, Allowed, OnWire, IsUp,
}

abbrev pub Fits : Option Phase → WsState → Bool → Type 0
Fits none st c = ⊥
Fits (some p) st c = Agrees p st c

pub Allowed-Fits :
    (closed : Bool) (o : Option Phase) (st : WsState) (c : Bool)
    → Fits o st c
    → Allowed closed o st c
Allowed-Fits closed none st c h = absurd h
Allowed-Fits true (some p) st c h = tt
Allowed-Fits false (some p) st c h = h

-- What the state says of the phase
pub at_handshake :
    (o : Option Phase) (c : Bool) → Fits o WsState.handshake c → (o ≡ some awaiting) × (c ≡ false)
at_handshake (some awaiting) false h = (refl, refl)
at_handshake (some awaiting) true h = absurd h
at_handshake (some headed) c h = absurd h
at_handshake (some tunnel) c h = absurd h
at_handshake (some ended) c h = absurd h
at_handshake (some reported) c h = absurd h
at_handshake none c h = absurd h

pub at_response :
    (o : Option Phase) (c : Bool) → Fits o WsState.response c → (o ≡ some headed) × (c ≡ false)
at_response (some headed) false h = (refl, refl)
at_response (some headed) true h = absurd h
at_response (some awaiting) c h = absurd h
at_response (some tunnel) c h = absurd h
at_response (some ended) c h = absurd h
at_response (some reported) c h = absurd h
at_response none c h = absurd h

-- Where there is a connection, the handshake was accepted.
pub on_wire : (o : Option Phase) (st : WsState) → Fits o st true → OnWire o × IsUp st
on_wire (some headed) WsState.connected h = (tt, tt)
on_wire (some headed) WsState.closed h = (tt, tt)
on_wire (some tunnel) WsState.connected h = (tt, tt)
on_wire (some tunnel) WsState.closed h = (tt, tt)
on_wire (some headed) WsState.handshake h = absurd h
on_wire (some headed) WsState.response h = absurd h
on_wire (some headed) WsState.http_closed h = absurd h
on_wire (some tunnel) WsState.handshake h = absurd h
on_wire (some tunnel) WsState.response h = absurd h
on_wire (some tunnel) WsState.http_closed h = absurd h
on_wire (some awaiting) st h = ground arith
on_wire (some ended) st h = ground arith
on_wire (some reported) st h = ground arith
on_wire none st h = absurd h

-- `websocket.close` in any state but the handshake
pub closing :
    (o : Option Phase) (st : WsState) (c : Bool)
    → is_handshake st ≡ false
    → Fits o st c
    → Fits o WsState.closed c
closing o WsState.closed c n h = h
closing o WsState.handshake c n h = cc
closing none st c n h = absurd h
closing (some awaiting) WsState.connected false n h = tt
closing (some headed) WsState.connected true n h = tt
closing (some tunnel) WsState.connected true n h = tt
closing (some headed) WsState.response false n h = tt
closing (some ended) WsState.http_closed false n h = tt
closing (some reported) WsState.http_closed false n h = tt
closing o st c n h = ground arith
