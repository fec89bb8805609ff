-- ===== src/H11/Adapter.antt =====
-- `H11WSConnection` (protocol/h11.py), beside the connection that it stands in for.
use anycorn.Prelude.{Bool, false, [], ◌∷◌, ◌++◌, Option, none, some}
use anycorn.Exec.{Result, ok, ◌>>?◌}
use anycorn.Bytes.{Bytes}
use anycorn.H11.State.{
  Side, H11, event, need_data, Sendable, Wire, plain, websocket, Incoming, next, passed,
}

module _ (h : H11) where
  -- `H11WSConnection(...)`; around an adapter, which has nothing trailing, it would pass everything
  -- on
  unfoldable pub adapt : Wire h.Connection → Wire h.Connection
  adapt (plain c) = websocket c (h.trailing_data c)
  adapt (websocket c buffer) = websocket c []

  unfoldable pub receive_data : Bytes → Wire h.Connection → Result (Wire h.Connection)
  receive_data chunk (plain c) = h.receive_data chunk c >>? λ c'. ok (plain c')
  receive_data chunk (websocket c buffer) = ok (websocket c (buffer ++ chunk))

  unfoldable pub next_event : Wire h.Connection → Incoming × Wire h.Connection
  next_event (plain c) = let (e, c') = h.next_event c in (next e, plain c')
  next_event (websocket c []) = (next (event need_data), websocket c [])
  next_event (websocket c (b ∷ buffer)) = (passed (b ∷ buffer), websocket c [])

  unfoldable pub send : Sendable → Wire h.Connection → Result Bytes × Wire h.Connection
  send e (plain c) = let (r, c') = h.send e c in (r, plain c')
  send e (websocket c buffer) = let (r, c') = h.send e c in (r, websocket c' buffer)

  unfoldable pub start_next_cycle : Wire h.Connection → Result (Wire h.Connection)
  start_next_cycle (plain c) = h.start_next_cycle c >>? λ c'. ok (plain c')
  start_next_cycle (websocket c buffer) = ok (websocket c buffer)

  unfoldable pub our_state : Wire h.Connection → Option Side
  our_state (plain c) = some (h.our_state c)
  our_state (websocket c buffer) = none

  unfoldable pub their_state : Wire h.Connection → Option Side
  their_state (plain c) = some (h.their_state c)
  their_state (websocket c buffer) = none

  unfoldable pub waiting_for_100 : Wire h.Connection → Bool
  waiting_for_100 (plain c) = h.waiting_for_100 c
  waiting_for_100 (websocket c buffer) = false

  unfoldable pub trailing_data : Wire h.Connection → Bytes
  trailing_data (plain c) = h.trailing_data c
  trailing_data (websocket c buffer) = []
