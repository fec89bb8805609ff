-- ===== src/H11/Calls.antt =====
-- What `H11Protocol` (protocol/h11.py) sends: `stream_send` and the methods that it uses. Each runs
-- to its end before another task goes on, but for the calls of a stream (H11.State.Surroundings).
use anycorn.Prelude.{
  ℕ, Bool, true, false, not, ◌&&◌, List, [], ◌∷◌, ◌++◌, Option, none, some, leb, if◌then◌else◌,
}
use anycorn.Exec.{
  Exec, Error, Result, ok, err, raise, gets, modify, skip, ◌>>=◌, ◌>>◌, local_protocol_error,
  assertion_error,
}
use anycorn.Bytes.{Bytes, Headers, codes}
use anycorn.Config.{Config}
use anycorn.Events.{Event, ℤ}
use anycorn.WorkerContext.{set}
use anycorn.H11.State.{
  Side, done, H11, Sendable, Piece, framing, placeholder, Wire, plain, websocket, ServerEvent,
  raw_data, send_file, updated, Call, sent, delivered, H11Protocol, Surroundings,
}
use anycorn.H11.Adapter

-- `STREAM_ID`
abbrev pub stream_id : ℕ
stream_id = 1

abbrev pub is_done : Option Side → Bool
is_done (some done) = true
is_done _ = false

abbrev pub is_error : Option Side → Bool
is_error (some Side.error) = true
is_error _ = false

-- `h11.LocalProtocolError`
abbrev pub is_local : Error → Bool
is_local local_protocol_error = true
is_local _ = false

module _ (h : H11) where
  abbrev pub Protocol : Type 0
  Protocol = H11Protocol h.Connection

  abbrev pub M : Type 0 → Type 0
  M = Exec Protocol

  abbrev pub record_call : Call → Protocol → Protocol
  record_call c s = record s { calls = c ∷ s.calls }

  -- `await self.send(event)`
  unfoldable pub tell : ServerEvent → M (Unit {0})
  tell e = modify (record_call (sent e))

  unfoldable pub set_connection : Wire h.Connection → M (Unit {0})
  set_connection c = modify (λ s. record s { connection = c })

  unfoldable pub set_can_read : M (Unit {0})
  set_can_read = modify (λ s. record s { can_read = set s.can_read })

  -- `except h11.LocalProtocolError: if their_state != ERROR: raise`
  unfoldable pub on_refusal : Error → M (Unit {0})
  on_refusal e = do
    c ← gets (λ s. s.connection)
    if is_local e && is_error (Adapter.their_state h c) then skip else raise e

  unfoldable pub on_sent : Result Bytes → M (Unit {0})
  on_sent (ok chunk) = tell (raw_data chunk)
  on_sent (err e) = on_refusal e

  -- `_send_h11_event`
  unfoldable pub send_h11_event : Sendable → M (Unit {0})
  send_h11_event e = do
    c ← gets (λ s. s.connection)
    set_connection (Adapter.send h e c).1
    on_sent (Adapter.send h e c).0

  abbrev pub response_headers : Config → Headers
  response_headers config = config.response_headers (codes "h11")

  -- `_send_error_response`
  unfoldable pub send_error_response : ℕ → M (Unit {0})
  send_error_response status_code = do
    config ← gets (λ s. s.config)
    send_h11_event (
        Sendable.response
          ((codes "content-length", codes "0")
            ∷ (codes "connection", codes "close")
            ∷ response_headers config)
          status_code)
    send_h11_event Sendable.end_of_message

  -- The loop of `_send_zerocopy`
  unfoldable pub send_pieces : ℕ → ℕ → ℤ → List Piece → M (Unit {0})
  send_pieces file offset count [] = skip
  send_pieces file offset count (framing chunk ∷ pieces) = do
    tell (raw_data chunk)
    send_pieces file offset count pieces
  send_pieces file offset count (placeholder ∷ pieces) = do
    tell (send_file file offset count)
    send_pieces file offset count pieces

  unfoldable pub on_passed : ℕ → ℕ → ℤ → Result (List Piece) → M (Unit {0})
  on_passed file offset count (ok pieces) = send_pieces file offset count pieces
  on_passed file offset count (err e) = on_refusal e

  unfoldable pub pass_through : ℕ → ℕ → ℤ → Wire h.Connection → M (Unit {0})
  pass_through file offset count (websocket c buffer) = raise assertion_error
  pass_through file offset count (plain c) = do
    set_connection (plain (h.send_passthrough count c).1)
    on_passed file offset count (h.send_passthrough count c).0

  -- `_send_zerocopy`
  unfoldable pub send_zerocopy : ℕ → ℕ → ℤ → M (Unit {0})
  send_zerocopy file offset count = do
    c ← gets (λ s. s.connection)
    pass_through file offset count c

  unfoldable pub on_cycle : Result (Wire h.Connection) → M (Unit {0})
  on_cycle (ok c) = do set_connection c; set_can_read; tell (updated true)
  on_cycle (err e) = if is_local e then tell ServerEvent.closed else raise e

  -- `self.connection.start_next_cycle()`
  unfoldable pub recycle : M (Unit {0})
  recycle = do c ← gets (λ s. s.connection); on_cycle (Adapter.start_next_cycle h c)

  unfoldable pub finish : M (Unit {0})
  finish = do set_can_read; tell ServerEvent.closed

  -- Whether the connection is used again
  unfoldable pub can_recycle : Bool → Protocol → Bool
  can_recycle terminated s =
      not terminated
      && (is_done (Adapter.our_state h s.connection)
          && (is_done (Adapter.their_state h s.connection)
              && leb s.keep_alive_requests s.config.keep_alive_max_requests))

  -- What the application's answer carries beside its own headers
  unfoldable pub final_headers : Headers → Protocol → Headers
  final_headers headers s =
      (headers ++ response_headers s.config)
      ++ (if leb s.config.keep_alive_max_requests s.keep_alive_requests
          then (codes "connection", codes "close") ∷ []
          else [])

  module _ (env : Surroundings h.Connection) where
    -- `_close_stream`: other tasks run before `self.stream = None`.
    unfoldable pub close_stream : M (Unit {0})
    close_stream s = elim s.stream [
      | none ↦ (ok tt, s)
      | some kind ↦ (
        ok tt,
        record (env.closing (record_call (delivered (Event.stream_closed stream_id)) s)) {
          stream = none;
        },
      )
    ]

    -- `_maybe_recycle`
    unfoldable pub maybe_recycle : M (Unit {0})
    maybe_recycle = do
      close_stream
      can ← gets (λ s. can_recycle (env.is_terminated s.calls) s)
      if can then recycle else finish

    unfoldable pub send_response : Headers → ℕ → M (Unit {0})
    send_response headers status_code = do
      final ← gets (final_headers headers)
      config ← gets (λ s. s.config)
      if leb 200 status_code
          then send_h11_event (Sendable.response final status_code)
          else send_h11_event
              (Sendable.informational (headers ++ response_headers config) status_code)

    -- `stream_send`
    unfoldable pub stream_send : Event → M (Unit {0})
    stream_send (Event.response id headers status_code) = send_response headers status_code
    stream_send (Event.body id chunk) = send_h11_event (Sendable.chunk chunk)
    stream_send (Event.zero_copy_send id file offset count) = send_zerocopy file offset count
    stream_send (Event.end_body id) = send_h11_event Sendable.end_of_message
    stream_send (Event.raw id chunk) = tell (raw_data chunk)
    stream_send (Event.stream_closed id) = maybe_recycle
    stream_send _ = skip
