-- ===== src/WsStream/Calls.antt =====
-- The private methods of `WSStream` (protocol/ws_stream.py). Other tasks run while a call is
-- awaited; after each such call the parameter `env` says what they have made of the stream. `StreamClosed`, once sent,
-- comes back in any case: each protocol then closes the stream (`_close_stream`).
use anycorn.Prelude.{ℕ, zero, suc, Bool, true, false, [], ◌∷◌, Option, none, some, if◌then◌else◌}
use anycorn.Exec.{
  Exec, Result, ok, err, raise, gets, modify, skip, when, pure, ◌>>=◌, ◌>>◌, attribute_error,
  assertion_error, frame_too_large,
}
use anycorn.Bytes.{Bytes, Text, Headers, codes}
use anycorn.Events.{Event, response, end_body, stream_closed, raw}
use anycorn.WsStream.State.{
  Wsproto, WsEvent, text_message, bytes_message, ping, pong, close_connection, WsState, Handshake,
  Value, text, bytes, WebsocketScope, ResponseStart, Call, sent, put, logged, receive, disconnect,
  WsStream, Interference,
}
use anycorn.WsStream.Buffer.{extend, clear}

-- `CloseReason`
abbrev pub normal_closure : ℕ
normal_closure = 1000

abbrev pub abnormal_closure : ℕ
abnormal_closure = 1006

abbrev pub message_too_big : ℕ
message_too_big = 1009

abbrev pub internal_error : ℕ
internal_error = 1011

module _ (w : Wsproto) where
  abbrev pub Stream : Type 0
  Stream = WsStream w.Connection

  abbrev pub M : Type 0 → Type 0
  M = Exec Stream

  abbrev pub record_call : Call → Stream → Stream
  record_call c s = record s { calls = c ∷ s.calls }

  -- The code of the disconnect
  unfoldable pub disconnect_code : Option ℕ → WsState → ℕ
  disconnect_code (some code) state = code
  disconnect_code none WsState.http_closed = normal_closure
  disconnect_code none WsState.closed = normal_closure
  disconnect_code none _ = abnormal_closure

  -- `handle(StreamClosed)` of a stream that is not closed
  unfoldable pub on_stream_closed : Stream → Stream
  unfolding disconnect_code
  on_stream_closed s =
      let s' = record s { closed = true } in
      if s.app_put
      then record_call (put (disconnect (disconnect_code s.close_code s.state))) s'
      else s'

  unfoldable pub interrupt : Stream → Stream
  interrupt s = if s.closed then s else on_stream_closed s

  -- `self.scope`, `self.response`, `self.handshake`, `self.connection`
  unfoldable pub the_scope : M WebsocketScope
  the_scope s = elim s.scope [ none ↦ (err attribute_error, s) | some scope ↦ (ok scope, s) ]

  unfoldable pub the_response : M ResponseStart
  the_response s = elim s.response [ none ↦ (err assertion_error, s) | some r ↦ (ok r, s) ]

  unfoldable pub the_handshake : M Handshake
  the_handshake s = elim s.handshake [ none ↦ (err attribute_error, s) | some h ↦ (ok h, s) ]

  unfoldable pub the_connection : M w.Connection
  the_connection s = elim s.connection [ none ↦ (err attribute_error, s) | some c ↦ (ok c, s) ]

  abbrev pub set_state : WsState → M (Unit {0})
  set_state state = modify (λ s. record s { state = state })

  abbrev pub set_connection : w.Connection → M (Unit {0})
  set_connection c = modify (λ s. record s { connection = some c })

  module _ (env : Interference w.Connection) where
    -- a call that is awaited
    unfoldable pub await_call : Call → M (Unit {0})
    await_call c s = (ok tt, env (record_call c s))

    -- `await self.send(event)`
    unfoldable pub send : (ℕ → Event) → M (Unit {0})
    send event = do stream_id ← gets (λ s. s.stream_id); await_call (sent (event stream_id))

    -- `await self.send(StreamClosed(...))`
    unfoldable pub send_stream_closed : M (Unit {0})
    send_stream_closed = do
      stream_id ← gets (λ s. s.stream_id)
      modify (λ s. interrupt (record_call (sent (stream_closed stream_id)) s))

    abbrev pub error_headers : Headers
    error_headers = (codes "content-length", codes "0") ∷ (codes "connection", codes "close") ∷ []

    -- `if hasattr(self, "scope")`
    abbrev pub log_error : ℕ → Option WebsocketScope → M (Unit {0})
    log_error status none = skip
    log_error status (some scope) =
        await_call (logged scope (record { status = status; headers = [] }))

    -- `_send_error_response`
    unfoldable pub send_error_response : ℕ → M (Unit {0})
    send_error_response status_code = do
      send (λ id. response id error_headers status_code)
      send end_body
      scope ← gets (λ s. s.scope)
      log_error status_code scope
      send_stream_closed

    -- What is sent of what wsproto returned
    unfoldable pub send_data : Option Bytes → M (Unit {0})
    send_data none = skip
    send_data (some chunk) = send (λ id. raw id chunk)

    -- `_send_wsproto_event`
    unfoldable pub send_wsproto_event : WsEvent → M (Unit {0})
    send_wsproto_event event = do
      c ← the_connection
      set_connection (w.send event c).1
      send_data (w.send event c).0

    -- `self.buffer.extend(event)`
    unfoldable pub extend_buffer : Value → M (Result (Unit {0}))
    extend_buffer fragment s =
        let (r, buffer) = extend fragment s.buffer in (ok r, record s { buffer = buffer })

    -- `if event.message_finished`
    unfoldable pub deliver_message : Bool → M (Unit {0})
    deliver_message finished = when finished (do
      app_put ← gets (λ s. s.app_put)
      value ← gets (λ s. s.buffer.value)
      if app_put then await_call (put (receive value)) else raise assertion_error
      modify (λ s. record s { buffer = clear s.buffer }))

    -- A fragment, and whether the loop goes on
    unfoldable pub on_extended : Bool → Result (Unit {0}) → M Bool
    on_extended finished (ok u) = do deliver_message finished; pure true
    on_extended finished (err frame_too_large) = do
      send_wsproto_event (close_connection message_too_big none)
      pure false
    on_extended finished (err e) = raise e

    unfoldable pub on_fragment : Value → Bool → M Bool
    on_fragment fragment finished = do r ← extend_buffer fragment; on_extended finished r

    unfoldable pub on_close : ℕ → Option Text → M Bool
    on_close code reason = do
      modify (λ s. record s { close_code = some code })
      c ← the_connection
      when (w.remote_closing c) (send_wsproto_event (w.response (close_connection code reason)))
      send_stream_closed
      pure true

    -- One round of `_handle_events`
    unfoldable pub on_ws_event : WsEvent → M Bool
    on_ws_event (text_message chunk finished) = on_fragment (text chunk) finished
    on_ws_event (bytes_message chunk finished) = on_fragment (bytes chunk) finished
    on_ws_event (ping payload) = do send_wsproto_event (w.response (ping payload)); pure true
    on_ws_event (pong payload) = pure true
    on_ws_event (close_connection code reason) = on_close code reason

    -- The body of `_handle_events`' loop, and the rest of the loop
    unfoldable pub events_round : M (Unit {0}) → Option WsEvent → M (Unit {0})
    events_round rest none = skip
    events_round rest (some event) = do goes_on ← on_ws_event event; when goes_on rest

    unfoldable pub events_loop : ℕ → M (Unit {0})
    events_loop zero = skip
    events_loop (suc fuel) = do
      c ← the_connection
      set_connection (w.next_event c).1
      events_round (events_loop fuel) (w.next_event c).0

    -- `_handle_events`: at most as many rounds as events are left, and one that finds none
    unfoldable pub handle_events : M (Unit {0})
    handle_events = do c ← the_connection; events_loop (suc (w.pending c))
