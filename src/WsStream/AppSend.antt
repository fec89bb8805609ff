-- ===== src/WsStream/AppSend.antt =====
-- `WSStream.app_send` (protocol/ws_stream.py): the messages of the application, `none` when it has
-- finished.
use anycorn.Prelude.{ℕ, Bool, true, false, not, [], ◌∷◌, Option, none, some, is_some, if◌then◌else◌}
use anycorn.Exec.{
  Result, ok, err, raise, lift, gets, modify, skip, when, ◌>>=◌, ◌>>◌, unexpected_message,
  key_error, type_error,
}
use anycorn.Bytes.{Bytes, Text, Headers, codes}
use anycorn.Events.{response, body, end_body, end_raw}
use anycorn.Utils.Headers.{suppress_body, build_and_validate_headers}
use anycorn.WsStream.State.{
  Wsproto, WsEvent, text_message, bytes_message, close_connection, WsState, Handshake,
  ResponseStart, Message, TextKey, missing, not_str, str, logged, pinging, Interference,
}
use anycorn.WsStream.Handshake.{Acceptance, accept}
use anycorn.WsStream.Calls.{
  M, record_call, internal_error, set_state, the_scope, the_response, the_handshake, await_call,
  send, send_stream_closed, send_error_response, send_wsproto_event,
}
use anycorn.WsStream.Handle.{receive_data}

abbrev pub is_handshake : WsState → Bool
is_handshake WsState.handshake = true
is_handshake _ = false

abbrev pub is_connected : WsState → Bool
is_connected WsState.connected = true
is_connected _ = false

-- `state in {HANDSHAKE, RESPONSE}`
abbrev pub is_answering : WsState → Bool
is_answering WsState.handshake = true
is_answering WsState.response = true
is_answering _ = false

-- The event of a `websocket.send` message
unfoldable pub outgoing : Option Bytes → TextKey → Result WsEvent
outgoing (some chunk) text = ok (bytes_message chunk true)
outgoing none (str text) = ok (text_message text true)
outgoing none missing = err key_error
outgoing none not_str = err type_error

module _ (w : Wsproto) (env : Interference w.Connection) where
  abbrev pub unexpected : M w (Unit {0})
  unexpected = raise unexpected_message

  unfoldable pub on_finished : M w (Unit {0})
  on_finished = do
    state ← gets (λ s. s.state)
    if is_handshake state then send_error_response w env 500 else (do
      when (is_connected state) (send_wsproto_event w env (close_connection internal_error none))
      send_stream_closed w env)

  -- The bytes that were held, once there is a connection
  unfoldable pub release : Bytes → M w (Unit {0})
  release [] = skip
  release (b ∷ chunk) = do
    modify (λ s. record s { pre_accept_data = [] })
    receive_data w env (b ∷ chunk)

  -- `_accept`, once `Handshake.accept` has returned
  unfoldable pub accepted : Handshake → Acceptance w → M w (Unit {0})
  accepted h a = do
    modify (λ s. record s {
      connection = some a.connection;
      handshake = some (record h { accepted = true });
    })
    send w env (λ id. response id a.headers a.status_code)
    scope ← the_scope w
    await_call w env (logged scope (record { status = a.status_code; headers = [] }))
    config ← gets (λ s. s.config)
    when (is_some config.websocket_ping_interval) (modify (record_call w pinging))
    pre ← gets (λ s. s.pre_accept_data)
    release pre

  -- `_accept`
  unfoldable pub on_accept : Option Text → Headers → M w (Unit {0})
  on_accept subprotocol headers = do
    state ← gets (λ s. s.state)
    if is_handshake state
        then (do
          set_state w WsState.connected
          h ← the_handshake w
          a ← lift (accept w h subprotocol headers)
          accepted h a)
        else unexpected

  unfoldable pub on_response_start : ℕ → Headers → M w (Unit {0})
  on_response_start status headers = do
    state ← gets (λ s. s.state)
    if is_handshake state
        then modify
            (λ s. record s { response = some (record { status = status; headers = headers }) })
        else unexpected

  -- `_send_rejection`: the head of the response, unless it was sent
  unfoldable pub send_head : ResponseStart → M w (Unit {0})
  send_head r = do
    state ← gets (λ s. s.state)
    when (is_handshake state) (do
      headers ← lift (build_and_validate_headers r.headers)
      send w env (λ id. response id headers r.status)
      set_state w WsState.response)

  -- `if not message.get("more_body", False)`
  unfoldable pub end_rejection : ResponseStart → Bool → M w (Unit {0})
  end_rejection r more_body = when (not more_body) (do
    set_state w WsState.http_closed
    send w env end_body
    scope ← the_scope w
    await_call w env (logged scope r))

  -- `_send_rejection`
  unfoldable pub send_rejection : Bytes → Bool → M w (Unit {0})
  send_rejection chunk more_body = do
    r ← the_response w
    send_head r
    when (not (suppress_body (codes "GET") r.status)) (send w env (λ id. body id chunk))
    end_rejection r more_body

  unfoldable pub on_response_body : Bytes → Bool → M w (Unit {0})
  on_response_body chunk more_body = do
    state ← gets (λ s. s.state)
    r ← gets (λ s. s.response)
    if is_answering state
        then (if is_some r then send_rejection chunk more_body else unexpected)
        else unexpected

  unfoldable pub on_send : Option Bytes → TextKey → M w (Unit {0})
  on_send chunk text = do
    state ← gets (λ s. s.state)
    if is_connected state
        then (do event ← lift (outgoing chunk text); send_wsproto_event w env event)
        else unexpected

  unfoldable pub on_close : ℕ → Option Text → M w (Unit {0})
  on_close code reason = do
    state ← gets (λ s. s.state)
    if is_handshake state
        then (do set_state w WsState.http_closed; send_error_response w env 403)
        else (do
          set_state w WsState.closed
          send_wsproto_event w env (close_connection code reason)
          send w env end_raw)

  -- An open stream's `app_send`
  unfoldable pub on_message : Option Message → M w (Unit {0})
  on_message none = on_finished
  on_message (some (Message.accept subprotocol headers)) = on_accept subprotocol headers
  on_message (some (Message.response_start status headers)) = on_response_start status headers
  on_message (some (Message.response_body chunk more_body)) = on_response_body chunk more_body
  on_message (some (Message.send chunk text)) = on_send chunk text
  on_message (some (Message.close code reason)) = on_close code reason
  on_message (some Message.other) = unexpected

  unfoldable pub app_send : Option Message → M w (Unit {0})
  app_send message = do closed ← gets (λ s. s.closed); if closed then skip else on_message message
