-- ===== src/H11/Handle.antt =====
-- What `H11Protocol` (protocol/h11.py) makes of the bytes that arrive. While a call of the stream is
-- awaited, the stream and the tasks of its application send what `env` says.
use anycorn.Prelude.{
  ℕ, suc, Bool, true, false, List, [], ◌∷◌, ◌++◌, Option, none, some, if◌then◌else◌,
}
use anycorn.Exec.{ok, raise, lift, gets, modify, skip, when, ◌>>=◌, ◌>>◌, h2_assumed}
use anycorn.Bytes.{Bytes, codes}
use anycorn.Events.{Event}
use anycorn.WorkerContext.{clear, wait}
use anycorn.H11.State.{
  Side, H11, H11Request, H11Event, Next, Sendable, Incoming, passed, ServerEvent, updated,
  StreamKind, http_stream, ws_stream, opened, delivered, rejected, marked, Reader, Sender, stream,
  application, Surroundings,
}
use anycorn.H11.Adapter
use anycorn.H11.Requests.{
  stream_kind, stream_request, asks_for_h2c, h2c_protocol_required, is_preface, preface,
}
use anycorn.H11.Calls.{
  stream_id, M, record_call, tell, set_connection, send_h11_event, response_headers,
  send_error_response, close_stream, stream_send,
}

-- `our_state in {IDLE, SEND_RESPONSE}`
abbrev pub is_unanswered : Option Side → Bool
is_unanswered (some Side.idle) = true
is_unanswered (some Side.send_response) = true
is_unanswered _ = false

module _ (h : H11) where
  unfoldable pub set_reader : Reader → M h (Unit {0})
  set_reader place = modify (λ s. record s { reader = place })

  -- `break`
  abbrev pub leave : M h (Unit {0})
  leave = set_reader Reader.ready

  unfoldable pub open_stream : StreamKind → M h (Unit {0})
  open_stream http_stream =
      modify (λ s. record_call h (opened http_stream) (record s { stream = some http_stream }))
  open_stream ws_stream = modify (λ s.
      record_call h (opened ws_stream)
        (record s { stream = some ws_stream; connection = Adapter.adapt h s.connection }))

  -- The answer to a request for HTTP/2, and the change of protocol
  unfoldable pub upgrade_h2c : H11Request → M h (Unit {0})
  upgrade_h2c r = do
    config ← gets (λ s. s.config)
    send_h11_event h (
        Sendable.informational
          (response_headers h config
            ++ ((codes "connection", codes "upgrade") ∷ (codes "upgrade", codes "h2c") ∷ []))
          101)
    c ← gets (λ s. s.connection)
    e ← lift (h2c_protocol_required (Adapter.trailing_data h c) r)
    raise e

  -- `_check_protocol`
  unfoldable pub check_protocol : H11Request → M h (Unit {0})
  check_protocol r = do
    c ← gets (λ s. s.connection)
    if asks_for_h2c r.headers
        then upgrade_h2c r
        else (if is_preface r
            then raise (h2_assumed (preface ++ Adapter.trailing_data h c))
            else skip)

  -- `await self.can_read.clear()`, and `await self.can_read.wait()` up to where the task is suspended
  unfoldable pub suspend : M h (Unit {0})
  suspend = do
    modify (λ s. record s { can_read = wait (clear s.can_read) })
    set_reader Reader.suspended

  module _ (env : Surroundings h.Connection) where
    -- An exception goes to the task that sends.
    unfoldable pub send_from : Sender → Event → M h (Unit {0})
    send_from stream e s = stream_send h env e s
    send_from application e s = (ok tt, (stream_send h env e s).1)

    unfoldable pub send_all : List (Sender × Event) → M h (Unit {0})
    send_all [] = skip
    send_all ((sender, e) ∷ events) = do send_from sender e; send_all events

    -- `await self.stream.handle(event)`
    unfoldable pub deliver : Event → M h (Unit {0})
    deliver e = do
      modify (record_call h (delivered e))
      events ← gets (λ s. env.sends s.calls)
      send_all events

    -- `_create_stream`
    unfoldable pub create_stream : H11Request → M h (Unit {0})
    create_stream r = do
      kind ← lift (stream_kind r)
      open_stream kind
      s ← gets (λ s. s)
      request ← lift (stream_request s.config s.connection_state r)
      deliver (Event.request stream_id request)
      modify (λ s. record s { keep_alive_requests = suc s.keep_alive_requests })
      modify (record_call h marked)

    unfoldable pub deliver_or_leave : Event → Option StreamKind → M h (Unit {0})
    deliver_or_leave e none = leave
    deliver_or_leave e (some kind) = deliver e

    -- `await self.stream.handle(event)`, where there is a stream
    unfoldable pub forward : Event → M h (Unit {0})
    forward e = do kind ← gets (λ s. s.stream); deliver_or_leave e kind

    unfoldable pub on_h11_event : H11Event → M h (Unit {0})
    on_h11_event (H11Event.request r) = do tell h (updated false); check_protocol r; create_stream r
    on_h11_event H11Event.paused = suspend
    on_h11_event H11Event.connection_closed = leave
    on_h11_event H11Event.need_data = leave
    on_h11_event (H11Event.chunk chunk) = forward (Event.body stream_id chunk)
    on_h11_event H11Event.end_of_message = forward (Event.end_body stream_id)

    -- `except h11.RemoteProtocolError`
    unfoldable pub on_remote_error : ℕ → M h (Unit {0})
    on_remote_error status_hint = do
      our ← gets (λ s. Adapter.our_state h s.connection)
      when (is_unanswered our)
          (do modify (record_call h (rejected status_hint)); send_error_response h status_hint)
      tell h ServerEvent.closed
      leave

    unfoldable pub on_incoming : Incoming → M h (Unit {0})
    on_incoming (Incoming.next (Next.event e)) = on_h11_event e
    on_incoming (Incoming.next (Next.remote_error status_hint)) = on_remote_error status_hint
    on_incoming (passed chunk) = forward (Event.raw stream_id chunk)

    unfoldable pub continue_100 : M h (Unit {0})
    continue_100 = do
      s ← gets (λ s. s)
      when (Adapter.waiting_for_100 h s.connection)
          (send_h11_event h (Sendable.informational (response_headers h s.config) 100))

    -- One round of `_handle_events`
    unfoldable pub round : M h (Unit {0})
    round = do
      continue_100
      c ← gets (λ s. s.connection)
      set_connection h (Adapter.next_event h c).1
      on_incoming (Adapter.next_event h c).0

    -- `handle(RawData(...))`, up to the loop
    unfoldable pub handle_raw : Bytes → M h (Unit {0})
    handle_raw chunk = do
      c ← gets (λ s. s.connection)
      c' ← lift (Adapter.receive_data h chunk c)
      set_connection h c'
      set_reader Reader.looping

    -- `handle(Closed())`
    abbrev pub handle_closed : M h (Unit {0})
    handle_closed = close_stream h env
