-- ===== src/H3/Handle.antt =====
-- The methods of `H3Protocol` (protocol/h3.py). While a call of the server or of a stream is awaited,
-- the other tasks do what `others` says.
use anycorn.Prelude.{
  ℕ, Bool, true, false, List, [], ◌∷◌, ◌++◌, Option, none, some, is_some, if◌then◌else◌,
}
use anycorn.Prelude.Dicts.{get, put, delete}
use anycorn.Exec.{
  Exec, Error, Result, ok, err, pure, raise, lift, gets, modify, skip, when, ◌>>=◌, ◌>>◌,
  assertion_error, key_error, no_available_push_id,
}
use anycorn.Bytes.{Bytes, Text, Headers, codes}
use anycorn.Config.{Config}
use anycorn.Connection.{
  StreamKind, Call, opened, abandoned, delivered, marked, dropped, flushed, was_reset, wrote,
  promised,
}
use anycorn.Connection.Lives.{event_id}
use anycorn.Connection.Pseudo.{read_target, kind_of, request_of, decimal}
use anycorn.Events.{Event, Request}
use anycorn.H3.State.{
  QuicEvent, stream_reset, stop_sending_received, other, H3Event, headers_received, data_received,
  ignored, H3Protocol, World,
}

abbrev pub is_assertion : Error → Bool
is_assertion assertion_error = true
is_assertion _ = false

abbrev pub is_no_push : Error → Bool
is_no_push no_available_push_id = true
is_no_push _ = false

abbrev pub push_headers : Bytes → Headers → Config → Headers
push_headers path headers config =
    ((codes ":method", codes "GET") ∷ (codes ":path", path) ∷ headers)
    ++ config.response_headers (codes "h3")

module _ (x : World) where
  abbrev pub Protocol : Type 0
  Protocol = H3Protocol x.h3.Connection

  abbrev pub M : Type 0 → Type 0
  M = Exec Protocol

  abbrev pub U : Type 0
  U = M (Unit {0})

  abbrev pub record_call : Call → Protocol → Protocol
  record_call c s = record s { calls = c ∷ s.calls }

  -- A call of the `H3Connection`
  unfoldable pub library : {A : Type 0} → (x.h3.Connection → Result A × x.h3.Connection) → M A
  library call s = ((call s.connection).0, record s { connection = (call s.connection).1 })

  -- `self.streams[stream_id] = ...(...)`
  unfoldable pub open_stream : ℕ → StreamKind → U
  open_stream id kind =
      modify (λ s. record_call (opened id kind) (record s { streams = put id kind s.streams }))

  -- The `Request`; an exception leaves `_create_stream` before the stream is called.
  unfoldable pub make_request : ℕ → Result Request → M Request
  make_request id (ok r) = pure r
  make_request id (err e) = do modify (record_call (abandoned id)); raise e

  -- `StreamClosed`, from the stream
  unfoldable pub drop_stream : ℕ → U
  drop_stream id = modify (λ s.
      record_call (dropped id)
        (record s { streams = delete id s.streams; reset_streams = delete id s.reset_streams }))

  -- A call that writes to the stream
  unfoldable pub write : ℕ → (x.h3.Connection → Result (Unit {0}) × x.h3.Connection) → U
  write id call = do modify (record_call (wrote id)); library call

  -- What `stream_send` writes
  unfoldable pub write_event : Event → U
  write_event (Event.response id headers status_code) = do
    config ← gets (λ s. s.config)
    write id (
        x.h3.send_headers id (
          (codes ":status", decimal status_code) ∷ headers ++ config.response_headers (codes "h3")))
  write_event (Event.informational id headers status_code) = do
    config ← gets (λ s. s.config)
    write id (
        x.h3.send_headers id (
          (codes ":status", decimal status_code) ∷ headers ++ config.response_headers (codes "h3")))
  write_event (Event.body id chunk) = write id (x.h3.send_data id chunk false)
  write_event (Event.raw id chunk) = write id (x.h3.send_data id chunk false)
  write_event (Event.end_body id) = write id (x.h3.send_data id [] true)
  write_event (Event.end_raw id) = write id (x.h3.send_data id [] true)
  write_event (Event.trailers id headers) = write id (x.h3.send_headers id headers)
  write_event _ = skip

  module _ (others : U) where
    -- `await self.send()`
    unfoldable pub flush : U
    flush = do modify (record_call flushed); others

    -- `await stream.handle(event)`
    unfoldable pub deliver : Event → U
    deliver e = do modify (record_call (delivered e)); others

    unfoldable pub give : Event → Option StreamKind → U
    give e none = skip
    give e (some kind) = deliver e

    -- `_handle_stream_event`
    unfoldable pub handle_stream_event : ℕ → Event → U
    handle_stream_event id e = do kind ← gets (λ s. get id s.streams); give e kind

    unfoldable pub close_if : ℕ → Option StreamKind → U
    close_if id none = skip
    close_if id (some kind) = do
      modify (λ s.
          record_call (delivered (Event.stream_closed id))
            (record s { streams = delete id s.streams }))
      others

    -- `_reset_stream`
    unfoldable pub reset_stream : ℕ → U
    reset_stream id = do
      modify
          (λ s. record_call (was_reset id) (record s { reset_streams = put id tt s.reset_streams }))
      kind ← gets (λ s. get id s.streams)
      close_if id kind

    unfoldable pub open_with : ℕ → Headers → Text × Bytes → U
    open_with id headers (method, raw_path) = do
      open_stream id (kind_of method)
      state ← gets (λ s. s.state)
      r ← make_request id (request_of (codes "3") state method raw_path headers)
      deliver (Event.request id r)
      modify (record_call marked)

    -- `_create_stream`
    unfoldable pub create_stream : ℕ → Headers → U
    create_stream id headers = do
      target ← lift (read_target headers ([], []))
      open_with id headers target

    unfoldable pub end_of : ℕ → Option StreamKind → U
    end_of id none = raise key_error
    end_of id (some kind) = deliver (Event.end_body id)

    unfoldable pub on_promised : Headers → Result ℕ → U
    on_promised headers (ok push_stream_id) = do
      create_stream push_stream_id headers
      kind ← gets (λ s. get push_stream_id s.streams)
      end_of push_stream_id kind
    on_promised headers (err e) = if is_no_push e then skip else raise e

    abbrev pub library_result :
        {A : Type 0} → (x.h3.Connection → Result A × x.h3.Connection) → M (Result A)
    library_result call s =
        (ok (call s.connection).0, record s { connection = (call s.connection).1 })

    -- `_create_server_push`
    unfoldable pub create_server_push : ℕ → Bytes → Headers → U
    create_server_push id path headers = do
      config ← gets (λ s. s.config)
      modify (record_call (promised id))
      push_stream_id ← library_result (x.h3.send_push_promise id (push_headers path headers config))
      on_promised (push_headers path headers config) push_stream_id

    abbrev pub on_written : ℕ → Result (Unit {0}) × Protocol → Result (Unit {0}) × Protocol
    on_written id (ok u, s) = flush s
    on_written id (err e, s) = if is_assertion e then reset_stream id s else (err e, s)

    -- The rest of `stream_send`, for the other events
    unfoldable pub send_event : Event → Bool → U
    send_event e true = skip
    send_event e false = λ s. on_written (event_id e) (write_event e s)

    unfoldable pub send_unless_reset : Event → U
    send_unless_reset e = do
      is_reset ← gets (λ s. is_some (get (event_id e) s.reset_streams))
      send_event e is_reset

    -- `stream_send`
    unfoldable pub stream_send : Event → U
    stream_send (Event.stream_closed id) = drop_stream id
    stream_send (Event.request id r) = create_server_push id r.raw_path r.headers
    stream_send e = send_unless_reset e

    unfoldable pub on_headers : ℕ → Headers → Bool → Bool → U
    on_headers id headers ended true = skip
    on_headers id headers ended false = do
      create_stream id headers
      when ended (handle_stream_event id (Event.end_body id))

    unfoldable pub on_h3_event : H3Event → U
    on_h3_event (headers_received id headers ended) = do
      terminated ← gets (λ s. x.env.is_terminated s.calls)
      on_headers id headers ended terminated
    on_h3_event (data_received id chunk ended) = do
      handle_stream_event id (Event.body id chunk)
      when ended (handle_stream_event id (Event.end_body id))
    on_h3_event ignored = skip

    unfoldable pub on_h3_events : List H3Event → U
    on_h3_events [] = skip
    on_h3_events (e ∷ events) = do on_h3_event e; on_h3_events events

    unfoldable pub reset_first : QuicEvent → U
    reset_first (stream_reset id) = reset_stream id
    reset_first (stop_sending_received id) = reset_stream id
    reset_first (other bytes) = skip

    -- `handle`
    unfoldable pub handle : QuicEvent → U
    handle e = do reset_first e; events ← library (x.h3.handle_event e); on_h3_events events
