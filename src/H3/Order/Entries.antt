-- ===== src/H3/Order/Entries.antt =====
-- `stream_send` and `handle` of `H3Protocol` (protocol/h3.py) keep to the order of the calls, and spare
-- the streams that were reset.
use anycorn.Prelude.{
  ℕ, ◌≡◌, refl, Bool, true, false, List, [], ◌∷◌, Option, none, some, is_some, if-intro,
}
use anycorn.Prelude.Dicts.{get}
use anycorn.Exec.{Result, ok, err}
use anycorn.Exec.Hoare.{
  Triple, Post, T-raise, T-gets, T-if, T-lift, T-modify, T-skip, T-when, T-state, ◌>>>◌,
}
use anycorn.Bytes.{Bytes, Text, Headers}
use anycorn.Connection.{StreamKind}
use anycorn.Connection.Lives.{event_id}
use anycorn.Connection.Lives.Laws.{InTurn-marked, InTurn-first, InTurn-promised, NewStream-opened}
use anycorn.Connection.Pseudo.{read_target, kind_of, request_of}
use anycorn.Events.{Event}
use anycorn.H3.State.{
  QuicEvent, stream_reset, stop_sending_received, other, H3Event, headers_received, data_received,
  ignored, World,
}
use anycorn.H3.Handle.{
  Protocol, U, is_assertion, is_no_push, push_headers, open_stream, open_with, create_stream,
  end_of, on_promised, library_result, create_server_push, on_written, send_event,
  send_unless_reset, stream_send, on_headers, on_h3_event, on_h3_events, reset_first, handle,
}
use anycorn.H3.Order.{IsSound, IsOpening}
use anycorn.H3.Order.Methods.{
  IsSteady, Read, gets-IsSteady, library-IsSteady, make_request-IsSteady, get-Read,
  write_event-IsSteady, drop_stream-IsSteady, flush-IsSteady, delivered-IsSteady, body-IsSteady,
  ended, end-IsSteady, reset_stream-IsSteady,
}

module _ (x : World) where
  module _ (others : U x) (steady : IsSteady x others) where
    open_with-IsSteady :
        (id : ℕ) (headers : Headers) (target : Text × Bytes)
        → IsSteady x (open_with x others id headers target)
    unfolding open_with open_stream
    open_with-IsSteady id headers (method, raw_path) =
        T-modify {Q = λ _. IsOpening x id} _ (λ s f. record {
          fresh_one = NewStream-opened s.calls s.streams id (kind_of method) f.turns;
          marks = f.marks;
          spares = f.spares;
        })
        >>> λ _. T-gets {Q = λ _. IsOpening x id} _ (λ s o. o) >>> λ state.
            make_request-IsSteady x id (request_of _ state method raw_path headers) >>> λ r.
            delivered-IsSteady x others steady (Event.request id r) (λ s o. record {
              turns = InTurn-first s.calls s.streams id r o.fresh_one;
              marks = o.marks;
              spares = o.spares;
            })
            >>> λ _. T-modify _ λ s f. record {
              turns = InTurn-marked s.calls s.streams f.turns;
              marks = f.marks;
              spares = f.spares;
            }

    create_stream-IsSteady :
        (id : ℕ) (headers : Headers) → IsSteady x (create_stream x others id headers)
    unfolding create_stream
    create_stream-IsSteady id headers =
        T-lift {Q = λ _. IsSound x} (read_target headers _) (λ _ _ s f. f) (λ s f. f)
        >>> open_with-IsSteady id headers

    end_of-IsSteady :
        (id : ℕ) (kind : Option StreamKind)
        → Triple (IsSound x) (Read x id kind) (end_of x others id kind) (λ _. IsSound x)
    unfolding end_of
    end_of-IsSteady id none = T-raise _ λ s (f, h). f
    end_of-IsSteady id (some kind) = ended x others steady id kind

    on_promised-IsSteady :
        (headers : Headers) (promised : Result ℕ)
        → IsSteady x (on_promised x others headers promised)
    unfolding on_promised
    on_promised-IsSteady headers (ok promised) = create_stream-IsSteady promised headers >>> λ _.
        get-Read x promised >>> end_of-IsSteady promised
    on_promised-IsSteady headers (err e) =
        T-if (is_no_push e) (λ _. T-skip λ s f. f) (λ _. T-raise e λ s f. f)

    push-IsSteady :
        (id : ℕ) (path : Bytes) (headers : Headers)
        → IsSteady x (create_server_push x others id path headers)
    unfolding create_server_push
    push-IsSteady id path headers = gets-IsSteady x _ >>> λ config.
        T-modify {Q = λ _. IsSound x} _ (λ s f. record {
          turns = InTurn-promised s.calls s.streams id f.turns;
          marks = f.marks;
          spares = f.spares;
        })
        >>> λ _.
            T-state {Q = λ _. IsSound x} (library_result x others _)
              (λ s f. record { turns = f.turns; marks = f.marks; spares = f.spares })
            >>> on_promised-IsSteady (push_headers path headers config)

    on_written-IsSound :
        (id : ℕ) (r : Result (Unit {0}) × Protocol x)
        → Post (IsSound x) (λ _. IsSound x) r
        → Post (IsSound x) (λ _. IsSound x) (on_written x others id r)
    on_written-IsSound id (ok u, s) f = (flush-IsSteady x others steady).at s f
    on_written-IsSound id (err e, s) f =
        if-intro (Post (IsSound x) (λ _. IsSound x)) (is_assertion e)
          (λ _. (reset_stream-IsSteady x others steady id).at s f) (λ _. f)

    send_event-IsSteady :
        (e : Event) (is_reset : Bool)
        → Triple
            (IsSound x)
            (λ s. IsSound x s × (is_some (get (event_id e) s.reset_streams) ≡ is_reset))
            (send_event x others e is_reset)
            (λ _. IsSound x)
    unfolding send_event
    send_event-IsSteady e true = T-skip λ s (f, r). f
    send_event-IsSteady e false =
        T-state _ λ s f. on_written-IsSound _ _ ((write_event-IsSteady x e).at s f)

    unless_reset-IsSteady : (e : Event) → IsSteady x (send_unless_reset x others e)
    unfolding send_unless_reset
    unless_reset-IsSteady e =
        T-gets {Q = λ b s. IsSound x s × (is_some (get (event_id e) s.reset_streams) ≡ b)} _
          (λ s f. (f, refl))
        >>> send_event-IsSteady e

    pub stream_send-IsSteady : (e : Event) → IsSteady x (stream_send x others e)
    unfolding stream_send
    stream_send-IsSteady (Event.stream_closed id) = drop_stream-IsSteady x id
    stream_send-IsSteady (Event.request id r) = push-IsSteady id _ _
    stream_send-IsSteady (Event.response id headers status) = unless_reset-IsSteady _
    stream_send-IsSteady (Event.informational id headers status) = unless_reset-IsSteady _
    stream_send-IsSteady (Event.body id chunk) = unless_reset-IsSteady _
    stream_send-IsSteady (Event.raw id chunk) = unless_reset-IsSteady _
    stream_send-IsSteady (Event.end_body id) = unless_reset-IsSteady _
    stream_send-IsSteady (Event.end_raw id) = unless_reset-IsSteady _
    stream_send-IsSteady (Event.trailers id headers) = unless_reset-IsSteady _
    stream_send-IsSteady (Event.zero_copy_send id file offset count) = unless_reset-IsSteady _

    on_headers-IsSteady :
        (id : ℕ) (headers : Headers) (ends terminated : Bool)
        → IsSteady x (on_headers x others id headers ends terminated)
    unfolding on_headers
    on_headers-IsSteady id headers ends true = T-skip λ s f. f
    on_headers-IsSteady id headers ends false = create_stream-IsSteady id headers >>> λ _.
        T-when ends (λ _. end-IsSteady x others steady id) (λ _ s f. f)

    on_h3_event-IsSteady : (e : H3Event) → IsSteady x (on_h3_event x others e)
    unfolding on_h3_event
    on_h3_event-IsSteady (headers_received id headers ends) =
        gets-IsSteady x _ >>> λ terminated. on_headers-IsSteady id headers ends terminated
    on_h3_event-IsSteady (data_received id chunk ends) =
        body-IsSteady x others steady id chunk >>> λ _.
        T-when ends (λ _. end-IsSteady x others steady id) (λ _ s f. f)
    on_h3_event-IsSteady ignored = T-skip λ s f. f

    on_h3_events-IsSteady : (events : List H3Event) → IsSteady x (on_h3_events x others events)
    unfolding on_h3_events
    on_h3_events-IsSteady [] = T-skip λ s f. f
    on_h3_events-IsSteady (e ∷ events) =
        on_h3_event-IsSteady e >>> λ _. on_h3_events-IsSteady events

    reset_first-IsSteady : (e : QuicEvent) → IsSteady x (reset_first x others e)
    unfolding reset_first
    reset_first-IsSteady (stream_reset id) = reset_stream-IsSteady x others steady id
    reset_first-IsSteady (stop_sending_received id) = reset_stream-IsSteady x others steady id
    reset_first-IsSteady (other bytes) = T-skip λ s f. f

    pub handle-IsSteady : (e : QuicEvent) → IsSteady x (handle x others e)
    unfolding handle
    handle-IsSteady e =
        reset_first-IsSteady e >>> λ _. library-IsSteady x _ >>> on_h3_events-IsSteady
