-- ===== src/H2/Order/Handle.antt =====
-- The methods of H2/Handle (protocol/h2.py) keep the streams in their turn.
use anycorn.Prelude.{ℕ, Bool, List, [], ◌∷◌, Option, none, some, if-intro}
use anycorn.Exec.{Result, ok, err}
use anycorn.Exec.Hoare.{Triple, Post, T-if, T-modify, T-skip, T-when, T-except, T-state, ◌>>>◌}
use anycorn.Bytes.{Bytes, Text, Headers}
use anycorn.Connection.{StreamKind}
use anycorn.Events.{Event}
use anycorn.H2.State.{
  World, H2Event, request_received, data_received, stream_ended, stream_reset, window_updated,
  priority_updated, settings_changed, connection_terminated, ignored,
}
use anycorn.H2.Calls.{Protocol, U, is_key_error, is_missing, is_protocol_error}
use anycorn.H2.Handle.{
  update_priority, refuse, on_request, give_body, on_data, on_reset, on_h2_event, handle_events,
  on_received, handle_raw, close_streams, handle_closed, start_connection, start_request, initiate,
}
use anycorn.H2.Order.{Follows}
use anycorn.Connection.Lives.Laws.{InTurn-body}
use anycorn.H2.Order.Calls.{
  IsSteady, gets-IsSteady, library-IsSteady, prioritise-IsSteady, set_has_data-IsSteady,
  discard_send_state-IsSteady, window_updated-IsSteady, tell-IsSteady, flush-IsSteady,
  close_stream-IsSteady, delivered-IsSteady, forward-IsSteady, Read, get-Read,
}
use anycorn.H2.Order.Opening.{create_stream-IsSteady, create_whole-IsSteady}

module _ (x : World) where
  update_priority-IsSteady :
      (id : ℕ) (place : Option ℕ × ℕ × Bool) → IsSteady x (update_priority x id place)
  unfolding update_priority
  update_priority-IsSteady id place =
      T-except is_missing (prioritise-IsSteady x _)
        (prioritise-IsSteady x _ >>> λ _. prioritise-IsSteady x _)
      >>> λ _. set_has_data-IsSteady x

  module _ (others : U x) (steady : IsSteady x others) where
    refuse-IsSteady : (id : ℕ) → IsSteady x (refuse x others id)
    unfolding refuse
    refuse-IsSteady id = library-IsSteady x _ >>> λ _. library-IsSteady x _

    on_request-IsSteady : (id : ℕ) (headers : Headers) → IsSteady x (on_request x others id headers)
    unfolding on_request
    on_request-IsSteady id headers = gets-IsSteady x _ >>> λ terminated.
        T-if {Q = λ _. Follows x} terminated (λ _. refuse-IsSteady id)
          (λ _. create_stream-IsSteady x others steady id headers >>> λ _.
            tell-IsSteady x others steady _)
        >>> λ _. gets-IsSteady x _ >>> λ over. T-when over (λ _. library-IsSteady x _) (λ _ s f. f)

    give_body-IsSteady :
        (id : ℕ) (chunk : Bytes) (kind : Option StreamKind)
        → Triple (Follows x) (Read x id kind) (give_body x others id chunk kind) (λ _. Follows x)
    unfolding give_body
    give_body-IsSteady id chunk none = T-skip λ s (f, h). f
    give_body-IsSteady id chunk (some kind) =
        delivered-IsSteady x others steady (Event.body id chunk)
          λ s (f, h). InTurn-body s.calls s.streams id chunk h f

    on_data-IsSteady :
        (id : ℕ) (chunk : Bytes) (controlled : ℕ)
        → IsSteady x (on_data x others id chunk controlled)
    unfolding on_data
    on_data-IsSteady id chunk controlled =
        get-Read x id >>> λ kind. give_body-IsSteady id chunk kind >>> λ _. library-IsSteady x _

    on_reset-IsSteady : (id : ℕ) → IsSteady x (on_reset x others id)
    unfolding on_reset
    on_reset-IsSteady id = close_stream-IsSteady x others steady id >>> λ _.
        discard_send_state-IsSteady x id >>> λ _. window_updated-IsSteady x (some id)

    on_h2_event-IsSteady : (e : H2Event) → IsSteady x (on_h2_event x others e)
    unfolding on_h2_event
    on_h2_event-IsSteady (request_received id headers) = on_request-IsSteady id headers
    on_h2_event-IsSteady (data_received id chunk controlled) = on_data-IsSteady id chunk controlled
    on_h2_event-IsSteady (stream_ended id) =
        T-except (is_key_error x) (forward-IsSteady x others steady id) (T-skip λ s f. f)
    on_h2_event-IsSteady (stream_reset id) = on_reset-IsSteady id
    on_h2_event-IsSteady (window_updated id) = window_updated-IsSteady x (some id)
    on_h2_event-IsSteady (priority_updated id depends_on weight exclusive) =
        update_priority-IsSteady id _
    on_h2_event-IsSteady (settings_changed initial_window) =
        T-when initial_window (λ _. window_updated-IsSteady x none) (λ _ s f. f)
    on_h2_event-IsSteady connection_terminated = tell-IsSteady x others steady _
    on_h2_event-IsSteady ignored = T-skip λ s f. f

    handle_events-IsSteady : (events : List H2Event) → IsSteady x (handle_events x others events)
    unfolding handle_events
    handle_events-IsSteady [] = flush-IsSteady x others steady
    handle_events-IsSteady (e ∷ events) =
        on_h2_event-IsSteady e >>> λ _. handle_events-IsSteady events

    on_received-Follows :
        (r : Result (List H2Event) × Protocol x)
        → Post (Follows x) (λ _. Follows x) r
        → Post (Follows x) (λ _. Follows x) (on_received x others r)
    on_received-Follows (ok events, s) f = (handle_events-IsSteady events).at s f
    on_received-Follows (err e, s) f =
        if-intro (Post (Follows x) (λ _. Follows x)) (is_protocol_error e)
          (λ _. (flush-IsSteady x others steady >>> λ _. tell-IsSteady x others steady _).at s f)
          (λ _. f)

    pub handle_raw-IsSteady : (chunk : Bytes) → IsSteady x (handle_raw x others chunk)
    unfolding handle_raw
    handle_raw-IsSteady chunk =
        T-state _ λ s f. on_received-Follows _ ((library-IsSteady x _).at s f)

    close_streams-IsSteady : (ids : List ℕ) → IsSteady x (close_streams x others ids)
    unfolding close_streams
    close_streams-IsSteady [] = T-skip λ s f. f
    close_streams-IsSteady (id ∷ ids) =
        close_stream-IsSteady x others steady id >>> λ _. close_streams-IsSteady ids

    pub handle_closed-IsSteady : IsSteady x (handle_closed x others)
    unfolding handle_closed
    handle_closed-IsSteady = T-modify {Q = λ _. Follows x} _ (λ s f. f) >>> λ _.
        gets-IsSteady x _ >>> λ ids. close_streams-IsSteady ids >>> λ _. set_has_data-IsSteady x

    start_connection-IsSteady :
        (settings : Option Text) → IsSteady x (start_connection x others settings)
    unfolding start_connection
    start_connection-IsSteady none = T-modify _ λ s f. f
    start_connection-IsSteady (some settings) = library-IsSteady x _

    start_request-IsSteady :
        (headers : Option Headers) → IsSteady x (start_request x others headers)
    unfolding start_request
    start_request-IsSteady none = T-skip λ s f. f
    start_request-IsSteady (some headers) = create_whole-IsSteady x others steady 1 headers

    pub initiate-IsSteady :
        (headers : Option Headers) (settings : Option Text)
        → IsSteady x (initiate x others headers settings)
    unfolding initiate
    initiate-IsSteady headers settings = start_connection-IsSteady settings >>> λ _.
        flush-IsSteady x others steady >>> λ _.
        start_request-IsSteady headers >>> λ _. T-modify _ λ s f. f
