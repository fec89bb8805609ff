-- ===== src/H2/Handle.antt =====
-- What `H2Protocol` (protocol/h2.py) makes of the bytes that arrive: `initiate`, `handle` and the
-- methods that they use.
use anycorn.Prelude.{
  ℕ, zero, Bool, true, false, List, [], ◌∷◌, Option, none, some, ltb, if◌then◌else◌,
}
use anycorn.Prelude.Dicts.{get, keys}
use anycorn.Exec.{Result, ok, err, gets, modify, skip, when, except, ◌>>=◌, ◌>>◌}
use anycorn.Bytes.{Bytes, Text, Headers}
use anycorn.Connection.{ServerEvent, updated, StreamKind}
use anycorn.Events.{Event}
use anycorn.H2.State.{
  World, H2Event, request_received, data_received, stream_ended, stream_reset, window_updated,
  priority_updated, settings_changed, connection_terminated, ignored, SendTask,
}
use anycorn.H2.Calls.{
  Protocol, M, U, library, in_tree, prioritise, set_has_data, discard_send_state, tell, deliver,
  flush, forward, close_stream, is_key_error, is_missing, is_protocol_error,
}
use anycorn.H2.Calls
use anycorn.H2.Opening.{create_stream, create_whole}

-- `event.depends_on or None`
abbrev pub parent : ℕ → Option ℕ
parent zero = none
parent id = some id

module _ (x : World) where
  -- The place of a stream whose HEADERS have not come yet
  abbrev pub place_early : ℕ → Option ℕ × ℕ × Bool → U x
  place_early id place = do
    prioritise x (x.tree.insert id (some place))
    prioritise x (x.tree.block id)

  -- `_priority_updated`
  unfoldable pub update_priority : ℕ → Option ℕ × ℕ × Bool → U x
  update_priority id place = do
    except (prioritise x (x.tree.reprioritize id place)) is_missing (place_early id place)
    set_has_data x

  module _ (others : U x) where
    unfoldable pub refuse : ℕ → U x
    refuse id = do library x (x.h2.reset_stream id); library x x.h2.accept_no_streams

    unfoldable pub on_request : ℕ → Headers → U x
    on_request id headers = do
      terminated ← gets (λ s. x.env.is_terminated s.calls)
      if terminated
          then refuse id
          else (do create_stream x others id headers; tell x others (updated false))
      over ← gets (λ s. ltb s.config.keep_alive_max_requests s.keep_alive_requests)
      when over (library x x.h2.close_connection)

    unfoldable pub give_body : ℕ → Bytes → Option StreamKind → U x
    give_body id chunk none = skip
    give_body id chunk (some kind) = deliver x others (Event.body id chunk)

    unfoldable pub on_data : ℕ → Bytes → ℕ → U x
    on_data id chunk controlled = do
      kind ← gets (λ s. get id s.streams)
      give_body id chunk kind
      library x (x.h2.acknowledge_received_data controlled id)

    unfoldable pub on_reset : ℕ → U x
    on_reset id = do
      close_stream x others id
      discard_send_state x id
      Calls.window_updated x (some id)

    unfoldable pub on_h2_event : H2Event → U x
    on_h2_event (request_received id headers) = on_request id headers
    on_h2_event (data_received id chunk controlled) = on_data id chunk controlled
    on_h2_event (stream_ended id) =
        except (forward x others id (Event.end_body id)) (is_key_error x) skip
    on_h2_event (stream_reset id) = on_reset id
    on_h2_event (window_updated id) = Calls.window_updated x (some id)
    on_h2_event (priority_updated id depends_on weight exclusive) =
        update_priority id (parent depends_on, weight, exclusive)
    on_h2_event (settings_changed initial_window) =
        when initial_window (Calls.window_updated x none)
    on_h2_event connection_terminated = tell x others ServerEvent.closed
    on_h2_event ignored = skip

    -- `_handle_events`
    unfoldable pub handle_events : List H2Event → U x
    handle_events [] = flush x others
    handle_events (e ∷ events) = do on_h2_event e; handle_events events

    abbrev pub on_received : Result (List H2Event) × Protocol x → Result (Unit {0}) × Protocol x
    on_received (ok events, s) = handle_events events s
    on_received (err e, s) =
        if is_protocol_error e
        then (do flush x others; tell x others ServerEvent.closed) s
        else (err e, s)

    -- `handle(RawData(...))`
    unfoldable pub handle_raw : Bytes → U x
    handle_raw chunk s = on_received (library x (x.h2.receive_data chunk) s)

    unfoldable pub close_streams : List ℕ → U x
    close_streams [] = skip
    close_streams (id ∷ ids) = do close_stream x others id; close_streams ids

    -- `handle(Closed())`
    unfoldable pub handle_closed : U x
    handle_closed = do
      modify (λ s. record s { closed = true })
      ids ← gets (λ s. keys s.streams)
      close_streams ids
      set_has_data x

    unfoldable pub start_connection : Option Text → U x
    start_connection none =
        modify (λ s. record s { connection = x.h2.initiate_connection s.connection })
    start_connection (some settings) = library x (x.h2.initiate_upgrade_connection settings)

    unfoldable pub start_request : Option Headers → U x
    start_request none = skip
    start_request (some headers) = create_whole x others 1 headers

    -- `initiate`
    unfoldable pub initiate : Option Headers → Option Text → U x
    initiate headers settings = do
      start_connection settings
      flush x others
      start_request headers
      modify (λ s. record s { send_task = SendTask.looping })
