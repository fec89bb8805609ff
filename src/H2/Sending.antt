-- ===== src/H2/Sending.antt =====
-- What `H2Protocol` (protocol/h2.py) sends: `stream_send`, up to where the task that sends is
-- suspended, what it does after its wait, and the rounds of the sending task.
use anycorn.Prelude.{
  ℕ, min, Bool, true, false, not, ◌&&◌, ◌||◌, [], ◌∷◌, ◌++◌, Option, none, some, ◌==◌, all,
  if◌then◌else◌,
}
use anycorn.Prelude.Dicts.{get, delete, keys}
use anycorn.Exec.{Error, lift, gets, modify, skip, when, except, ◌>>=◌, ◌>>◌}
use anycorn.Bytes.{Bytes, Headers, codes}
use anycorn.Connection.{updated}
use anycorn.Events.{Event, ℤ, pos, negsuc}
use anycorn.Connection.Pseudo.{decimal}
use anycorn.WorkerContext.{clear, wait, resume}
use anycorn.H2.Buffer.{StreamBuffer, push, pop, drain, set_complete, is_complete}
use anycorn.H2.State.{World, SendTask}
use anycorn.H2.Calls.{
  Protocol, U, library, prioritise, set_has_data, buffer_of, set_buffer, discard_send_state, tell,
  flush, close_stream, is_key_error, is_missing, is_protocol_error, is_buffer_complete,
}
use anycorn.H2.Opening.{response_headers, create_server_push}

abbrev pub window_size : ℤ → ℕ
window_size (pos n) = n
window_size (negsuc n) = 0

-- `max(0, min(window, frame_size))`
abbrev pub chunk_size : ℤ → ℕ → ℕ
chunk_size window frame_size = min (window_size window) frame_size

module _ (x : World) where
  -- What `stream_send` does not raise
  abbrev pub is_late : Error → Bool
  is_late e = is_buffer_complete e || (is_key_error x e || (is_missing e || is_protocol_error e))

  -- What `_send_data` does not raise
  abbrev pub is_over : Error → Bool
  is_over e = is_key_error x e || is_protocol_error e

  unfoldable pub wake_sending_task : ℕ → U x
  wake_sending_task id = do prioritise x (x.tree.unblock id); set_has_data x

  -- `push`, up to its wait
  unfoldable pub push_to : ℕ → Bytes → U x
  push_to id chunk = do b ← buffer_of x id; set_buffer x id (push chunk b).1; lift (push chunk b).0

  -- `drain`, up to its wait
  unfoldable pub drain_of : ℕ → U x
  drain_of id = do b ← buffer_of x id; set_buffer x id (drain b)

  unfoldable pub complete_buffer : ℕ → U x
  complete_buffer id = do b ← buffer_of x id; set_buffer x id (set_complete b)

  abbrev pub is_idle : Protocol x → Bool
  is_idle s = all (x.env.is_idle s.calls) (keys s.streams)

  unfoldable pub after_push : Option StreamBuffer → ℕ → U x
  after_push none id = skip
  after_push (some b) id =
      if b.paused.woken == 0
      then skip
      else set_buffer x id (record b { paused = clear (resume b.paused) })

  -- The rest of `push`, once its wait is over
  unfoldable pub push_ended : ℕ → U x
  push_ended id = do b ← gets (λ s. get id s.stream_buffers); after_push b id

  unfoldable pub after_drain : Option StreamBuffer → ℕ → U x
  after_drain none id = skip
  after_drain (some b) id =
      if b.is_empty.woken == 0
      then skip
      else set_buffer x id (record b { is_empty = resume b.is_empty })

  -- The rest of `drain`, once its wait is over
  unfoldable pub drain_ended : ℕ → U x
  drain_ended id = do b ← gets (λ s. get id s.stream_buffers); after_drain b id

  abbrev is_waiting : Option StreamBuffer → Bool
  is_waiting none = false
  is_waiting (some b) = b.is_empty.woken == 0

  module _ (others : U x) where
    unfoldable pub send_response : ℕ → Headers → ℕ → U x
    send_response id headers status_code = do
      config ← gets (λ s. s.config)
      library x (
          x.h2.send_headers id
            ((codes ":status", decimal status_code) ∷ headers ++ response_headers config) false)
      flush x others

    unfoldable pub send_body : ℕ → Bytes → U x
    send_body id chunk = do wake_sending_task id; push_to id chunk

    unfoldable pub send_end : ℕ → U x
    send_end id = do complete_buffer id; wake_sending_task id; drain_of id

    unfoldable pub send_closed : ℕ → U x
    send_closed id = do
      close_stream x others id
      idle ← gets is_idle
      terminated ← gets (λ s. x.env.is_terminated s.calls)
      when (idle && terminated) (do library x x.h2.close_connection; flush x others)
      tell x others (updated idle)

    unfoldable pub send_event : Event → U x
    send_event (Event.response id headers status_code) = send_response id headers status_code
    send_event (Event.informational id headers status_code) = send_response id headers status_code
    send_event (Event.body id chunk) = send_body id chunk
    send_event (Event.raw id chunk) = send_body id chunk
    send_event (Event.end_body id) = send_end id
    send_event (Event.end_raw id) = send_end id
    send_event (Event.trailers id headers) = do wake_sending_task id; drain_of id
    send_event (Event.stream_closed id) = send_closed id
    send_event (Event.request id r) = create_server_push x others id r.raw_path r.headers
    send_event (Event.zero_copy_send id file offset count) = skip

    -- `stream_send`, up to its wait
    unfoldable pub stream_send : Event → U x
    stream_send e = except (send_event e) is_late skip

    unfoldable pub send_trailers : ℕ → Headers → U x
    send_trailers id headers = do library x (x.h2.send_headers id headers true); flush x others

    -- The rest of `stream_send` for `Trailers`, once its wait is over
    unfoldable pub trailers_ended : ℕ → Headers → U x
    trailers_ended id headers = do
      waiting ← gets (λ s. is_waiting (get id s.stream_buffers))
      when (not waiting) (do drain_ended id; except (send_trailers id headers) is_late skip)

    unfoldable pub send_popped : ℕ → Bytes → U x
    send_popped id [] = prioritise x (x.tree.block id)
    send_popped id (b ∷ bytes) = do library x (x.h2.send_data id (b ∷ bytes)); flush x others

    unfoldable pub end_if_complete : ℕ → U x
    end_if_complete id = do
      b ← buffer_of x id
      when (is_complete b) (do
        library x (x.h2.end_stream id)
        flush x others
        again ← buffer_of x id
        modify (λ s. record s { stream_buffers = delete id s.stream_buffers })
        prioritise x (x.tree.remove id))

    unfoldable pub pop_and_send : ℕ → U x
    pop_and_send id = do
      c ← gets (λ s. s.connection)
      window ← lift (x.h2.local_flow_control_window id c)
      b ← buffer_of x id
      set_buffer x id (pop (chunk_size window (x.h2.max_outbound_frame_size c)) b).1
      send_popped id (pop (chunk_size window (x.h2.max_outbound_frame_size c)) b).0
      end_if_complete id

    -- `_send_data`
    unfoldable pub send_data : ℕ → U x
    send_data id = except (pop_and_send id) is_over (discard_send_state x id)

    unfoldable pub set_send_task : SendTask → U x
    set_send_task place = modify (λ s. record s { send_task = place })

    unfoldable pub on_next : Option ℕ → U x
    on_next (some id) = send_data id
    on_next none = do
      modify (λ s. record s { has_data = wait s.has_data })
      set_send_task SendTask.suspended

    unfoldable pub take_next : U x
    take_next = do
      next ← gets (λ s. (x.tree.next s.priority).0)
      modify (λ s. record s { priority = (x.tree.next s.priority).1 })
      on_next next

    abbrev is_looping : SendTask → Bool
    is_looping SendTask.looping = true
    is_looping _ = false

    abbrev is_suspended : SendTask → Bool
    is_suspended SendTask.suspended = true
    is_suspended _ = false

    -- A round of `send_task`
    unfoldable pub round : U x
    round = do
      s ← gets (λ s. s)
      when (is_looping s.send_task) (if s.closed then set_send_task SendTask.ended else take_next)

    -- `send_task` after its wait
    unfoldable pub has_data_ended : U x
    has_data_ended = do
      s ← gets (λ s. s)
      when (is_suspended s.send_task && not (s.has_data.woken == 0)) (do
        modify (λ s. record s { has_data = clear (resume s.has_data) })
        set_send_task SendTask.looping)
