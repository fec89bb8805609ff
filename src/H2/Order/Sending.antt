-- ===== src/H2/Order/Sending.antt =====
-- The methods of H2/Sending (protocol/h2.py) keep the streams in their turn.
use anycorn.Prelude.{ℕ, not, ◌&&◌, [], ◌∷◌, Option, none, some, ◌==◌}
use anycorn.Exec.{Result, ◌>>◌}
use anycorn.Exec.Hoare.{T-if, T-lift, T-modify, T-skip, T-when, T-except, ◌>>>◌}
use anycorn.Bytes.{Bytes, Headers}
use anycorn.Events.{Event}
use anycorn.H2.Buffer.{StreamBuffer, is_complete}
use anycorn.H2.State.{World, SendTask}
use anycorn.H2.Calls.{U, library, flush}
use anycorn.H2.Sending.{
  is_late, is_over, wake_sending_task, push_to, drain_of, complete_buffer, after_push, push_ended,
  after_drain, drain_ended, send_response, send_body, send_end, send_closed, send_event,
  stream_send, send_trailers, trailers_ended, send_popped, end_if_complete, pop_and_send, send_data,
  set_send_task, on_next, take_next, round, has_data_ended,
}
use anycorn.H2.Order.{Follows}
use anycorn.H2.Order.Calls.{
  IsSteady, gets-IsSteady, library-IsSteady, prioritise-IsSteady, set_has_data-IsSteady,
  buffer_of-IsSteady, set_buffer-IsSteady, discard_send_state-IsSteady, tell-IsSteady,
  flush-IsSteady, close_stream-IsSteady,
}
use anycorn.H2.Order.Opening.{create_server_push-IsSteady}

module _ (x : World) where
  wake-IsSteady : (id : ℕ) → IsSteady x (wake_sending_task x id)
  unfolding wake_sending_task
  wake-IsSteady id = prioritise-IsSteady x _ >>> λ _. set_has_data-IsSteady x

  push_to-IsSteady : (id : ℕ) (chunk : Bytes) → IsSteady x (push_to x id chunk)
  unfolding push_to
  push_to-IsSteady id chunk = buffer_of-IsSteady x id >>> λ b.
      set_buffer-IsSteady x id _ >>> λ _. T-lift {Q = λ _. Follows x} _ (λ _ _ s f. f) (λ s f. f)

  drain_of-IsSteady : (id : ℕ) → IsSteady x (drain_of x id)
  unfolding drain_of
  drain_of-IsSteady id = buffer_of-IsSteady x id >>> λ b. set_buffer-IsSteady x id _

  complete_buffer-IsSteady : (id : ℕ) → IsSteady x (complete_buffer x id)
  unfolding complete_buffer
  complete_buffer-IsSteady id = buffer_of-IsSteady x id >>> λ b. set_buffer-IsSteady x id _

  after_push-IsSteady : (b : Option StreamBuffer) (id : ℕ) → IsSteady x (after_push x b id)
  unfolding after_push
  after_push-IsSteady none id = T-skip λ s f. f
  after_push-IsSteady (some b) id =
      T-if (b.paused.woken == 0) (λ _. T-skip λ s f. f) (λ _. set_buffer-IsSteady x id _)

  pub push_ended-IsSteady : (id : ℕ) → IsSteady x (push_ended x id)
  unfolding push_ended
  push_ended-IsSteady id = gets-IsSteady x _ >>> λ b. after_push-IsSteady b id

  after_drain-IsSteady : (b : Option StreamBuffer) (id : ℕ) → IsSteady x (after_drain x b id)
  unfolding after_drain
  after_drain-IsSteady none id = T-skip λ s f. f
  after_drain-IsSteady (some b) id =
      T-if (b.is_empty.woken == 0) (λ _. T-skip λ s f. f) (λ _. set_buffer-IsSteady x id _)

  pub drain_ended-IsSteady : (id : ℕ) → IsSteady x (drain_ended x id)
  unfolding drain_ended
  drain_ended-IsSteady id = gets-IsSteady x _ >>> λ b. after_drain-IsSteady b id

  module _ (others : U x) (steady : IsSteady x others) where
    -- A call of h2 whose bytes are sent
    flushed-IsSteady :
        (call : x.h2.Connection → Result (Unit {0}) × x.h2.Connection)
        → IsSteady x (library x call >> flush x others)
    flushed-IsSteady call = library-IsSteady x call >>> λ _. flush-IsSteady x others steady

    send_response-IsSteady :
        (id : ℕ) (headers : Headers) (status : ℕ)
        → IsSteady x (send_response x others id headers status)
    unfolding send_response
    send_response-IsSteady id headers status = gets-IsSteady x _ >>> λ config. flushed-IsSteady _

    send_body-IsSteady : (id : ℕ) (chunk : Bytes) → IsSteady x (send_body x others id chunk)
    unfolding send_body
    send_body-IsSteady id chunk = wake-IsSteady id >>> λ _. push_to-IsSteady id chunk

    send_end-IsSteady : (id : ℕ) → IsSteady x (send_end x others id)
    unfolding send_end
    send_end-IsSteady id =
        complete_buffer-IsSteady id >>> λ _. wake-IsSteady id >>> λ _. drain_of-IsSteady id

    send_closed-IsSteady : (id : ℕ) → IsSteady x (send_closed x others id)
    unfolding send_closed
    send_closed-IsSteady id = close_stream-IsSteady x others steady id >>> λ _.
        gets-IsSteady x _ >>> λ idle. gets-IsSteady x _ >>> λ terminated.
        T-when {Q = λ _. Follows x} (idle && terminated) (λ _. flushed-IsSteady _) (λ _ s f. f)
        >>> λ _. tell-IsSteady x others steady _

    send_event-IsSteady : (e : Event) → IsSteady x (send_event x others e)
    unfolding send_event
    send_event-IsSteady (Event.response id headers status) =
        send_response-IsSteady id headers status
    send_event-IsSteady (Event.informational id headers status) =
        send_response-IsSteady id headers status
    send_event-IsSteady (Event.body id chunk) = send_body-IsSteady id chunk
    send_event-IsSteady (Event.raw id chunk) = send_body-IsSteady id chunk
    send_event-IsSteady (Event.end_body id) = send_end-IsSteady id
    send_event-IsSteady (Event.end_raw id) = send_end-IsSteady id
    send_event-IsSteady (Event.trailers id headers) = wake-IsSteady id >>> λ _. drain_of-IsSteady id
    send_event-IsSteady (Event.stream_closed id) = send_closed-IsSteady id
    send_event-IsSteady (Event.request id r) = create_server_push-IsSteady x others steady id _ _
    send_event-IsSteady (Event.zero_copy_send id file offset count) = T-skip λ s f. f

    pub stream_send-IsSteady : (e : Event) → IsSteady x (stream_send x others e)
    unfolding stream_send
    stream_send-IsSteady e = T-except (is_late x) (send_event-IsSteady e) (T-skip λ s f. f)

    send_trailers-IsSteady :
        (id : ℕ) (headers : Headers) → IsSteady x (send_trailers x others id headers)
    unfolding send_trailers
    send_trailers-IsSteady id headers = flushed-IsSteady _

    pub trailers_ended-IsSteady :
        (id : ℕ) (headers : Headers) → IsSteady x (trailers_ended x others id headers)
    unfolding trailers_ended
    trailers_ended-IsSteady id headers = gets-IsSteady x _ >>> λ waiting.
        T-when (not waiting)
          (λ _. drain_ended-IsSteady id >>> λ _.
            T-except (is_late x) (send_trailers-IsSteady id headers) (T-skip λ s f. f))
          (λ _ s f. f)

    send_popped-IsSteady : (id : ℕ) (chunk : Bytes) → IsSteady x (send_popped x others id chunk)
    unfolding send_popped
    send_popped-IsSteady id [] = prioritise-IsSteady x _
    send_popped-IsSteady id (b ∷ bytes) = flushed-IsSteady _

    end_if_complete-IsSteady : (id : ℕ) → IsSteady x (end_if_complete x others id)
    unfolding end_if_complete
    end_if_complete-IsSteady id = buffer_of-IsSteady x id >>> λ b.
        T-when (is_complete b)
          (λ _. library-IsSteady x _ >>> λ _. flush-IsSteady x others steady >>> λ _.
            buffer_of-IsSteady x id >>> λ again.
            T-modify {Q = λ _. Follows x} _ (λ s f. f) >>> λ _. prioritise-IsSteady x _)
          (λ _ s f. f)

    pop_and_send-IsSteady : (id : ℕ) → IsSteady x (pop_and_send x others id)
    unfolding pop_and_send
    pop_and_send-IsSteady id = gets-IsSteady x _ >>> λ c.
        T-lift {Q = λ _. Follows x} _ (λ _ _ s f. f) (λ s f. f) >>> λ window.
        buffer_of-IsSteady x id >>> λ b. set_buffer-IsSteady x id _ >>> λ _.
        send_popped-IsSteady id _ >>> λ _. end_if_complete-IsSteady id

    send_data-IsSteady : (id : ℕ) → IsSteady x (send_data x others id)
    unfolding send_data
    send_data-IsSteady id =
        T-except (is_over x) (pop_and_send-IsSteady id) (discard_send_state-IsSteady x id)

    set_send_task-IsSteady : (place : SendTask) → IsSteady x (set_send_task x others place)
    unfolding set_send_task
    set_send_task-IsSteady place = T-modify _ λ s f. f

    on_next-IsSteady : (next : Option ℕ) → IsSteady x (on_next x others next)
    unfolding on_next
    on_next-IsSteady (some id) = send_data-IsSteady id
    on_next-IsSteady none =
        T-modify {Q = λ _. Follows x} _ (λ s f. f) >>> λ _. set_send_task-IsSteady _

    take_next-IsSteady : IsSteady x (take_next x others)
    unfolding take_next
    take_next-IsSteady = gets-IsSteady x _ >>> λ next.
        T-modify {Q = λ _. Follows x} _ (λ s f. f) >>> λ _. on_next-IsSteady next

    pub round-IsSteady : IsSteady x (round x others)
    unfolding round
    round-IsSteady = gets-IsSteady x _ >>> λ now.
        T-when _ (λ _. T-if now.closed (λ _. set_send_task-IsSteady _) (λ _. take_next-IsSteady))
          (λ _ s f. f)

    pub has_data_ended-IsSteady : IsSteady x (has_data_ended x others)
    unfolding has_data_ended
    has_data_ended-IsSteady = gets-IsSteady x _ >>> λ now.
        T-when _ (λ _. T-modify {Q = λ _. Follows x} _ (λ s f. f) >>> λ _. set_send_task-IsSteady _)
          (λ _ s f. f)
