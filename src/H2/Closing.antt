-- ===== src/H2/Closing.antt =====
-- What the end of a connection does to the tasks that wait on a stream buffer (protocol/h2.py).
use anycorn.Prelude.{ℕ, zero, ◌≡◌, refl, true, List, [], ◌∷◌, Option, none, some, All}
use anycorn.Prelude.Dicts.{Dict}
use anycorn.Exec.Hoare.{Triple, T-gets, T-if, T-modify, T-skip, T-when, T-pre, ◌>>>◌, keeps}
use anycorn.Connection.{StreamKind}
use anycorn.H2.Buffer.{StreamBuffer}
use anycorn.H2.State.{World, Op, closes, sending_round, has_data_ends, SendTask}
use anycorn.H2.Calls.{Protocol, U, set_has_data, take_leave, close_if, close_stream}
use anycorn.H2.Sending.{set_send_task, round, has_data_ended}
use anycorn.H2.Handle.{close_streams, handle_closed}
use anycorn.H2.Runs.{own, perform, meanwhile, run}

-- A step of the sending task
pub data IsOfSendTask : Op → Type 0 where
  takes_round : IsOfSendTask sending_round
  runs_again : IsOfSendTask has_data_ends

module _ (x : World) (buffers : Dict StreamBuffer) where
  -- The connection has ended, with these buffers.
  record Over (s : Protocol x) : Type 0 where
    over : s.closed ≡ true
    kept : s.stream_buffers ≡ buffers

  abbrev IsIdle : U x → Type 0
  IsIdle m = Triple Over Over m (λ _. Over)

  set_has_data-IsIdle : IsIdle (set_has_data x)
  unfolding set_has_data
  set_has_data-IsIdle = T-modify _ λ s o. record { over = o.over; kept = o.kept }

  set_send_task-IsIdle : (others : U x) (place : SendTask) → IsIdle (set_send_task x others place)
  unfolding set_send_task
  set_send_task-IsIdle others place = T-modify _ λ s o. record { over = o.over; kept = o.kept }

  module _ (others : U x) (idle : IsIdle others) where
    close_if-IsIdle : (id : ℕ) (kind : Option StreamKind) → IsIdle (close_if x others id kind)
    unfolding close_if take_leave
    close_if-IsIdle id none = T-skip λ s o. o
    close_if-IsIdle id (some kind) =
        T-modify {Q = λ _. Over} _ (λ s o. record { over = o.over; kept = o.kept }) >>> λ _.
        idle >>> λ _. set_has_data-IsIdle

    close_streams-IsIdle : (ids : List ℕ) → IsIdle (close_streams x others ids)
    unfolding close_streams close_stream
    close_streams-IsIdle [] = T-skip λ s o. o
    close_streams-IsIdle (id ∷ ids) =
        T-gets {Q = λ _. Over} _ (λ s o. o) >>> close_if-IsIdle id >>> λ _. close_streams-IsIdle ids

    closed-Over : Triple Over (λ s. s.stream_buffers ≡ buffers) (handle_closed x others) (λ _. Over)
    unfolding handle_closed
    closed-Over = T-modify {Q = λ _. Over} _ (λ s e. record { over = refl; kept = e }) >>> λ _.
        T-gets {Q = λ _. Over} _ (λ s o. o) >>> λ ids.
        close_streams-IsIdle ids >>> λ _. set_has_data-IsIdle

    round-IsIdle : IsIdle (round x others)
    unfolding round
    round-IsIdle =
        T-gets {Q = λ now s. Over s × (now.closed ≡ true)} _ (λ s o. (o, o.over)) >>> λ now.
        T-when _
          (λ _.
            T-if now.closed (λ _. T-pre (λ s (o, e). o) (set_send_task-IsIdle others _))
              (λ f. record { at = λ s (o, e). absurd (cc) }))
          (λ _ s (o, e). o)

    has_data_ended-IsIdle : IsIdle (has_data_ended x others)
    unfolding has_data_ended
    has_data_ended-IsIdle = T-gets {Q = λ _. Over} _ (λ s o. o) >>> λ now.
        T-when _
          (λ _. T-modify {Q = λ _. Over} _ (λ s o. record { over = o.over; kept = o.kept }) >>> λ _.
            set_send_task-IsIdle others _)
          (λ _ s o. o)

    step-Over :
        {op : Op} → IsOfSendTask op → (s : Protocol x) → Over s → Over (perform x others op s).1
    unfolding perform own
    step-Over takes_round s o = keeps round-IsIdle s o
    step-Over runs_again s o = keeps has_data_ended-IsIdle s o

  nothing-IsIdle : IsIdle (meanwhile x zero)
  unfolding meanwhile
  nothing-IsIdle = T-skip λ s o. o

  steps-Over :
      (ops : List Op) → All IsOfSendTask ops → (s : Protocol x) → Over s → Over (run x zero ops s)
  unfolding run
  steps-Over [] a s o = o
  steps-Over (op ∷ ops) (a, rest) s o =
      steps-Over ops rest _ (step-Over (meanwhile x zero) nothing-IsIdle a s o)

-- Once the connection has ended, the sending task changes no stream buffer, however often it runs: a
-- task that waits for one to be popped or drained goes on waiting, where nothing else happens.
pub run-stream_buffers :
    (x : World) (ops : List Op)
    → All IsOfSendTask ops
    → (s : Protocol x) → (run x zero (closes ∷ ops) s).stream_buffers ≡ s.stream_buffers
unfolding run perform own
run-stream_buffers x ops a s =
    (steps-Over x s.stream_buffers ops a _ (
      keeps (closed-Over x s.stream_buffers (meanwhile x zero) (nothing-IsIdle x s.stream_buffers))
        s refl)).kept
