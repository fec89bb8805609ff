-- ===== src/H11/Order/Faults.antt =====
-- A stream that is closed twice (protocol/h11.py `_close_stream`).
use anycorn.Prelude.{◌≡◌, ◌∙◌, refl, ◌∷◌, some}
use anycorn.Events.{Event}
use anycorn.H11.State.{H11, StreamKind, Call, delivered, Surroundings}
use anycorn.H11.Calls.{Protocol, record_call, stream_id, close_stream}

module _ (h : H11) where
  abbrev closed : Call
  closed = delivered (Event.stream_closed stream_id)

  -- Another task closes the stream as well while the stream handles its `StreamClosed`.
  abbrev pub both_close : Surroundings h.Connection → Surroundings h.Connection
  both_close env = record env { closing = λ s. (close_stream h env s).1 }

  close_some :
      (env : Surroundings h.Connection) (kind : StreamKind) (s : Protocol h)
      → s.stream ≡ some kind
      → (close_stream h env s).1.calls ≡ (env.closing (record_call h closed s)).calls
  unfolding close_stream
  close_some env kind s e = rw e refl

  -- Where `_close_stream` runs in a second task while the stream handles the `StreamClosed` of the
  -- first one, and nothing else calls a stream meanwhile, the stream is given `StreamClosed` twice.
  pub close_stream_twice :
      (env : Surroundings h.Connection)
      → ((s : Protocol h) → (env.closing s).calls ≡ s.calls)
      → (kind : StreamKind) (s : Protocol h) → s.stream ≡ some kind
      → (close_stream h (both_close env) s).1.calls
        ≡ delivered (Event.stream_closed stream_id)
          ∷ delivered (Event.stream_closed stream_id)
          ∷ s.calls
  close_stream_twice env quiet kind s e =
      close_some (both_close env) kind s e
      ∙ (close_some env kind (record_call h closed s) e ∙ quiet _)
