-- ===== src/H2/Runs.antt =====
-- The runs of an `H2Protocol` (protocol/h2.py): the task that reads, the sending task and the tasks of
-- the applications.
use anycorn.Prelude.{ℕ, zero, suc, List, [], ◌∷◌}
use anycorn.Exec.{ok, gets, skip, ◌>>=◌, ◌>>◌}
use anycorn.Connection.{stream, application}
use anycorn.H2.State.{
  World, Op, initiates, reads, closes, sends, sending_round, has_data_ends, push_ends, drain_ends,
  trailers_end,
}
use anycorn.H2.Calls.{Protocol, U}
use anycorn.H2.Sending.{stream_send, push_ended, drain_ended, trailers_ended, round, has_data_ended}
use anycorn.H2.Handle.{initiate, handle_raw, handle_closed}

module _ (x : World) where
  -- What another task does: an exception is its own.
  unfoldable pub own : U x → U x
  own m s = (ok tt, (m s).1)

  module _ (others : U x) where
    -- One step. An exception in what the stream itself sends is raised where the stream was called.
    unfoldable pub perform : Op → U x
    perform (initiates headers settings) = own (initiate x others headers settings)
    perform (reads chunk) = own (handle_raw x others chunk)
    perform closes = own (handle_closed x others)
    perform (sends stream e) = stream_send x others e
    perform (sends application e) = own (stream_send x others e)
    perform sending_round = own (round x others)
    perform has_data_ends = own (has_data_ended x others)
    perform (push_ends id) = own (push_ended x id)
    perform (drain_ends id) = own (drain_ended x id)
    perform (trailers_end id headers) = own (trailers_ended x others id headers)

    unfoldable pub perform_all : List Op → U x
    perform_all [] = skip
    perform_all (op ∷ ops) = do perform op; perform_all ops

  -- What the other tasks do while a call is awaited, themselves awaiting `depth` calls deep at most
  unfoldable pub meanwhile : ℕ → U x
  meanwhile zero = skip
  meanwhile (suc depth) = do
    ops ← gets (λ s. x.env.meanwhile s.calls)
    perform_all (meanwhile depth) ops

  unfoldable pub run : ℕ → List Op → Protocol x → Protocol x
  run depth [] s = s
  run depth (op ∷ ops) s = run depth ops (perform (meanwhile depth) op s).1
