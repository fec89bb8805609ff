-- ===== src/H3/Runs.antt =====
-- The runs of an `H3Protocol` (protocol/h3.py): the task that reads, and the tasks of the applications.
use anycorn.Prelude.{ℕ, zero, suc, List, [], ◌∷◌}
use anycorn.Exec.{ok, gets, skip, ◌>>=◌, ◌>>◌}
use anycorn.Connection.{stream, application}
use anycorn.H3.State.{World, Op, handles, sends}
use anycorn.H3.Handle.{Protocol, U, handle, stream_send}

module _ (x : World) where
  -- What another task does: an exception is its own.
  unfoldable pub own : U x → U x
  own m s = (ok tt, (m s).1)

  module _ (others : U x) where
    -- One step. An exception in what the stream itself sends is raised where the stream was called.
    unfoldable pub perform : Op → U x
    perform (handles e) = own (handle x others e)
    perform (sends stream e) = stream_send x others e
    perform (sends application e) = own (stream_send x others e)

    unfoldable pub perform_all : List Op → U x
    perform_all [] = skip
    perform_all (op ∷ ops) = do perform op; perform_all ops

  -- What the other tasks do while a call is awaited, themselves awaiting `depth` calls deep at most
  unfoldable pub meanwhile : ℕ → U x
  meanwhile zero = skip
  meanwhile (suc depth) = do
    ops ← gets (λ s. x.env.meanwhile s.calls)
    perform_all (meanwhile depth) ops

  unfoldable pub run : ℕ → List Op → Protocol x → Protocol x
  run depth [] s = s
  run depth (op ∷ ops) s = run depth ops (perform (meanwhile depth) op s).1
