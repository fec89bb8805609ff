-- ===== src/H11/Runs.antt =====
-- The runs of an `H11Protocol` (protocol/h11.py): the task that reads, the tasks of the applications
-- that send, and the end of the connection.
use anycorn.Prelude.{ℕ, Bool, true, false, List, [], ◌∷◌, Option, ◌==◌, if◌then◌else◌}
use anycorn.Exec.{Result, ok, err}
use anycorn.Bytes.{Bytes}
use anycorn.Config.{Config, TlsExtension}
use anycorn.Events.{Event, ConnectionState}
use anycorn.WorkerContext.{resume}
use anycorn.H11.State.{H11, Reader, ready, looping, suspended, Surroundings, new}
use anycorn.H11.Calls.{Protocol, M, stream_send}
use anycorn.H11.Handle.{round, handle_raw, handle_closed}

-- What happens next: bytes arrive, the loop takes a round, the reading task runs again after its
-- wait, an application sends, or the connection ends.
pub data Op : Type 0 where
  reads : Bytes → Op
  rounds resumes closes : Op
  sends : Event → Op

module _ (h : H11) where
  -- The protocol, and whether an exception has ended the task that reads
  pub record Run : Type 0 where
    pub failed : Bool
    pub protocol : Protocol h

  abbrev pub after : Result (Unit {0}) × Protocol h → Run
  after (ok u, s) = record { failed = false; protocol = s }
  after (err e, s) = record { failed = true; protocol = s }

  abbrev pub is_at : Reader → Reader → Bool
  is_at ready ready = true
  is_at looping looping = true
  is_at suspended suspended = true
  is_at _ _ = false

  -- A step of the task that reads, where it is at this place
  abbrev pub reading : Reader → M h (Unit {0}) → Run → Run
  reading place m r =
      if r.failed then r else if is_at place r.protocol.reader then after (m r.protocol) else r

  unfoldable pub go_on : M h (Unit {0})
  go_on s =
      if s.can_read.woken == 0
      then (ok tt, s)
      else (ok tt, record s { can_read = resume s.can_read; reader = looping })

  module _ (env : Surroundings h.Connection) where
    -- One step; a step that cannot happen changes nothing.
    unfoldable pub step : Op → Run → Run
    step (reads chunk) r = reading ready (handle_raw h env chunk) r
    step rounds r = reading looping (round h env) r
    step resumes r = reading suspended go_on r
    step closes r = record r { protocol = (handle_closed h env r.protocol).1 }
    step (sends e) r = record r { protocol = (stream_send h env e r.protocol).1 }

    unfoldable pub run : List Op → Run → Run
    run [] r = r
    run (op ∷ ops) r = run ops (step op r)

  abbrev pub start :
      Config
      → ConnectionState
      → Option (List ℕ × ℕ)
      → Option (List ℕ × Option ℕ)
      → Option TlsExtension
      → Bool
      → Run
  start config state client server tls zero_copy_send = record {
    failed = false;
    protocol = new h config state client server tls zero_copy_send;
  }
