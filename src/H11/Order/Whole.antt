-- ===== src/H11/Order/Whole.antt =====
-- Every run of an `H11Protocol` (protocol/h11.py) calls its streams in order.
use mathlib.Core.Path.{subst}
use anycorn.Prelude.{ℕ, refl, Bool, true, false, List, [], ◌∷◌, Option, none, ◌==◌, if-intro}
use anycorn.Exec.{Result, ok, err}
use anycorn.Exec.Hoare.{Post, keeps}
use anycorn.Bytes.{Text}
use anycorn.Config.{Config, TlsExtension}
use anycorn.Events.{ConnectionState}
use anycorn.WorkerContext.{resume}
use anycorn.H11.State.{H11, Reader, Surroundings, new}
use anycorn.H11.Calls.{Protocol, M, close_stream}
use anycorn.H11.Runs.{
  Op, reads, rounds, resumes, closes, sends, Run, after, is_at, reading, go_on, step, run, start,
}
use anycorn.H11.Order.{IsAside, Lawful, absent, nobody, At, Follows}
use anycorn.H11.Order.Streams.{Follows-close_stream, stream_send-IsSteady}
use anycorn.H11.Order.Opening.{Reads}
use anycorn.H11.Order.Reading.{round-Reads, handle_raw-Reads}

module _ (h : H11) (laws : Lawful h) (env : Surroundings h.Connection) (aside : IsAside h env) where
  -- A stream is without its request only where the task that reads has failed.
  abbrev pub InOrder : Run h → Type 0
  InOrder r = Follows h r.failed r.protocol

  after-InOrder :
      (r : Result (Unit {0}) × Protocol h)
      → Post (Follows h true) (λ _. Follows h false) r
      → InOrder (after h r)
  after-InOrder (ok u, s) f = f
  after-InOrder (err e, s) f = f

  reading-InOrder :
      (place : Reader) (m : M h (Unit {0}))
      → Reads h laws (Follows h false) m (λ _. Follows h false)
      → (r : Run h) → InOrder r
      → InOrder (reading h place m r)
  reading-InOrder place m t r f =
      if-intro InOrder r.failed (λ _. f)
        (λ e.
          if-intro InOrder (is_at h place r.protocol.reader)
            (λ _.
              after-InOrder (m r.protocol)
                (t.at r.protocol (subst (λ b. Follows h b r.protocol) e f)))
            (λ _. f))

  pub go_on-Reads : Reads h laws (Follows h false) (go_on h) (λ _. Follows h false)
  unfolding go_on
  go_on-Reads = record {
    at = λ s f.
        if-intro (Post (Follows h true) (λ _. Follows h false)) (s.can_read.woken == 0) (λ _. f)
          (λ _. moved s f);
  }
    where
      moved :
          (s : Protocol h)
          → Follows h false s
          → Follows h false (record s { can_read = resume s.can_read; reader = Reader.looping })
      moved s (p, kind, taken, a, t) =
          (p, kind, taken, a, record { phases = t.phases; streams = t.streams; wires = t.wires })

  pub closes-InOrder :
      (b : Bool) (s : Protocol h) → Follows h b s → Follows h b (close_stream h env s).1
  closes-InOrder b s f =
      closed (close_stream h env s) ((Follows-close_stream h laws env aside b).at s f)
    where
      closed :
          (x : Result (Unit {0}) × Protocol h)
          → Post (Follows h b) (λ _. At h absent none false) x
          → Follows h b x.1
      closed (ok u, s) t = (absent, none, false, nobody, t)
      closed (err e, s) t = t

  step-InOrder : (op : Op) (r : Run h) → InOrder r → InOrder (step h env op r)
  unfolding step
  step-InOrder (reads chunk) r f =
      reading-InOrder Reader.ready _ (handle_raw-Reads h laws env aside chunk) r f
  step-InOrder rounds r f = reading-InOrder Reader.looping _ (round-Reads h laws env aside) r f
  step-InOrder resumes r f = reading-InOrder Reader.suspended _ go_on-Reads r f
  step-InOrder closes r f = closes-InOrder r.failed r.protocol f
  step-InOrder (sends e) r f = keeps (stream_send-IsSteady h laws env aside r.failed e) r.protocol f

  steps-InOrder : (ops : List Op) (r : Run h) → InOrder r → InOrder (run h env ops r)
  unfolding run
  steps-InOrder [] r f = f
  steps-InOrder (op ∷ ops) r f = steps-InOrder ops (step h env op r) (step-InOrder op r f)

  -- In every run where no stream is opened or called while one handles its `StreamClosed`: with an h11
  -- that keeps to its rules, a stream is opened only where there is none; it is given its request
  -- first, then what belongs to it and no second request, then at most one `StreamClosed`, and nothing
  -- after that.
  pub run-InOrder :
      (config : Config) (state : ConnectionState) (client : Option (Text × ℕ))
      (server : Option (Text × Option ℕ))
      → (tls : Option TlsExtension) (zero_copy_send : Bool) (ops : List Op)
      → InOrder (run h env ops (start h config state client server tls zero_copy_send))
  unfolding new
  run-InOrder config state client server tls zero_copy_send ops =
      steps-InOrder ops (start h config state client server tls zero_copy_send) (
        absent,
        none,
        false,
        nobody,
        record { phases = refl; streams = refl; wires = λ e. absurd (cc) },
      )
