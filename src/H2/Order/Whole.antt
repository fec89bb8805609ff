-- ===== src/H2/Order/Whole.antt =====
-- Every run of an `H2Protocol` (protocol/h2.py) calls its streams in order.
use anycorn.Prelude.{ℕ, zero, suc, refl, Bool, List, [], ◌∷◌, Option}
use anycorn.Exec.Hoare.{T-skip, T-state, ◌>>>◌, keeps}
use anycorn.Bytes.{Text}
use anycorn.Config.{Config, TlsExtension}
use anycorn.Connection.{stream, application}
use anycorn.Events.{ConnectionState}
use anycorn.H2.State.{
  World, Op, initiates, reads, closes, sends, sending_round, has_data_ends, push_ends, drain_ends,
  trailers_end, new,
}
use anycorn.H2.Calls.{Protocol, U}
use anycorn.H2.Runs.{own, perform, perform_all, meanwhile, run}
use anycorn.H2.Order.{absent, nobody, Follows}
use anycorn.H2.Order.Calls.{IsSteady, gets-IsSteady}
use anycorn.H2.Order.Sending.{
  push_ended-IsSteady, drain_ended-IsSteady, stream_send-IsSteady, trailers_ended-IsSteady,
  round-IsSteady, has_data_ended-IsSteady,
}
use anycorn.H2.Order.Handle.{handle_raw-IsSteady, handle_closed-IsSteady, initiate-IsSteady}

module _ (x : World) where
  own-IsSteady : {m : U x} → IsSteady x m → IsSteady x (own x m)
  unfolding own
  own-IsSteady t = T-state _ (keeps t)

  module _ (others : U x) (steady : IsSteady x others) where
    pub perform-IsSteady : (op : Op) → IsSteady x (perform x others op)
    unfolding perform
    perform-IsSteady (initiates headers settings) =
        own-IsSteady (initiate-IsSteady x others steady headers settings)
    perform-IsSteady (reads chunk) = own-IsSteady (handle_raw-IsSteady x others steady chunk)
    perform-IsSteady closes = own-IsSteady (handle_closed-IsSteady x others steady)
    perform-IsSteady (sends stream e) = stream_send-IsSteady x others steady e
    perform-IsSteady (sends application e) = own-IsSteady (stream_send-IsSteady x others steady e)
    perform-IsSteady sending_round = own-IsSteady (round-IsSteady x others steady)
    perform-IsSteady has_data_ends = own-IsSteady (has_data_ended-IsSteady x others steady)
    perform-IsSteady (push_ends id) = own-IsSteady (push_ended-IsSteady x id)
    perform-IsSteady (drain_ends id) = own-IsSteady (drain_ended-IsSteady x id)
    perform-IsSteady (trailers_end id headers) =
        own-IsSteady (trailers_ended-IsSteady x others steady id headers)

    perform_all-IsSteady : (ops : List Op) → IsSteady x (perform_all x others ops)
    unfolding perform_all
    perform_all-IsSteady [] = T-skip λ s f. f
    perform_all-IsSteady (op ∷ ops) = perform-IsSteady op >>> λ _. perform_all-IsSteady ops

  pub meanwhile-IsSteady : (depth : ℕ) → IsSteady x (meanwhile x depth)
  unfolding meanwhile
  meanwhile-IsSteady zero = T-skip λ s f. f
  meanwhile-IsSteady (suc depth) =
      gets-IsSteady x _ >>> perform_all-IsSteady (meanwhile x depth) (meanwhile-IsSteady depth)

  steps-Follows :
      (depth : ℕ) (ops : List Op) (s : Protocol x) → Follows x s → Follows x (run x depth ops s)
  unfolding run
  steps-Follows depth [] s f = f
  steps-Follows depth (op ∷ ops) s f =
      steps-Follows depth ops _
        (keeps (perform-IsSteady (meanwhile x depth) (meanwhile-IsSteady depth) op) s f)

  -- The streams of an HTTP/2 connection refine the automaton of `phase`, one for each number: in every
  -- run, whatever the tasks do and whatever they do while another one awaits a call, a stream that is
  -- made is called first with its request, if that can be made, then with what belongs to it and with
  -- no second request, and after `StreamClosed` not at all until it is made again; and the dictionary
  -- `streams` holds a stream exactly where the automaton has one that can be called.
  pub run-Follows :
      (config : Config) (state : ConnectionState) (client : Option (Text × ℕ))
      (server : Option (Text × Option ℕ)) (tls : Option TlsExtension) (zero_copy_send : Bool)
      (depth : ℕ) (ops : List Op)
      → Follows x (run x depth ops (new x.h2 x.tree config state client server tls zero_copy_send))
  unfolding new
  run-Follows config state client server tls zero_copy_send depth ops =
      steps-Follows depth ops _ λ id. (absent, refl, nobody)
