-- ===== src/HttpStream/Grammar/Runs.antt =====
-- Whatever the application sends and the protocol delivers, the stream conforms.
use anycorn.Prelude.{
  ℕ, ◌≡◌, refl, ap, Bool, true, false, List, [], ◌∷◌, Option, none, some, if◌then◌else◌, All,
  Bool-cases, inl, inr,
}
use anycorn.Exec.{Result, ok, err, ◌>>=◌, lift, skip}
use anycorn.Exec.Hoare.{T-raise, T-modify, T-gets, T-if, ◌>>>◌, keeps}
use anycorn.Sendfile.{Os}
use anycorn.Bytes.{Bytes, Text, partition}
use anycorn.Config.{Config, TlsExtension}
use anycorn.Events.{Event, Request}
use anycorn.Utils.Percent.{decode_asgi_path, valid_request_target}
use anycorn.Utils.Names.{valid_server_name}
use anycorn.HttpStream.State.{
  HttpState, HttpStream, Scope, Message, Interference, put, spawned, http_request, new,
}
use anycorn.HttpStream.Calls.{call, on_stream_closed, interrupt}
use anycorn.HttpStream.Handle.{
  refuse, spawn_app, handle_scope, handle_decoded, on_request, put_body, on_event, handle,
}
use anycorn.HttpStream.AppSend.{app_send}
use anycorn.HttpStream.Grammar.{Phase, awaiting, observe, phase, Conforms, Conforms-At, At, Ends}
use anycorn.HttpStream.Grammar.Rules.{
  At-lift, At-gets, Ends-send_error_response, Conforms-interrupt,
}
use anycorn.HttpStream.Grammar.Methods.{
  Ends-on_finished, Ends-on_start, Ends-on_push, Ends-on_early_hint, Ends-on_body,
}
use anycorn.HttpStream.Grammar.Trailers.{Ends-on_trailers}
use anycorn.HttpStream.Grammar.Files.{Ends-on_zerocopysend, Ends-on_pathsend}

-- Any event but a request, of which a stream gets one.
abbrev pub IsLater : Event → Type 0
IsLater (Event.request id r) = ⊥
IsLater _ = Unit

-- The turns that the two tasks take: the protocol delivers an event, or the application sends a
-- message. An exception goes to the task whose turn it is.
pub data Turn : Type 0 where
  deliver : Event → Turn
  say : Option Message → Turn

abbrev pub IsFollowUp : Turn → Type 0
IsFollowUp (deliver e) = IsLater e
IsFollowUp (say message) = Unit

module _ (env : Interference) (os : Os) where
  unfoldable pub turn : Turn → HttpStream → HttpStream
  turn (deliver e) s = (handle env e s).1
  turn (say message) s = (app_send env os message s).1

  unfoldable pub run : List Turn → HttpStream → HttpStream
  run [] s = s
  run (t ∷ turns) s = run turns (turn t s)

module _ (env : Interference) (os : Os) where
  Ends-app_send : (message : Option Message) → Ends Conforms (app_send env os message)
  unfolding app_send
  Ends-app_send none = Ends-on_finished env
  Ends-app_send (some (Message.start status headers has_trailers)) =
      Ends-on_start env status headers has_trailers
  Ends-app_send (some (Message.push path headers)) = Ends-on_push env path headers
  Ends-app_send (some (Message.early_hint links)) = Ends-on_early_hint env links
  Ends-app_send (some (Message.body chunk more_body)) = Ends-on_body env chunk more_body
  Ends-app_send (some (Message.pathsend path)) = Ends-on_pathsend env os path
  Ends-app_send (some (Message.zerocopysend fileno offset count more_body)) =
      Ends-on_zerocopysend env os fileno offset count more_body
  Ends-app_send (some (Message.trailers headers more_trailers)) =
      Ends-on_trailers env headers more_trailers
  Ends-app_send (some Message.other) = T-raise _ (λ s h. h)

Ends-spawn_app : (scope : Scope) → Ends (At awaiting HttpState.request) (spawn_app scope)
unfolding spawn_app call
Ends-spawn_app scope =
    T-modify {Q = λ _. At awaiting HttpState.request} _
      (λ s h. (ap (observe (spawned scope)) h.0, h.1))
    >>> λ _. T-modify _ (λ s h. Conforms-At {p = awaiting} {st = HttpState.request} tt s h)

Ends-put_body : (chunk : Bytes) (more_body : Bool) → Ends Conforms (put_body chunk more_body)
unfolding put_body call
Ends-put_body chunk more_body = T-gets {Q = λ _. Conforms} _ (λ s h. h) >>> λ app_put.
    T-if app_put (λ _. T-modify _ λ s h. rw (put_still (phase s.calls)) h)
      (λ _. T-raise _ (λ s h. h))
  where
    put_still : (o : Option Phase) → observe (put (http_request chunk more_body)) o ≡ o
    put_still none = refl
    put_still (some p) = refl

module _ (env : Interference) where
  -- `closed`, `scope` and `app_put` are no part of the grammar.
  Ends-refuse : (status : ℕ) → Ends (At awaiting HttpState.request) (refuse env status)
  unfolding refuse
  Ends-refuse status = Ends-send_error_response env status >>> λ _. T-modify _ (λ s h. h)

  Ends-on_request : (r : Request) → Ends (At awaiting HttpState.request) (on_request env r)
  unfolding on_request handle_decoded handle_scope
  Ends-on_request r = decoded (decode_asgi_path (partition b'?' r.raw_path).0)
    where
      named :
          (config : Config) (scope : Scope)
          → Ends (At awaiting HttpState.request) (
              lift (valid_server_name config r) >>= λ valid.
              if valid then spawn_app scope else refuse env 404)
      named config scope =
          At-lift awaiting HttpState.request tt (valid_server_name config r) >>> λ valid.
          T-if valid (λ _. Ends-spawn_app scope) (λ _. Ends-refuse 404)

      decoded :
          (path : Result Text) → Ends (At awaiting HttpState.request) (handle_decoded env r path)
      decoded (err e) = Ends-refuse 400
      decoded (ok path) = At-gets _ >>> λ scope.
          T-modify {Q = λ _. At awaiting HttpState.request} _ (λ s h. h) >>> λ _.
          At-gets _ >>> λ config.
          T-if (valid_request_target _) (λ _. named config scope) (λ _. Ends-refuse 400)

module _ (env : Interference) where
  -- A closed stream ignores every event.
  pub handle_closed : (e : Event) (s : HttpStream) → s.closed ≡ true → handle env e s ≡ (ok tt, s)
  unfolding handle ◌>>=◌
  handle_closed e s h = rw h

  handle_open : (e : Event) (s : HttpStream) → s.closed ≡ false → handle env e s ≡ on_event env e s
  unfolding handle ◌>>=◌
  handle_open e s h = rw h

  on_later-Conforms :
      (e : Event)
      → IsLater e
      → (s : HttpStream) → Conforms s
      → s.closed ≡ false
      → Conforms (on_event env e s).1
  unfolding on_event skip
  on_later-Conforms (Event.request id r) later s h o = absurd later
  on_later-Conforms (Event.body id chunk) later s h o = keeps (Ends-put_body chunk true) s h
  on_later-Conforms (Event.end_body id) later s h o = keeps (Ends-put_body [] false) s h
  on_later-Conforms (Event.stream_closed id) later s h o =
      let same : interrupt s ≡ (on_stream_closed s).1 = unfold interrupt in rw o refl in
      rw same at (Conforms-interrupt s h)
  on_later-Conforms _ later s h o = h

  handle-Conforms :
      (e : Event) → IsLater e → (s : HttpStream) → Conforms s → Conforms (handle env e s).1
  handle-Conforms e later s h = elim (Bool-cases s.closed) [
    | inl c ↦ rw (handle_closed e s c) h
    | inr o ↦ rw (handle_open e s o) (on_later-Conforms e later s h o)
  ]

  request-Conforms :
      (id : ℕ) (r : Request) (s : HttpStream)
      → s.closed ≡ false
      → At awaiting HttpState.request s
      → Conforms (handle env (Event.request id r) s).1
  unfolding on_event
  request-Conforms id r s o h =
      rw (handle_open (Event.request id r) s o) (keeps (Ends-on_request env r) s h)

module _ (env : Interference) (os : Os) where
  turn-Conforms :
      (t : Turn) → IsFollowUp t → (s : HttpStream) → Conforms s → Conforms (turn env os t s)
  unfolding turn
  turn-Conforms (deliver e) later s h = handle-Conforms env e later s h
  turn-Conforms (say message) later s h = keeps (Ends-app_send env os message) s h

  run-Conforms :
      (turns : List Turn)
      → All IsFollowUp turns
      → (s : HttpStream) → Conforms s
      → Conforms (run env os turns s)
  unfolding run
  run-Conforms [] later s h = h
  run-Conforms (t ∷ turns) (l, later) s h =
      run-Conforms turns later (turn env os t s) (turn-Conforms t l s h)

  -- From a new stream and its request, whatever the application sends afterwards, whatever else the
  -- protocol delivers and wherever the disconnect comes, the calls made so far are a response in
  -- the making: each event in its turn, and the log line in its turn. The state says how far it is.
  pub responses-Conforms :
      (config : Config) (client : Option (Text × ℕ)) (server : Option (Text × Option ℕ))
      → (stream_id : ℕ) (tls : Option TlsExtension) (zero_copy_send : Bool) (r : Request)
      → (turns : List Turn) → All IsFollowUp turns
      → Conforms (
          run env os
            (deliver (Event.request stream_id r) ∷ turns)
            (new config client server stream_id tls zero_copy_send))
  unfolding run turn new
  responses-Conforms config client server stream_id tls zero_copy_send r turns later =
      run-Conforms turns later _ (request-Conforms env stream_id r _ refl (refl, refl))
