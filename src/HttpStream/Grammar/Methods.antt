-- ===== src/HttpStream/Grammar/Methods.antt =====
-- The branches of `app_send` for the end of the application, the start of a response, pushes, hints
-- and bodies, each of which leaves a stream that conforms.
use anycorn.Prelude.{
  ℕ, ◌≡◌, refl, Bool, true, false, not, ◌&&◌, List, [], ◌∷◌, Option, none, some, arith,
  if◌then◌else◌,
}
use anycorn.Exec.{ok}
use anycorn.Exec.Hoare.{
  Triple, T-modify, T-gets, T-if, T-when, T-lift, T-raise, T-skip, T-state, ◌>>>◌, T-pure, T-pre,
}
use anycorn.Bytes.{Bytes, Text, Headers, is_in}
use anycorn.Events.{Event, stream_closed, informational_response}
use anycorn.Utils.Headers.{build_and_validate_headers}
use anycorn.HttpStream.State.{HttpState, sent, M, Interference, is_request}
use anycorn.HttpStream.Calls.{
  trailers_versions, send, send_error_response, finish_body, send_chunks,
}
use anycorn.HttpStream.AppSend.{
  unexpected, on_finished, on_start, on_push, push_path, on_early_hint, on_body,
}
use anycorn.HttpStream.Grammar.{
  awaiting, streaming, Conforms, At, In, Ends, Conforms-In, Conforms-At, At-request, advance,
}
use anycorn.HttpStream.Grammar.Rules.{
  At-the_scope, At-the_response, At-lift, weaken, At-send, At-await_call, In-send, Ends-send_closed,
  Ends-send_error_response,
}
use anycorn.HttpStream.Grammar.Branches.{
  read_state, C-the_scope, refused, arrive, if_request, if_response,
}

module _ (env : Interference) where
  tell_closed : (st : HttpState) → Ends (In st) (send env stream_closed)
  tell_closed st =
      T-pre (Conforms-In st)
        (In-send env stream_closed (λ id. elim [ none ↦ refl | some p ↦ refl ]))

  finished_at :
      (st : HttpState)
      → Ends (In st) (if is_request st then send_error_response env 500 else send env stream_closed)
  finished_at HttpState.request = T-pre At-request (Ends-send_error_response env 500)
  finished_at HttpState.response = tell_closed HttpState.response
  finished_at HttpState.trailers = tell_closed HttpState.trailers
  finished_at HttpState.closed = tell_closed HttpState.closed

  pub Ends-on_finished : Ends Conforms (on_finished env)
  unfolding on_finished
  Ends-on_finished = T-gets {Q = λ _. Conforms} _ (λ s h. h) >>> λ closed.
      read_state >>> λ st. T-when (not closed) (λ _. finished_at st) (λ _ s h. Conforms-In st s h)

  pub Ends-on_start :
      (status : ℕ) (headers : Headers) (has_trailers : Bool)
      → Ends Conforms (on_start env status headers has_trailers)
  unfolding on_start
  Ends-on_start status headers has_trailers = read_state >>> λ st. if_request st (
      T-modify {Q = λ _. At awaiting HttpState.request} _ (λ s h. h) >>> λ _.
      At-lift awaiting HttpState.request tt (build_and_validate_headers headers) >>> λ validated.
      At-send env _ (λ id. refl) refl >>> λ _. arrive HttpState.response tt)

  pub Ends-on_push :
      (path : Option Text) (headers : Headers) → Ends Conforms (on_push env path headers)
  unfolding on_push push_path
  Ends-on_push path headers = C-the_scope >>> λ scope.
      T-if (is_in scope.http_version trailers_versions)
        (λ _. target path >>> λ t.
          T-lift {Q = λ _. Conforms} (build_and_validate_headers headers) (λ a e s h. h) (λ s h. h)
          >>> λ v. In-send env _ (λ id. elim [ none ↦ refl | some p ↦ refl ]))
        (λ _. T-raise _ (λ s h. h))
    where
      target : (path : Option Text) → Triple Conforms Conforms (push_path path) (λ _. Conforms)
      target none = T-raise _ (λ s h. h)
      target (some p) = T-pure p (λ s h. h)

  -- `hint` is what `informational_response` made.
  hint_at :
      (id status : ℕ) (headers : Headers) (hint : Event)
      → informational_response id headers status ≡ ok hint
      → advance hint awaiting ≡ some awaiting
  unfolding informational_response
  hint_at id status headers hint e = ground arith

  pub Ends-on_early_hint : (links : List Bytes) → Ends Conforms (on_early_hint env links)
  unfolding on_early_hint
  Ends-on_early_hint links = C-the_scope >>> λ scope. read_state >>> λ st.
      T-gets {Q = λ _. In st} _ (λ s h. h) >>> λ stream_id.
      if_versions st (is_in scope.http_version trailers_versions) (
        T-lift
          {Q = λ hint s. (advance hint awaiting ≡ some awaiting) × At awaiting HttpState.request s}
          (informational_response _ _ _) (λ hint e s h. (hint_at _ _ _ hint e, h))
          (λ s h. Conforms-At {p = awaiting} {st = HttpState.request} tt s h)
        >>> λ hint. T-state _ λ s h.
          (weaken awaiting HttpState.request tt
              (At-await_call env (sent hint) {q = awaiting} h.0 refl)).at
            s h.1)
    where
      if_versions :
          (st : HttpState) (b : Bool) {m : M (Unit {0})}
          → Ends (At awaiting HttpState.request) m
          → Ends (In st) (if b && is_request st then m else unexpected)
      if_versions st true h = if_request st h
      if_versions st false h = refused

  pub Ends-finish_body :
      (more_body : Bool) → Ends (At streaming HttpState.response) (finish_body env more_body)
  unfolding finish_body
  Ends-finish_body more_body =
      T-when (not more_body)
        (λ _. At-the_response streaming HttpState.response tt >>> λ r.
          T-if r.trailers (λ _. arrive HttpState.trailers tt) (λ _. Ends-send_closed env))
        (λ _ s h. Conforms-At {p = streaming} {st = HttpState.response} tt s h)

  pub At-send_chunks :
      (chunks : List Bytes)
      → Triple Conforms
          (At streaming HttpState.response)
          (send_chunks env chunks)
          (λ _. At streaming HttpState.response)
  unfolding send_chunks
  At-send_chunks [] = T-skip (λ s h. h)
  At-send_chunks (chunk ∷ chunks) = At-send env _ (λ id. refl) refl >>> λ _. At-send_chunks chunks

  pub Ends-on_body :
      (chunk : Bytes) (more_body : Bool) → Ends Conforms (on_body env chunk more_body)
  unfolding on_body
  Ends-on_body chunk more_body = read_state >>> λ st. if_response st (
      At-the_scope streaming HttpState.response tt >>> λ scope.
      At-the_response streaming HttpState.response tt >>> λ r.
      T-when {Q = λ _. At streaming HttpState.response} _ (λ _. At-send env _ (λ id. refl) refl)
        (λ _ s h. h)
      >>> λ _. Ends-finish_body more_body)
