-- ===== src/HttpStream/Grammar/Trailers.antt =====
-- The branches of `app_send` for trailers leave a stream that conforms.
use anycorn.Prelude.{refl, Bool, true, false, not, ◌&&◌, if◌then◌else◌}
use anycorn.Exec.{◌>>=◌, ◌>>◌, lift, gets, when}
use anycorn.Exec.Hoare.{Triple, T-modify, T-if, T-when, ◌>>>◌, T-pre}
use anycorn.Bytes.{Headers, is_in}
use anycorn.Events.{Event}
use anycorn.Utils.Headers.{build_and_validate_headers}
use anycorn.HttpStream.State.{HttpState, Scope, M, Interference, is_request, is_trailers}
use anycorn.HttpStream.Calls.{trailers_versions, send, send_closed}
use anycorn.HttpStream.AppSend.{unexpected, start_by_trailers, on_trailers, accepts_trailers}
use anycorn.HttpStream.Grammar.{
  awaiting, streaming, Conforms, At, In, Ends, Conforms-At, At-request, At-trailers,
}
use anycorn.HttpStream.Grammar.Rules.{At-lift, weaken, At-send, Ends-send_closed}
use anycorn.HttpStream.Grammar.Branches.{read_state, C-the_scope, refused, stay}

module _ (env : Interference) where
  At-start_by_trailers :
      (headers : Headers)
      → Triple Conforms
          (At awaiting HttpState.request)
          (start_by_trailers env headers)
          (λ _. At streaming HttpState.trailers)
  unfolding start_by_trailers
  At-start_by_trailers headers =
      At-lift awaiting HttpState.request tt (build_and_validate_headers headers) >>> λ validated.
      T-modify {Q = λ _. At awaiting HttpState.request} _ (λ s h. h) >>> λ _.
      At-send env _ (λ id. refl) refl >>> λ _. T-modify _ (λ s h. (h.0, refl))

  -- The end of the first branch: the state is `trailers` if it has started, `request` if not.
  trailers_done :
      (st : HttpState) (more_trailers : Bool)
      → Ends (In st) (when (is_trailers st && not more_trailers) (send_closed env))
  unfolding when
  trailers_done HttpState.trailers more_trailers =
      T-if (not more_trailers) (λ _. T-pre At-trailers (Ends-send_closed env)) (λ _. stay)
  trailers_done HttpState.request more_trailers = stay
  trailers_done HttpState.response more_trailers = stay
  trailers_done HttpState.closed more_trailers = stay

  -- The two branches that take trailers: before a response has started, and after its body.
  early_trailers :
      (scope : Scope) (headers : Headers) (more_trailers : Bool)
      → Ends (At awaiting HttpState.request) (
          when (accepts_trailers scope.headers) (start_by_trailers env headers)
          >> (gets (λ s. s.state) >>= λ after.
              when (is_trailers after && not more_trailers) (send_closed env)))
  early_trailers scope headers more_trailers =
      T-when {Q = λ _. Conforms} (accepts_trailers scope.headers)
        (λ _. weaken streaming HttpState.trailers tt (At-start_by_trailers headers))
        (λ _ s h. Conforms-At {p = awaiting} {st = HttpState.request} tt s h)
      >>> λ _. read_state >>> λ st. trailers_done st more_trailers

  late_trailers :
      (scope : Scope) (headers : Headers) (more_trailers : Bool)
      → Ends (At streaming HttpState.trailers) (
          when (accepts_trailers scope.headers) (
            lift (build_and_validate_headers headers) >>= λ validated.
            send env (λ id. Event.trailers id validated))
          >> when (not more_trailers) (send_closed env))
  late_trailers scope headers more_trailers =
      T-when {Q = λ _. At streaming HttpState.trailers} (accepts_trailers scope.headers)
        (λ _.
          At-lift streaming HttpState.trailers tt (build_and_validate_headers headers)
          >>> λ validated. At-send env _ (λ id. refl) refl)
        (λ _ s h. h)
      >>> λ _.
          T-when (not more_trailers) (λ _. Ends-send_closed env)
            (λ _ s h. Conforms-At {p = streaming} {st = HttpState.trailers} tt s h)

  if_trailers :
      (st : HttpState) (versions : Bool) {m n : M (Unit {0})}
      → Ends (At awaiting HttpState.request) m
      → Ends (At streaming HttpState.trailers) n
      → Ends (In st) (
          if versions && is_request st
          then m
          else if versions && is_trailers st
          then n
          else unexpected)
  if_trailers st false h k = refused
  if_trailers HttpState.request true h k = T-pre At-request h
  if_trailers HttpState.response true h k = refused
  if_trailers HttpState.trailers true h k = T-pre At-trailers k
  if_trailers HttpState.closed true h k = refused

  pub Ends-on_trailers :
      (headers : Headers) (more_trailers : Bool)
      → Ends Conforms (on_trailers env headers more_trailers)
  unfolding on_trailers
  Ends-on_trailers headers more_trailers = C-the_scope >>> λ scope. read_state >>> λ st.
      if_trailers st (is_in scope.http_version trailers_versions)
        (early_trailers scope headers more_trailers) (late_trailers scope headers more_trailers)
