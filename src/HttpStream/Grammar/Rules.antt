-- ===== src/HttpStream/Grammar/Rules.antt =====
-- Rules for the calls of a method: where a call leaves the stream in the grammar.
use anycorn.Prelude.{
  ℕ, ◌≡◌, refl, ◌∙◌, ap, true, ◌∷◌, Option, none, some, Option-cases, Bool-cases, inl, inr,
}
use anycorn.Exec.{Result, ok, err, ◌>>◌, lift, gets}
use anycorn.Exec.Hoare.{Triple, T-modify, T-gets, T-lift, T-skip, T-state, ◌>>>◌, Post}
use anycorn.Events.{Event, end_body, stream_closed}
use anycorn.HttpStream.State.{HttpState, HttpStream, Call, M, Interference, sent, logged, Scope}
use anycorn.HttpStream.Calls.{
  interrupt, the_scope, the_response, await_call, send, record_call, send_closed,
  send_error_response, log_error,
}
use anycorn.HttpStream.Grammar.{
  Phase, awaiting, streaming, ended, reported, advance, observe, phase, Agrees, Conforms, fits,
  phase-interrupt, state-interrupt, At, Ends, Conforms-At, Agrees-request, Agrees-response,
  Agrees-trailers,
}

module _ (p : Phase) (st : HttpState) (agree : Agrees (some p) st) where
  pub At-the_scope : Triple Conforms (At p st) the_scope (λ _. At p st)
  unfolding the_scope
  At-the_scope = record {
    at = λ s h. elim (Option-cases s.scope) [
      | inl e ↦ rw e (Conforms-At agree s h)
      | inr (scope, e) ↦ rw e h
    ];
  }

  pub At-the_response : Triple Conforms (At p st) the_response (λ _. At p st)
  unfolding the_response
  At-the_response = record {
    at = λ s h. elim (Option-cases s.response) [
      | inl e ↦ rw e (Conforms-At agree s h)
      | inr (r, e) ↦ rw e h
    ];
  }

  pub At-lift : {A : Type 0} (r : Result A) → Triple Conforms (At p st) (lift r) (λ _. At p st)
  At-lift r = T-lift r (λ a e s h. h) (λ s h. Conforms-At agree s h)

  -- The end of a method.
  pub weaken :
      {P : HttpStream → Type 0} {m : M (Unit {0})} → Triple Conforms P m (λ _. At p st) → Ends P m
  weaken {m = m} h = record { at = λ s k. conforming (m s).0 (m s).1 (h.at s k) }
    where
      conforming :
          (r : Result (Unit {0})) (s : HttpStream)
          → Post Conforms (λ _. At p st) (r, s)
          → Post Conforms (λ _. Conforms) (r, s)
      conforming (ok a) s k = Conforms-At agree s k
      conforming (err e) s k = k

pub At-gets :
    {A : Type 0} {p : Phase} {st : HttpState} (f : HttpStream → A)
    → Triple Conforms (At p st) (gets f) (λ _. At p st)
At-gets f = T-gets f (λ s h. h)

fits_of_Agrees : (o : Option Phase) (st : HttpState) → Agrees o st → fits o st ≡ true
fits_of_Agrees o HttpState.closed h = refl
fits_of_Agrees o HttpState.request h = rw (Agrees-request o h)
fits_of_Agrees o HttpState.response h = rw (Agrees-response o h)
fits_of_Agrees o HttpState.trailers h = rw (Agrees-trailers o h)

pub Conforms-interrupt : (s : HttpStream) → Conforms s → Conforms (interrupt s)
Conforms-interrupt s h =
    rw (phase-interrupt s (fits_of_Agrees (phase s.calls) s.state h), state-interrupt s) h

module _ (env : Interference) where
  -- After a call, interrupted or not, the phase is what the call makes of it.
  phase-await_call :
      (c : Call) (s : HttpStream)
      → fits (observe c (phase s.calls)) s.state ≡ true
      → (phase (await_call env c s).1.calls ≡ observe c (phase s.calls))
        × ((await_call env c s).1.state ≡ s.state)
  unfolding await_call
  phase-await_call c s fit = elim (Bool-cases (env (c ∷ s.calls))) [
    | inl i ↦ rw i (phase-interrupt (record_call c s) fit, state-interrupt (record_call c s))
    | inr i ↦ rw i (refl, refl)
  ]

  pub At-await_call :
      (c : Call) {p q : Phase} {st : HttpState}
      → observe c (some p) ≡ some q
      → fits (some q) st ≡ true
      → Triple Conforms (At p st) (await_call env c) (λ _. At q st)
  unfolding await_call
  At-await_call c {p} {q} {st} turn fit = record {
    at = λ s h.
        let now : observe c (phase s.calls) ≡ some q = ap (observe c) h.0 ∙ turn in
        let (same, kept) = phase-await_call c s (rw (now, h.1) fit) in (same ∙ now, kept ∙ h.1);
  }

  pub At-send :
      (e : ℕ → Event) {p q : Phase} {st : HttpState}
      → ((id : ℕ) → advance (e id) p ≡ some q)
      → fits (some q) st ≡ true
      → Triple Conforms (At p st) (send env e) (λ _. At q st)
  unfolding send
  At-send e h fit = At-gets (λ s. s.stream_id) >>> λ id. At-await_call (sent (e id)) (h id) fit

  -- An event that has no turn.
  pub In-send :
      (e : ℕ → Event)
      → ((id : ℕ) (o : Option Phase) → observe (sent (e id)) o ≡ o)
      → Ends Conforms (send env e)
  unfolding send await_call
  In-send e h = T-gets {Q = λ _. Conforms} (λ s. s.stream_id) (λ s k. k) >>> λ id.
      T-state (await_call env (sent (e id))) λ s k.
        let still = h id (phase s.calls) in
        let (same, kept) =
          phase-await_call (sent (e id)) s (rw still (fits_of_Agrees (phase s.calls) s.state k)) in
        rw (same, kept, still) k

  -- The two ways to end a response.
  pub Ends-send_closed : {st : HttpState} → Ends (At streaming st) (send_closed env)
  unfolding send_closed
  Ends-send_closed {st} =
      T-modify {Q = λ _. At streaming HttpState.closed} _ (λ s h. (h.0, refl)) >>> λ _.
      At-send end_body (λ id. refl) refl >>> λ _.
      At-the_scope ended HttpState.closed tt >>> λ scope.
      At-the_response ended HttpState.closed tt >>> λ r.
      At-await_call (logged scope (some r)) {q = reported} refl refl >>> λ _.
      weaken reported HttpState.closed tt (At-send stream_closed (λ id. refl) refl)

  pub Ends-send_error_response :
      (status : ℕ) {st : HttpState} → Ends (At awaiting st) (send_error_response env status)
  unfolding send_error_response
  Ends-send_error_response status =
      T-modify {Q = λ _. At awaiting HttpState.closed} _ (λ s h. (h.0, refl)) >>> λ _.
      At-send _ (λ id. refl) refl >>> λ _.
      At-send end_body (λ id. refl) refl >>> λ _. At-gets _ >>> λ scope. logging scope
    where
      logging :
          (scope : Option Scope)
          → Ends (At ended HttpState.closed) (log_error env status scope >> send env stream_closed)
      logging none = T-skip {Q = λ _. At ended HttpState.closed} (λ s h. h) >>> λ _.
          weaken ended HttpState.closed tt (At-send stream_closed (λ id. refl) refl)
      logging (some scope) = At-await_call (logged scope _) {q = reported} refl refl >>> λ _.
          weaken reported HttpState.closed tt (At-send stream_closed (λ id. refl) refl)
