-- ===== src/WsStream/Grammar/Rules.antt =====
-- Rules for the calls of a method: where a call leaves the stream in the grammar.
use anycorn.Prelude.{
  ℕ, ◌≡◌, refl, ◌∙◌, ap, Bool, true, ◌∷◌, Option, none, some, is_some, Option-cases, Bool-cases,
  inl, inr, arith,
}
use anycorn.Exec.{Result, ok, err, ◌>>◌, lift, gets}
use anycorn.Exec.Hoare.{Triple, T-modify, T-gets, T-lift, T-skip, T-pre, T-post, ◌>>>◌, Post}
use anycorn.Events.{Event, end_body, stream_closed}
use anycorn.WsStream.State.{Wsproto, WsState, Call, sent, logged, Interference, WebsocketScope}
use anycorn.WsStream.Calls.{
  Stream, M, interrupt, on_stream_closed, record_call, await_call, send, send_stream_closed,
  the_scope, the_response, the_handshake, the_connection, log_error, send_error_response,
}
use anycorn.WsStream.Grammar.{
  OnlyDisconnects, Phase, awaiting, headed, ended, reported, advance, observe, phase, Agrees,
  Conforms, At, Conforms-At, interrupt_keeps,
}

module _ (w : Wsproto) where
  -- A method that leaves a stream that conforms, whether it returns or raises.
  abbrev pub Ends : (Stream w → Type 0) → M w (Unit {0}) → Type 0
  Ends P m = Triple (Conforms w) P m (λ _. Conforms w)

  -- Reading an attribute that may not be set
  pub T-read :
      {A : Type 0} {E P : Stream w → Type 0} (m : M w A)
      → ((s : Stream w) → (m s).1 ≡ s)
      → ((s : Stream w) → P s → E s)
      → Triple E P m (λ _. P)
  T-read {A} {E} {P} m same k = record {
    at = λ s h. read (m s).0 (m s).1 (rw (same s) h) (rw (same s) (k s h));
  }
    where
      read : (r : Result A) (s : Stream w) → P s → E s → Post E (λ _. P) (r, s)
      read (ok a) s h e = h
      read (err x) s h e = e

  pub scope_still : (s : Stream w) → (the_scope w s).1 ≡ s
  unfolding the_scope
  scope_still s = ground (arith, Option-cases s.scope)

  pub connection_still : (s : Stream w) → (the_connection w s).1 ≡ s
  unfolding the_connection
  connection_still s = ground (arith, Option-cases s.connection)

  pub handshake_still : (s : Stream w) → (the_handshake w s).1 ≡ s
  unfolding the_handshake
  handshake_still s = ground (arith, Option-cases s.handshake)

  pub response_still : (s : Stream w) → (the_response w s).1 ≡ s
  unfolding the_response
  response_still s = ground (arith, Option-cases s.response)

module _ (w : Wsproto) (p : Phase) (st : WsState) (c : Bool) (agree : Agrees p st c) where
  pub At-the_scope : Triple (Conforms w) (At w p st c) (the_scope w) (λ _. At w p st c)
  At-the_scope = T-read w (the_scope w) (scope_still w) (λ s h. Conforms-At w agree s h)

  pub At-lift :
      {A : Type 0} (r : Result A) → Triple (Conforms w) (At w p st c) (lift r) (λ _. At w p st c)
  At-lift r = T-lift r (λ a e s h. h) (λ s h. Conforms-At w agree s h)

module _ (w : Wsproto) where
  pub At-gets :
      {A : Type 0} {p : Phase} {st : WsState} {c : Bool} (f : Stream w → A)
      → Triple (Conforms w) (At w p st c) (gets f) (λ _. At w p st c)
  At-gets f = T-gets f (λ s h. h)

  -- Closed, in the phase `p`
  abbrev pub IsShut : Phase → Stream w → Type 0
  IsShut p s = (phase s.calls ≡ some p) × (s.closed ≡ true)

  pub Conforms-IsShut : (p : Phase) (s : Stream w) → IsShut p s → Conforms w s
  Conforms-IsShut p s (h, c) = rw (h, c) tt

  pub interrupt-closed : (s : Stream w) → (interrupt w s).closed ≡ true
  unfolding interrupt on_stream_closed
  interrupt-closed s = ground (arith, Bool-cases s.closed)

  module _ (env : Interference w.Connection) (only : OnlyDisconnects w env) where
    pub At-await_call :
        (x : Call) {p q : Phase} {st : WsState} {c : Bool}
        → observe x (some p) ≡ some q
        → Triple (Conforms w) (At w p st c) (await_call w env x) (λ _. At w q st c)
    unfolding await_call
    At-await_call x {p} {q} {st} {c} turn = record {
      at = λ s h.
          let now : phase (x ∷ s.calls) ≡ some q = ap (observe x) h.0 ∙ turn in
          let kept = interrupt_keeps w (record_call w x s) q now in
          elim (only (record_call w x s)) [
            | inl i ↦ rw i (now, h.1, h.2)
            | inr i ↦ rw i (kept.0, kept.1 ∙ h.1, ap is_some kept.2 ∙ h.2)
          ];
    }

    pub At-send :
        (e : ℕ → Event) {p q : Phase} {st : WsState} {c : Bool}
        → ((id : ℕ) → advance (e id) p ≡ some q)
        → Triple (Conforms w) (At w p st c) (send w env e) (λ _. At w q st c)
    unfolding send
    At-send e h = At-gets (λ s. s.stream_id) >>> λ id. At-await_call (sent (e id)) (h id)

    -- Closing is no event of the response, and the stream is closed afterwards.
    pub IsShut-send_stream_closed :
        (p : Phase) (E : Stream w → Type 0)
        → Triple E (λ s. phase s.calls ≡ some p) (send_stream_closed w env) (λ _. IsShut p)
    unfolding send_stream_closed
    IsShut-send_stream_closed p E =
        T-gets {Q = λ _ s. phase s.calls ≡ some p} _ (λ s h. h) >>> λ id. T-modify _ λ s h.
          let s' : Stream w = record_call w (sent (stream_closed id)) s in
          (
            (interrupt_keeps w s' p (ap (observe (sent (stream_closed id))) h)).0,
            interrupt-closed s',
          )

    pub Ends-send_error_response :
        (status : ℕ) {st : WsState} {c : Bool}
        → Ends w (At w awaiting st c) (send_error_response w env status)
    unfolding send_error_response
    Ends-send_error_response status {st} {c} = At-send _ {q = headed} (λ id. refl) >>> λ _.
        At-send end_body {q = ended} (λ id. refl) >>> λ _. At-gets _ >>> λ scope. logging scope
      where
        shut : (p : Phase) → Ends w (At w p st c) (send_stream_closed w env)
        shut p =
            T-pre (λ s h. h.0)
              (T-post (λ a s h. Conforms-IsShut p s h) (IsShut-send_stream_closed p (Conforms w)))

        logging :
            (scope : Option WebsocketScope)
            → Ends w (At w ended st c) (log_error w env status scope >> send_stream_closed w env)
        logging none = T-skip {Q = λ _. At w ended st c} (λ s h. h) >>> λ _. shut ended
        logging (some scope) =
            At-await_call (logged scope _) {q = reported} refl >>> λ _. shut reported
