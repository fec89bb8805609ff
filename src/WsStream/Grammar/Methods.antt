-- ===== src/WsStream/Grammar/Methods.antt =====
-- The branches of `app_send`, each of which leaves a stream that conforms: the end of the application
-- and `websocket.accept`.
use mathlib.Core.Path.{subst}
use anycorn.Prelude.{
  ℕ, ◌≡◌, refl, ap, sym, Bool, true, false, [], ◌∷◌, Option, none, some, is_some, Option-cases, inl,
  inr, if◌then◌else◌,
}
use anycorn.Exec.{gets, raise, when, unexpected_message, ◌>>=◌, ◌>>◌}
use anycorn.Exec.Hoare.{
  Triple, T-modify, T-gets, T-when, T-lift, T-raise, T-skip, T-state, T-pre, T-post, T-err, ◌>>>◌,
  Post,
}
use anycorn.Bytes.{Bytes, Text, Headers}
use anycorn.Events.{end_raw}
use anycorn.WsStream.State.{
  Wsproto, WsEvent, close_connection, WsState, Handshake, sent, logged, pinging, Interference,
}
use anycorn.WsStream.Handshake.{Acceptance, accept}
use anycorn.WsStream.Calls.{
  internal_error, Stream, M, send_stream_closed, send_error_response, the_connection, the_handshake,
  send_wsproto_event,
}
use anycorn.WsStream.Handle.{receive_data}
use anycorn.WsStream.AppSend.{is_handshake, is_connected, on_finished, release, accepted, on_accept}
use anycorn.WsStream.Grammar.{
  OnlyDisconnects, Phase, awaiting, headed, tunnel, ended, reported, observe, phase, Allowed,
  Conforms, At, Conforms-At, OnWire, IsLive, Conforms-live,
}
use anycorn.WsStream.Grammar.Phases.{Fits, Allowed-Fits, at_handshake, at_response, on_wire}
use anycorn.WsStream.Grammar.Rules.{
  Ends, T-read, handshake_still, At-the_scope, At-lift, At-gets, Conforms-IsShut, At-await_call,
  At-send, IsShut-send_stream_closed, Ends-send_error_response,
}
use anycorn.WsStream.Grammar.Wire.{
  Stays, Stays-set_connection, Stays-send_data, Stays-handle_events,
}

pub OnWire-end_raw : (id : ℕ) (o : Option Phase) → OnWire o → OnWire (observe (sent (end_raw id)) o)
OnWire-end_raw id (some headed) h = tt
OnWire-end_raw id (some tunnel) h = tt
OnWire-end_raw id (some awaiting) h = absurd h
OnWire-end_raw id (some ended) h = absurd h
OnWire-end_raw id (some reported) h = absurd h
OnWire-end_raw id none h = absurd h

module _ (w : Wsproto) where
  -- An open stream that conforms, and one whose state is `st`
  abbrev pub IsOpen : Stream w → Type 0
  IsOpen s = Fits (phase s.calls) s.state (is_some s.connection)

  abbrev pub In : WsState → Stream w → Type 0
  In st s = Fits (phase s.calls) st (is_some s.connection) × (s.state ≡ st)

  pub Conforms-IsOpen : (s : Stream w) → IsOpen s → Conforms w s
  Conforms-IsOpen s h = Allowed-Fits s.closed (phase s.calls) s.state (is_some s.connection) h

  pub Conforms-In : (st : WsState) (s : Stream w) → In st s → Conforms w s
  Conforms-In st s h = Conforms-IsOpen s (rw h.1 h.0)

  pub read_state : Triple (Conforms w) IsOpen (gets (λ (s : Stream w). s.state)) (λ st. In st)
  read_state = T-gets _ (λ s h. (h, refl))

  pub At-handshake :
      (s : Stream w) → In WsState.handshake s → At w awaiting WsState.handshake false s
  At-handshake s h =
      let (p, c) = at_handshake (phase s.calls) (is_some s.connection) h.0 in (p, h.1, c)

  pub At-response : (s : Stream w) → In WsState.response s → At w headed WsState.response false s
  At-response s h =
      let (p, c) = at_response (phase s.calls) (is_some s.connection) h.0 in (p, h.1, c)

  pub Conforms-none : (s : Stream w) → phase s.calls ≡ none → Conforms w s → ⊥
  Conforms-none s e h = not_none s.closed (phase s.calls) e h
    where
      not_none :
          (closed : Bool) (o : Option Phase)
          → o ≡ none
          → Allowed closed o s.state (is_some s.connection)
          → ⊥
      not_none closed none e h = h
      not_none closed (some p) e h = cc

  pub IsOpen-of : (st : WsState) (s : Stream w) → In st s → IsOpen s
  IsOpen-of st s h = rw h.1 h.0

  pub refused :
      {P : Stream w → Type 0}
      → ((s : Stream w) → P s → Conforms w s)
      → Ends w P (raise unexpected_message)
  refused h = T-raise _ h

  -- A branch for one state
  pub if_handshake :
      (st : WsState) {m : M w (Unit {0})}
      → Ends w (At w awaiting WsState.handshake false) m
      → Ends w (In st) (if is_handshake st then m else raise unexpected_message)
  if_handshake WsState.handshake h = T-pre At-handshake h
  if_handshake WsState.connected h = refused (Conforms-In WsState.connected)
  if_handshake WsState.response h = refused (Conforms-In WsState.response)
  if_handshake WsState.closed h = refused (Conforms-In WsState.closed)
  if_handshake WsState.http_closed h = refused (Conforms-In WsState.http_closed)

  -- From a state in which there may be a connection: without one, the attribute raises.
  pub Live-the_connection : Triple (Conforms w) IsOpen (the_connection w) (λ _. IsLive w)
  unfolding the_connection
  Live-the_connection = record {
    at = λ s h. elim (Option-cases s.connection) [
      | inl e ↦
          let k : Allowed s.closed (phase s.calls) s.state false = rw e at (Conforms-IsOpen s h) in
          rw e k
      | inr (c, e) ↦
          let fits : Fits (phase s.calls) s.state true = rw e at h in
          let (wire, up) = on_wire (phase s.calls) s.state fits in rw e (wire, up, refl)
    ];
  }

  -- Reading the state where it is known
  pub At-state :
      {A : Type 0} {p : Phase} {st : WsState} {c : Bool} (m : WsState → M w A)
      {Q : A → Stream w → Type 0}
      → Triple (Conforms w) (At w p st c) (m st) Q
      → Triple (Conforms w) (At w p st c) (gets (λ s. s.state) >>= m) Q
  unfolding ◌>>=◌ gets
  At-state m {Q = Q} k = record {
    at = λ s h. subst (λ x. Post (Conforms w) Q (m x s)) (sym h.1) (k.at s h);
  }

  -- What stays accepted conforms.
  pub staying :
      {A : Type 0} {m : M w A} → Stays w m → Triple (Conforms w) (IsLive w) m (λ _. IsLive w)
  staying h = T-err (Conforms-live w) h

  pub Ends-staying : {m : M w (Unit {0})} → Stays w m → Ends w (IsLive w) m
  Ends-staying h = T-post (λ a s l. Conforms-live w s l) (staying h)

  module _ (env : Interference w.Connection) (only : OnlyDisconnects w env) where
    pub Live-send_wsproto_event :
        (e : WsEvent) → Triple (Conforms w) IsOpen (send_wsproto_event w env e) (λ _. IsLive w)
    unfolding send_wsproto_event
    Live-send_wsproto_event e = Live-the_connection >>> λ c.
        staying (Stays-set_connection w env only _) >>> λ _. staying (Stays-send_data w env only _)

    Ends-send_stream_closed : Ends w (Conforms w) (send_stream_closed w env)
    Ends-send_stream_closed = T-state _ λ s h. shut s (phase s.calls) refl h
      where
        shut :
            (s : Stream w) (o : Option Phase)
            → phase s.calls ≡ o
            → Conforms w s
            → Post (Conforms w) (λ _. Conforms w) (send_stream_closed w env s)
        shut s none e h = absurd (Conforms-none s e h)
        shut s (some p) e h =
            (T-post (λ a s k. Conforms-IsShut w p s k)
                (IsShut-send_stream_closed w env only p (Conforms w))).at
              s e

    -- The end of the application where the handshake has been answered
    not_handshake :
        (st : WsState)
        → Ends w (In st) (
            when (is_connected st) (send_wsproto_event w env (close_connection internal_error none))
            >> send_stream_closed w env)
    not_handshake st =
        T-when {Q = λ _. Conforms w} (is_connected st)
          (λ _.
            T-pre (IsOpen-of st)
              (T-post (λ a s l. Conforms-live w s l) (Live-send_wsproto_event _)))
          (λ _ s h. Conforms-In st s h)
        >>> λ _. Ends-send_stream_closed

    pub Ends-on_finished : Ends w IsOpen (on_finished w env)
    unfolding on_finished
    Ends-on_finished = read_state >>> λ st. finished_at st
      where
        finished_at :
            (st : WsState)
            → Ends w (In st) (
                if is_handshake st
                then send_error_response w env 500
                else (when
                      (is_connected st)
                      (send_wsproto_event w env (close_connection internal_error none))
                    >> send_stream_closed w env))
        finished_at WsState.handshake = T-pre At-handshake (Ends-send_error_response w env only 500)
        finished_at WsState.connected = not_handshake WsState.connected
        finished_at WsState.response = not_handshake WsState.response
        finished_at WsState.closed = not_handshake WsState.closed
        finished_at WsState.http_closed = not_handshake WsState.http_closed

    -- The connection's bytes, where the handshake has been accepted
    pub Ends-receive_data : (chunk : Bytes) → Ends w IsOpen (receive_data w env chunk)
    unfolding receive_data
    Ends-receive_data chunk = Live-the_connection >>> λ c.
        T-lift {Q = λ _. IsLive w} (w.receive_data chunk c) (λ a e s h. h) (Conforms-live w)
        >>> λ c'. staying (Stays-set_connection w env only c') >>> λ _.
            Ends-staying (Stays-handle_events w env only)

    Ends-release :
        (chunk : Bytes) → Ends w (At w tunnel WsState.connected true) (release w env chunk)
    unfolding release
    Ends-release [] =
        T-skip (λ s h. Conforms-At w {p = tunnel} {st = WsState.connected} {c = true} tt s h)
    Ends-release (b ∷ chunk) = T-modify {Q = λ _. IsOpen} _ (λ s h. rw (h.0, h.1, h.2) tt) >>> λ _.
        Ends-receive_data (b ∷ chunk)

    Ends-accepted :
        (h : Handshake) (a : Acceptance w)
        → Ends w (At w awaiting WsState.connected false) (accepted w env h a)
    unfolding accepted
    Ends-accepted h a =
        T-modify {Q = λ _. At w awaiting WsState.connected true} _ (λ s k. (k.0, k.1, refl))
        >>> λ _. At-send w env only _ {q = headed} (λ id. refl) >>> λ _.
            At-the_scope w headed WsState.connected true tt >>> λ scope.
            At-await_call w env only (logged scope _) {q = tunnel} refl >>> λ _.
            At-gets w _ >>> λ config.
            T-when {Q = λ _. At w tunnel WsState.connected true}
              (is_some config.websocket_ping_interval)
              (λ _. T-modify _ (λ s k. (ap (observe pinging) k.0, k.1, k.2))) (λ _ s k. k)
            >>> λ _. At-gets w _ >>> λ pre. Ends-release pre

    pub Ends-on_accept :
        (subprotocol : Option Text) (headers : Headers)
        → Ends w IsOpen (on_accept w env subprotocol headers)
    unfolding on_accept
    Ends-on_accept subprotocol headers = read_state >>> λ st. if_handshake st (
        T-modify {Q = λ _. At w awaiting WsState.connected false} _ (λ s h. (h.0, refl, h.2))
        >>> λ _.
            T-read w (the_handshake w) (handshake_still w)
              (λ s h. Conforms-At w {p = awaiting} {st = WsState.connected} {c = false} tt s h)
            >>> λ h.
                At-lift w awaiting WsState.connected false tt (accept w h subprotocol headers)
                >>> λ a. Ends-accepted h a)
