-- ===== src/WsStream/Grammar/Deliver.antt =====
-- The events that the protocol delivers leave a stream that conforms.
use anycorn.Prelude.{
  ℕ, ◌+◌, ◌≡◌, ◌∙◌, ◌++◌, ◌⊎◌, refl, ap, Bool, true, false, Option, none, some, is_some,
  Option-cases, Bool-cases, inl, inr, length, ltb, if◌then◌else◌,
}
use anycorn.Exec.{Result, ok, err, attribute_error, ◌>>=◌}
use anycorn.Exec.Hoare.{T-modify, T-if, T-state, T-post, ◌>>>◌, Post}
use anycorn.Bytes.{Bytes, Text}
use anycorn.Events.{Request}
use anycorn.Utils.Percent.{decode_asgi_path, valid_request_target}
use anycorn.Utils.Names.{valid_server_name}
use anycorn.WsStream.State.{
  Wsproto, WsState, Handshake, put, spawned, connect, WebsocketScope, Interference,
}
use anycorn.WsStream.Handshake.{is_valid}
use anycorn.WsStream.Calls.{Stream, the_handshake}
use anycorn.WsStream.Handle.{
  refuse, spawn_app, check_request, handle_decoded, on_request, hold, receive_data, on_data,
}
use anycorn.WsStream.Grammar.{
  OnlyDisconnects, Phase, awaiting, observe, phase, Allowed, Conforms, At, Conforms-At,
}
use anycorn.WsStream.Grammar.Rules.{Ends, At-lift, At-gets, At-await_call, Ends-send_error_response}
use anycorn.WsStream.Grammar.Methods.{IsOpen, Conforms-IsOpen, Ends-receive_data}

abbrev pub is_accepted : Option Handshake → Bool
is_accepted none = false
is_accepted (some h) = h.accepted

module _ (w : Wsproto) where
  -- Bytes that the peer sends ahead of the answer and that are over the limit come while nothing has
  -- been answered.
  abbrev pub HeldInTime : Bytes → Stream w → Type 0
  HeldInTime chunk s =
      (s.closed ≡ true)
      ⊎ ((is_accepted s.handshake ≡ true)
          ⊎ ((ltb s.config.websocket_max_message_size (length s.pre_accept_data + length chunk)
                ≡ false)
              ⊎ (phase s.calls ≡ some awaiting)))

module _ (w : Wsproto) (env : Interference w.Connection) (only : OnlyDisconnects w env) where
  Ends-refuse :
      (status : ℕ) {st : WsState} {c : Bool} → Ends w (At w awaiting st c) (refuse w env status)
  unfolding refuse
  Ends-refuse status = Ends-send_error_response w env only status >>> λ _.
      T-modify _ (λ s h. shut s (phase s.calls) s.closed h)
    where
      shut :
          (s : Stream w) (o : Option Phase) (closed : Bool)
          → Allowed closed o s.state (is_some s.connection)
          → Allowed true o s.state (is_some s.connection)
      shut s none closed h = h
      shut s (some p) closed h = tt

  Ends-spawn_app :
      (scope : WebsocketScope)
      → Ends w (At w awaiting WsState.handshake false) (spawn_app w env scope)
  unfolding spawn_app
  Ends-spawn_app scope =
      T-modify {Q = λ _. At w awaiting WsState.handshake false} _
        (λ s h. (ap (observe (spawned scope)) h.0, h.1, h.2))
      >>> λ _. T-modify {Q = λ _. At w awaiting WsState.handshake false} _ (λ s h. h) >>> λ _.
          T-post (λ a s h. Conforms-At w {p = awaiting} {st = WsState.handshake} {c = false} tt s h)
            (At-await_call w env only (put connect) {q = awaiting} refl)

  Ends-check_request :
      (r : Request) (h : Handshake) (scope : WebsocketScope)
      → Ends w (At w awaiting WsState.handshake false) (check_request w env r h scope)
  unfolding check_request
  Ends-check_request r h scope = At-gets w _ >>> λ config.
      T-if (valid_request_target _)
        (λ _.
          At-lift w awaiting WsState.handshake false tt (valid_server_name config r) >>> λ valid.
          T-if valid (λ _. T-if (is_valid h) (λ _. Ends-spawn_app scope) (λ _. Ends-refuse 400))
            (λ _. Ends-refuse 404))
        (λ _. Ends-refuse 400)

  pub Ends-on_request :
      (r : Request) → Ends w (At w awaiting WsState.handshake false) (on_request w env r)
  unfolding on_request handle_decoded
  Ends-on_request r = At-gets w _ >>> λ config.
      T-modify {Q = λ _. At w awaiting WsState.handshake false} _ (λ s h. h) >>> λ _.
      decoded _ (decode_asgi_path _)
    where
      decoded :
          (h : Handshake) (path : Result Text)
          → Ends w (At w awaiting WsState.handshake false) (handle_decoded w env r h path)
      decoded h (err e) = Ends-refuse 400
      decoded h (ok path) = At-gets w _ >>> λ scope.
          T-modify {Q = λ _. At w awaiting WsState.handshake false} _ (λ s k. k) >>> λ _.
          Ends-check_request r h scope

  abbrev pub Holding : Bytes → Stream w → Type 0
  Holding chunk s = (s.closed ≡ false) × IsOpen w s × HeldInTime w chunk s

  abbrev pub over : Bytes → Stream w → Bool
  over chunk s = ltb s.config.websocket_max_message_size (length s.pre_accept_data + length chunk)

  -- What is over the limit is refused, and that only while nothing has been answered.
  still_awaiting :
      (chunk : Bytes) (s : Stream w)
      → Holding chunk s
      → is_accepted s.handshake ≡ false
      → over chunk s ≡ true
      → phase s.calls ≡ some awaiting
  still_awaiting chunk s (c, h, inl k) n o = cc
  still_awaiting chunk s (c, h, inr (inl k)) n o = cc
  still_awaiting chunk s (c, h, inr (inr (inl k))) n o = cc
  still_awaiting chunk s (c, h, inr (inr (inr k))) n o = k

  pub hold-over :
      (chunk : Bytes) (s : Stream w) → over chunk s ≡ true → hold w env chunk s ≡ refuse w env 400 s
  unfolding hold ◌>>=◌
  hold-over chunk s e = rw e

  hold-fits :
      (chunk : Bytes) (s : Stream w)
      → over chunk s ≡ false
      → hold w env chunk s ≡ (ok tt, record s { pre_accept_data = s.pre_accept_data ++ chunk })
  unfolding hold ◌>>=◌
  hold-fits chunk s e = rw e

  Ends-hold :
      (chunk : Bytes)
      → Ends w (λ s. Holding chunk s × (is_accepted s.handshake ≡ false)) (hold w env chunk)
  Ends-hold chunk = T-state _ λ s (h, n). elim (Bool-cases (over chunk s)) [
    | inl e ↦ rw (hold-over chunk s e) (
        (Ends-refuse 400 {st = s.state} {c = is_some s.connection}).at s
          (still_awaiting chunk s h n e, refl, refl))
    | inr e ↦ rw (hold-fits chunk s e) (Conforms-IsOpen w s h.1)
  ]

  on_data-none :
      (chunk : Bytes) (s : Stream w)
      → s.handshake ≡ none
      → on_data w env chunk s ≡ (err attribute_error, s)
  unfolding on_data the_handshake ◌>>=◌
  on_data-none chunk s e = rw e

  pub on_data-some :
      (chunk : Bytes) (s : Stream w) (h : Handshake)
      → s.handshake ≡ some h
      → on_data w env chunk s
        ≡ (if h.accepted then receive_data w env chunk else hold w env chunk) s
  unfolding on_data the_handshake ◌>>=◌
  on_data-some chunk s h e = rw e

  pub Ends-on_data : (chunk : Bytes) → Ends w (Holding chunk) (on_data w env chunk)
  Ends-on_data chunk = T-state _ λ s k. elim (Option-cases s.handshake) [
    | inl e ↦ rw (on_data-none chunk s e) (Conforms-IsOpen w s k.1)
    | inr (h, e) ↦ rw (on_data-some chunk s h e) (by_answer h s k e)
  ]
    where
      by_answer :
          (h : Handshake) (s : Stream w)
          → Holding chunk s
          → s.handshake ≡ some h
          → Post
              (Conforms w)
              (λ _. Conforms w)
              ((if h.accepted then receive_data w env chunk else hold w env chunk) s)
      by_answer h s k e = elim (Bool-cases h.accepted) [
        | inl a ↦ rw a ((Ends-receive_data w env only chunk).at s k.1)
        | inr a ↦ rw a ((Ends-hold chunk).at s (k, ap is_accepted e ∙ a))
      ]
