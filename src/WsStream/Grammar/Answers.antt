-- ===== src/WsStream/Grammar/Answers.antt =====
-- The other branches of `app_send`, each of which leaves a stream that conforms.
use anycorn.Prelude.{
  ℕ, ◌≡◌, refl, Bool, true, false, not, Option, none, some, is_some, if◌then◌else◌,
}
use anycorn.Exec.{when, skip}
use anycorn.Exec.Hoare.{
  Triple, T-modify, T-gets, T-if, T-when, T-lift, T-skip, T-pre, T-post, ◌>>>◌,
}
use anycorn.Bytes.{Bytes, Text, Headers}
use anycorn.Events.{end_body, end_raw}
use anycorn.Utils.Headers.{build_and_validate_headers}
use anycorn.WsStream.State.{Wsproto, WsState, ResponseStart, Message, TextKey, logged, Interference}
use anycorn.WsStream.Calls.{the_response}
use anycorn.WsStream.AppSend.{
  is_handshake, is_connected, is_answering, outgoing, unexpected, on_response_start, send_head,
  end_rejection, send_rejection, on_response_body, on_send, on_close, on_message,
}
use anycorn.WsStream.Grammar.{
  OnlyDisconnects, Phase, awaiting, headed, ended, reported, phase, Agrees, Conforms, At,
  Conforms-At, Conforms-live,
}
use anycorn.WsStream.Grammar.Phases.{Fits, at_handshake, closing}
use anycorn.WsStream.Grammar.Rules.{
  Ends, T-read, response_still, At-the_scope, At-lift, At-await_call, At-send,
  Ends-send_error_response,
}
use anycorn.WsStream.Grammar.Wire.{Stays-send}
use anycorn.WsStream.Grammar.Methods.{
  IsOpen, In, Conforms-IsOpen, Conforms-In, read_state, At-handshake, At-response, IsOpen-of,
  refused, if_handshake, At-state, Ends-staying, Live-send_wsproto_event, Ends-on_finished,
  Ends-on_accept, OnWire-end_raw,
}

module _ (w : Wsproto) where
  module _ (env : Interference w.Connection) (only : OnlyDisconnects w env) where
    Ends-on_response_start :
        (status : ℕ) (headers : Headers)
        → Ends w (IsOpen w) (on_response_start w env status headers)
    unfolding on_response_start
    Ends-on_response_start status headers = read_state w >>> λ st. if_handshake w st (
        T-modify _
          (λ s h. Conforms-At w {p = awaiting} {st = WsState.handshake} {c = false} tt s h))

    -- The head of a rejection is sent once.
    At-send_head_first :
        (r : ResponseStart)
        → Triple
            (Conforms w)
            (At w awaiting WsState.handshake false)
            (send_head w env r)
            (λ _. At w headed WsState.response false)
    unfolding send_head when
    At-send_head_first r = At-state w _ (
        At-lift w awaiting WsState.handshake false tt (build_and_validate_headers r.headers)
        >>> λ headers. At-send w env only _ {q = headed} (λ id. refl) >>> λ _.
            T-modify _ (λ s h. (h.0, refl, h.2)))

    At-send_head_again :
        (r : ResponseStart)
        → Triple
            (Conforms w)
            (At w headed WsState.response false)
            (send_head w env r)
            (λ _. At w headed WsState.response false)
    unfolding send_head when skip
    At-send_head_again r = At-state w _ (T-skip (λ s h. h))

    Ends-end_rejection :
        (r : ResponseStart) (more_body : Bool)
        → Ends w (At w headed WsState.response false) (end_rejection w env r more_body)
    unfolding end_rejection
    Ends-end_rejection r more_body =
        T-when (not more_body)
          (λ _.
            T-modify {Q = λ _. At w headed WsState.http_closed false} _ (λ s h. (h.0, refl, h.2))
            >>> λ _. At-send w env only end_body {q = ended} (λ id. refl) >>> λ _.
                At-the_scope w ended WsState.http_closed false tt >>> λ scope.
                T-post
                  (λ a s h.
                    Conforms-At w {p = reported} {st = WsState.http_closed} {c = false} tt s h)
                  (At-await_call w env only (logged scope r) {q = reported} refl))
          (λ _ s h. Conforms-At w {p = headed} {st = WsState.response} {c = false} tt s h)

    Ends-send_rejection :
        (p : Phase) (st : WsState)
        → Agrees p st false
        → ((r : ResponseStart)
            → Triple
                (Conforms w)
                (At w p st false)
                (send_head w env r)
                (λ _. At w headed WsState.response false))
        → (chunk : Bytes) (more_body : Bool)
        → Ends w (At w p st false) (send_rejection w env chunk more_body)
    unfolding send_rejection
    Ends-send_rejection p st agree head chunk more_body =
        T-read w (the_response w) (response_still w) (λ s h. Conforms-At w agree s h) >>> λ r.
        head r >>> λ _.
        T-when {Q = λ _. At w headed WsState.response false} _
          (λ _. At-send w env only _ (λ id. refl)) (λ _ s h. h)
        >>> λ _. Ends-end_rejection r more_body

    Ends-on_response_body :
        (chunk : Bytes) (more_body : Bool)
        → Ends w (IsOpen w) (on_response_body w env chunk more_body)
    unfolding on_response_body
    Ends-on_response_body chunk more_body = read_state w >>> λ st.
        T-gets {Q = λ _. In w st} _ (λ s h. h) >>> λ r. answering st (is_some r)
      where
        answering :
            (st : WsState) (b : Bool)
            → Ends w (In w st) (
                if is_answering st
                then (if b then send_rejection w env chunk more_body else unexpected w env)
                else unexpected w env)
        answering WsState.handshake true =
            T-pre (At-handshake w)
              (Ends-send_rejection awaiting WsState.handshake tt At-send_head_first chunk more_body)
        answering WsState.response true =
            T-pre (At-response w)
              (Ends-send_rejection headed WsState.response tt At-send_head_again chunk more_body)
        answering WsState.handshake false = refused w (Conforms-In w WsState.handshake)
        answering WsState.response false = refused w (Conforms-In w WsState.response)
        answering WsState.connected b = refused w (Conforms-In w WsState.connected)
        answering WsState.closed b = refused w (Conforms-In w WsState.closed)
        answering WsState.http_closed b = refused w (Conforms-In w WsState.http_closed)

    Ends-on_send :
        (chunk : Option Bytes) (text : TextKey) → Ends w (IsOpen w) (on_send w env chunk text)
    unfolding on_send
    Ends-on_send chunk text = read_state w >>> λ st.
        T-if (is_connected st)
          (λ _.
            T-lift {Q = λ _. IsOpen w} (outgoing chunk text) (λ a e s h. IsOpen-of w st s h)
              (Conforms-In w st)
            >>> λ event.
                T-post (λ a s l. Conforms-live w s l) (Live-send_wsproto_event w env only event))
          (λ _. refused w (Conforms-In w st))

    Ends-on_close :
        (code : ℕ) (reason : Option Text) → Ends w (IsOpen w) (on_close w env code reason)
    unfolding on_close
    Ends-on_close code reason = read_state w >>> λ st.
        T-if (is_handshake st)
          (λ e.
            T-modify {Q = λ _. At w awaiting WsState.http_closed false} _ (λ s h.
              let (p, n) =
                at_handshake (phase s.calls) (is_some s.connection)
                  (handshake_fits (phase s.calls) (is_some s.connection) st e h.0) in
              (p, refl, n))
            >>> λ _. Ends-send_error_response w env only 403)
          (λ e.
            T-modify {Q = λ _. IsOpen w} _
              (λ s h. closing (phase s.calls) st (is_some s.connection) e h.0)
            >>> λ _. Live-send_wsproto_event w env only _ >>> λ _.
                Ends-staying w (Stays-send w env only end_raw (λ id. OnWire-end_raw id)))
      where
        handshake_fits :
            (o : Option Phase) (c : Bool) (st : WsState)
            → is_handshake st ≡ true
            → Fits o st c
            → Fits o WsState.handshake c
        handshake_fits o c WsState.handshake e h = h
        handshake_fits o c WsState.connected e h = cc
        handshake_fits o c WsState.response e h = cc
        handshake_fits o c WsState.closed e h = cc
        handshake_fits o c WsState.http_closed e h = cc

    pub Ends-on_message : (message : Option Message) → Ends w (IsOpen w) (on_message w env message)
    unfolding on_message
    Ends-on_message none = Ends-on_finished w env only
    Ends-on_message (some (Message.accept subprotocol headers)) =
        Ends-on_accept w env only subprotocol headers
    Ends-on_message (some (Message.response_start status headers)) =
        Ends-on_response_start status headers
    Ends-on_message (some (Message.response_body chunk more_body)) =
        Ends-on_response_body chunk more_body
    Ends-on_message (some (Message.send chunk text)) = Ends-on_send chunk text
    Ends-on_message (some (Message.close code reason)) = Ends-on_close code reason
    Ends-on_message (some Message.other) = refused w (Conforms-IsOpen w)
