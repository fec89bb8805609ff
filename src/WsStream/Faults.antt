-- ===== src/WsStream/Faults.antt =====
-- Where `WSStream` (protocol/ws_stream.py) leaves its client without an answer, or sends two.
use anycorn.Prelude.{
  ℕ, ◌+◌, ◌≡◌, ◌∙◌, refl, ap, true, false, Option, none, some, length, ltb, inl, inr, arith,
}
use anycorn.Exec.{Error, Result, err, attribute_error, when, ◌>>=◌, ◌>>◌}
use anycorn.Exec.Hoare.{Triple, T-modify, T-gets, T-skip, ◌>>>◌, keeps}
use anycorn.Bytes.{Bytes, Text, Headers}
use anycorn.Events.{Event, response, end_body, stream_closed}
use anycorn.WsStream.State.{
  Wsproto, WsState, Handshake, Message, Call, sent, Interference, WebsocketScope,
}
use anycorn.WsStream.Handshake.{accept}
use anycorn.WsStream.Calls.{
  Stream, interrupt, on_stream_closed, record_call, await_call, send, send_stream_closed,
  send_error_response, log_error, error_headers, send_wsproto_event, the_handshake, the_connection,
}
use anycorn.WsStream.Handle.{handle, on_event, refuse}
use anycorn.WsStream.AppSend.{app_send, on_message, on_accept, on_finished}
use anycorn.WsStream.Grammar.Deliver.{on_data-some, hold-over}
use anycorn.WsStream.Grammar.Runs.{handle_open}
use anycorn.WsStream.Grammar.{OnlyDisconnects, headed, observe, phase}

module _ (w : Wsproto) (env : Interference w.Connection) where
  -- The application accepts, and then it ends, by the exception or otherwise.
  unfoldable pub accept_and_end : Option Text → Headers → Stream w → Result (Unit {0}) × Stream w
  accept_and_end subprotocol headers s =
      app_send w env none (app_send w env (some (Message.accept subprotocol headers)) s).1

  accept-err :
      (s : Stream w) (h : Handshake) (subprotocol : Option Text) (headers : Headers) (e : Error)
      → s.closed ≡ false
      → s.state ≡ WsState.handshake
      → s.handshake ≡ some h
      → accept w h subprotocol headers ≡ err e
      → app_send w env (some (Message.accept subprotocol headers)) s
        ≡ (err e, record s { state = WsState.connected })
  unfolding app_send on_message on_accept the_handshake ◌>>=◌
  accept-err s h subprotocol headers e o st hs a = ground arith

  end-err :
      (s : Stream w)
      → s.closed ≡ false
      → s.connection ≡ none
      → app_send w env none (record s { state = WsState.connected })
        ≡ (err attribute_error, record s { state = WsState.connected })
  unfolding app_send on_message on_finished when send_wsproto_event the_connection ◌>>=◌
  end-err s o c = ground arith

  -- An acceptance that raises, for a subprotocol that was not offered or for a header that is not
  -- allowed, has already set the state to `CONNECTED`, where there is no connection: when the
  -- application then ends, that raises too, and no event is sent for the request.
  pub accept_and_end_silent :
      (s : Stream w) (h : Handshake) (subprotocol : Option Text) (headers : Headers) (e : Error)
      → s.closed ≡ false
      → s.state ≡ WsState.handshake
      → s.handshake ≡ some h
      → s.connection ≡ none
      → accept w h subprotocol headers ≡ err e
      → ((accept_and_end subprotocol headers s).0 ≡ err attribute_error)
        × ((accept_and_end subprotocol headers s).1.calls ≡ s.calls)
  unfolding accept_and_end
  accept_and_end_silent s h subprotocol headers e o st hs c a =
      rw (accept-err s h subprotocol headers e o st hs a, end-err s o c) (refl, refl)

module _ (w : Wsproto) (env : Interference w.Connection) (only : OnlyDisconnects w env) where
  -- A call came out of its turn, and no later one makes that good.
  abbrev IsLost : Stream w → Type 0
  IsLost s = phase s.calls ≡ none

  interrupt-IsLost : (s : Stream w) → IsLost s → IsLost (interrupt w s)
  unfolding interrupt on_stream_closed
  interrupt-IsLost s h = ground arith

  await_call-calls :
      (x : Call) (s : Stream w) → observe x (phase s.calls) ≡ none → IsLost (await_call w env x s).1
  unfolding await_call
  await_call-calls x s h = elim (only (record_call w x s)) [
    | inl i ↦ rw i h
    | inr i ↦ rw i (interrupt-IsLost (record_call w x s) h)
  ]

  Lost-await_call : (x : Call) → Triple IsLost IsLost (await_call w env x) (λ _. IsLost)
  unfolding await_call
  Lost-await_call x = record { at = λ s h. await_call-calls x s (ap (observe x) h) }

  Lost-send : (e : ℕ → Event) → Triple IsLost IsLost (send w env e) (λ _. IsLost)
  unfolding send
  Lost-send e = T-gets {Q = λ _. IsLost} _ (λ s h. h) >>> λ id. Lost-await_call (sent (e id))

  Lost-send_stream_closed : Triple IsLost IsLost (send_stream_closed w env) (λ _. IsLost)
  unfolding send_stream_closed
  Lost-send_stream_closed = T-gets {Q = λ _. IsLost} _ (λ s h. h) >>> λ id. T-modify _ λ s h.
      interrupt-IsLost (record_call w (sent (stream_closed id)) s)
        (ap (observe (sent (stream_closed id))) h)

  Lost-refuse :
      (status : ℕ)
      → Triple IsLost (λ s. phase s.calls ≡ some headed) (refuse w env status) (λ _. IsLost)
  unfolding refuse send_error_response send await_call
  Lost-refuse status =
      (first >>> λ _.
      Lost-send end_body >>> λ _. T-gets {Q = λ _. IsLost} _ (λ s h. h) >>> λ scope. logging scope)
      >>> λ _. T-modify _ (λ s h. h)
    where
      first :
          Triple IsLost
            (λ s. phase s.calls ≡ some headed)
            (send w env (λ id. response id (error_headers w env) status))
            (λ _. IsLost)
      first = T-gets {Q = λ _ s. phase s.calls ≡ some headed} _ (λ s h. h) >>> λ id. record {
        at = λ s h.
            await_call-calls (sent (response id (error_headers w env) status)) s
              (ap (observe (sent (response id (error_headers w env) status))) h);
      }

      logging :
          (scope : Option WebsocketScope)
          → Triple IsLost IsLost
              (log_error w env status scope >> send_stream_closed w env)
              (λ _. IsLost)
      logging none = T-skip {Q = λ _. IsLost} (λ s h. h) >>> λ _. Lost-send_stream_closed
      logging (some scope) = Lost-await_call _ >>> λ _. Lost-send_stream_closed

  refused_body :
      (s : Stream w) (h : Handshake) (id : ℕ) (chunk : Bytes)
      → s.closed ≡ false
      → s.handshake ≡ some h
      → h.accepted ≡ false
      → ltb s.config.websocket_max_message_size (length s.pre_accept_data + length chunk) ≡ true
      → handle w env (Event.body id chunk) s ≡ refuse w env 400 s
  unfolding on_event
  refused_body s h id chunk o hs n over =
      handle_open w env (Event.body id chunk) s o
      ∙ rw (on_data-some w env only chunk s h hs, n) (hold-over w env only chunk s over)

  -- While a denial is being sent, bytes of the peer that are over the limit are answered by a second
  -- response, also where nothing of the client but its disconnect is handled while a call is awaited.
  pub overflow_answers_twice :
      (s : Stream w) (h : Handshake) (id : ℕ) (chunk : Bytes)
      → s.closed ≡ false
      → s.handshake ≡ some h
      → h.accepted ≡ false
      → phase s.calls ≡ some headed
      → ltb s.config.websocket_max_message_size (length s.pre_accept_data + length chunk) ≡ true
      → phase (handle w env (Event.body id chunk) s).1.calls ≡ none
  overflow_answers_twice s h id chunk o hs n p over =
      rw (refused_body s h id chunk o hs n over) (keeps (Lost-refuse 400) s p)
