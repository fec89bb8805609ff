-- ===== src/WsStream/Grammar/Runs.antt =====
-- Whatever the application sends and the protocol delivers, the stream conforms.
use mathlib.Core.Path.{subst}
use anycorn.Prelude.{
  ℕ, ◌≡◌, refl, true, false, List, [], ◌∷◌, Option, none, some, is_some, Bool-cases, inl, inr,
}
use anycorn.Exec.{ok, skip, modify, ◌>>=◌}
use anycorn.Exec.Hoare.{keeps}
use anycorn.Bytes.{Text}
use anycorn.Config.{Config, TlsExtension}
use anycorn.Events.{Event, Request}
use anycorn.WsStream.State.{Wsproto, WsState, Message, Interference, new}
use anycorn.WsStream.Calls.{Stream, interrupt, on_stream_closed}
use anycorn.WsStream.Handle.{on_event, handle}
use anycorn.WsStream.AppSend.{on_message, app_send}
use anycorn.WsStream.Grammar.{
  OnlyDisconnects, Phase, awaiting, phase, Allowed, Conforms, At, interrupt_keeps,
}
use anycorn.WsStream.Grammar.Phases.{Fits}
use anycorn.WsStream.Grammar.Rules.{interrupt-closed, Conforms-IsShut}
use anycorn.WsStream.Grammar.Deliver.{HeldInTime, Ends-on_request, Ends-on_data}
use anycorn.WsStream.Grammar.Methods.{Conforms-none, IsOpen}
use anycorn.WsStream.Grammar.Answers.{Ends-on_message}

-- The turns that the two tasks take.
pub data Turn : Type 0 where
  deliver : Event → Turn
  say : Option Message → Turn

module _ (w : Wsproto) (env : Interference w.Connection) where
  unfoldable pub turn : Turn → Stream w → Stream w
  turn (deliver e) s = (handle w env e s).1
  turn (say message) s = (app_send w env message s).1

  unfoldable pub run : List Turn → Stream w → Stream w
  run [] s = s
  run (t ∷ turns) s = run turns (turn t s)

  abbrev pub IsTimely : Turn → Stream w → Type 0
  IsTimely (deliver (Event.request id r)) s = ⊥
  IsTimely (deliver (Event.body id chunk)) s = HeldInTime w chunk s
  IsTimely (deliver (Event.raw id chunk)) s = HeldInTime w chunk s
  IsTimely _ s = Unit

  -- So at each turn of a run
  abbrev pub AreTimely : List Turn → Stream w → Type 0
  AreTimely [] s = Unit
  AreTimely (t ∷ turns) s = IsTimely t s × AreTimely turns (turn t s)

  handle_closed : (e : Event) (s : Stream w) → s.closed ≡ true → handle w env e s ≡ (ok tt, s)
  unfolding handle ◌>>=◌
  handle_closed e s h = rw h

  pub handle_open :
      (e : Event) (s : Stream w) → s.closed ≡ false → handle w env e s ≡ on_event w env e s
  unfolding handle ◌>>=◌
  handle_open e s h = rw h

  app_send_closed :
      (m : Option Message) (s : Stream w) → s.closed ≡ true → app_send w env m s ≡ (ok tt, s)
  unfolding app_send ◌>>=◌
  app_send_closed m s h = rw h

  app_send_open :
      (m : Option Message) (s : Stream w)
      → s.closed ≡ false
      → app_send w env m s ≡ on_message w env m s
  unfolding app_send ◌>>=◌
  app_send_open m s h = rw h

  -- The stream of a request
  abbrev pub requested :
      Config
      → Option (Text × ℕ)
      → Option (Text × Option ℕ)
      → ℕ
      → Option TlsExtension
      → Request
      → Stream w
  requested config client server stream_id tls r =
      (handle w env (Event.request stream_id r) (new config client server stream_id tls)).1

module _ (w : Wsproto) (env : Interference w.Connection) (only : OnlyDisconnects w env) where
  interrupt_open : (s : Stream w) → s.closed ≡ false → interrupt w s ≡ on_stream_closed w s
  unfolding interrupt
  interrupt_open s o = rw o refl

  IsOpen-Conforms : (s : Stream w) → s.closed ≡ false → Conforms w s → IsOpen w s
  IsOpen-Conforms s o h = fits (phase s.calls) (rw o at h)
    where
      fits :
          (p : Option Phase)
          → Allowed false p s.state (is_some s.connection)
          → Fits p s.state (is_some s.connection)
      fits none h = h
      fits (some p) h = h

  closed-Conforms :
      (s : Stream w) → s.closed ≡ false → Conforms w s → Conforms w (on_stream_closed w s)
  closed-Conforms s o h = subst (Conforms w) (interrupt_open s o) (shut (phase s.calls) refl)
    where
      shut : (p : Option Phase) → phase s.calls ≡ p → Conforms w (interrupt w s)
      shut none e = absurd (Conforms-none w s e h)
      shut (some p) e =
          Conforms-IsShut w p (interrupt w s) ((interrupt_keeps w s p e).0, interrupt-closed w s)

  on_event-Conforms :
      (e : Event) (s : Stream w)
      → s.closed ≡ false
      → Conforms w s
      → IsTimely w env (deliver e) s
      → Conforms w (on_event w env e s).1
  unfolding on_event modify skip
  on_event-Conforms (Event.request id r) s o h k = absurd k
  on_event-Conforms (Event.body id chunk) s o h k =
      keeps (Ends-on_data w env only chunk) s (o, IsOpen-Conforms s o h, k)
  on_event-Conforms (Event.raw id chunk) s o h k =
      keeps (Ends-on_data w env only chunk) s (o, IsOpen-Conforms s o h, k)
  on_event-Conforms (Event.stream_closed id) s o h k = closed-Conforms s o h
  on_event-Conforms _ s o h k = h

  handle-Conforms :
      (e : Event) (s : Stream w)
      → Conforms w s
      → IsTimely w env (deliver e) s
      → Conforms w (handle w env e s).1
  handle-Conforms e s h k = elim (Bool-cases s.closed) [
    | inl c ↦ rw (handle_closed w env e s c) h
    | inr o ↦ rw (handle_open w env e s o) (on_event-Conforms e s o h k)
  ]

  app_send-Conforms :
      (m : Option Message) (s : Stream w) → Conforms w s → Conforms w (app_send w env m s).1
  app_send-Conforms m s h = elim (Bool-cases s.closed) [
    | inl c ↦ rw (app_send_closed w env m s c) h
    | inr o ↦
        rw (app_send_open w env m s o)
          (keeps (Ends-on_message w env only m) s (IsOpen-Conforms s o h))
  ]

  turn-Conforms :
      (t : Turn) (s : Stream w) → Conforms w s → IsTimely w env t s → Conforms w (turn w env t s)
  unfolding turn
  turn-Conforms (deliver e) s h k = handle-Conforms e s h k
  turn-Conforms (say m) s h k = app_send-Conforms m s h

  run-Conforms :
      (turns : List Turn) (s : Stream w)
      → Conforms w s
      → AreTimely w env turns s
      → Conforms w (run w env turns s)
  unfolding run
  run-Conforms [] s h k = h
  run-Conforms (t ∷ turns) s h (k, ks) =
      run-Conforms turns (turn w env t s) (turn-Conforms t s h k) ks

  requested-Conforms :
      (id : ℕ) (r : Request) (s : Stream w)
      → s.closed ≡ false
      → At w awaiting WsState.handshake false s
      → Conforms w (handle w env (Event.request id r) s).1
  unfolding on_event
  requested-Conforms id r s o h =
      rw (handle_open w env (Event.request id r) s o) (keeps (Ends-on_request w env only r) s h)

  -- From a new stream and its request, whatever the application sends afterwards, whatever wsproto
  -- makes of the bytes that the protocol delivers and wherever the disconnect comes, the calls made
  -- are a response in the making, and the bytes of the WebSocket only once the handshake was
  -- accepted. This is so where nothing of the client but its disconnect is handled while a call is
  -- awaited, and what the peer sends over the limit ahead of the answer comes before any of the
  -- answer.
  pub websocket-Conforms :
      (config : Config) (client : Option (Text × ℕ)) (server : Option (Text × Option ℕ))
      → (stream_id : ℕ) (tls : Option TlsExtension) (r : Request) (turns : List Turn)
      → AreTimely w env turns (requested w env config client server stream_id tls r)
      → Conforms w (run w env turns (requested w env config client server stream_id tls r))
  unfolding new
  websocket-Conforms config client server stream_id tls r turns timely =
      run-Conforms turns (requested w env config client server stream_id tls r)
        (requested-Conforms stream_id r (new config client server stream_id tls) refl
          (refl, refl, refl))
        timely
