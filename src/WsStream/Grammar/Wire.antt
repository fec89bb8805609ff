-- ===== src/WsStream/Grammar/Wire.antt =====
-- The methods that run once the handshake was accepted: each sends the bytes of the WebSocket only.
use anycorn.Prelude.{ℕ, zero, suc, ◌≡◌, refl, Bool, true, false, Option, none, some, inl, inr}
use anycorn.Exec.{Result, ok, err, frame_too_large}
use anycorn.Exec.Hoare.{
  Triple, T-modify, T-gets, T-if, T-when, T-raise, T-skip, T-state, T-pure, ◌>>>◌,
}
use anycorn.Bytes.{Bytes, Text}
use anycorn.Events.{Event, raw}
use anycorn.WsStream.State.{
  Wsproto, WsEvent, text_message, bytes_message, ping, pong, close_connection, Value, Call, sent,
  put, receive, Interference,
}
use anycorn.WsStream.Calls.{
  Stream, M, interrupt, record_call, await_call, send, send_stream_closed, the_connection,
  set_connection, send_data, send_wsproto_event, extend_buffer, deliver_message, on_extended,
  on_fragment, on_close, on_ws_event, events_round, events_loop, handle_events,
}
use anycorn.WsStream.Grammar.{
  OnlyDisconnects, Phase, awaiting, headed, tunnel, ended, reported, observe, phase, OnWire, IsLive,
  interrupt_keeps,
}
use anycorn.WsStream.Grammar.Rules.{T-read, connection_still}

module _ (w : Wsproto) where
  -- A method that leaves an accepted WebSocket so.
  abbrev pub Stays : {A : Type 0} → M w A → Type 0
  Stays m = Triple (IsLive w) (IsLive w) m (λ _. IsLive w)

  interrupt-IsLive : (s : Stream w) → IsLive w s → IsLive w (interrupt w s)
  interrupt-IsLive s (h, k, c) = on_phase (phase s.calls) refl h
    where
      on_phase : (o : Option Phase) → phase s.calls ≡ o → OnWire o → IsLive w (interrupt w s)
      on_phase none e h = absurd h
      on_phase (some p) e h =
          let kept = interrupt_keeps w s p e in rw (kept.0, kept.1, kept.2) (h, k, c)

  module _ (env : Interference w.Connection) (only : OnlyDisconnects w env) where
    Stays-await_call :
        (x : Call)
        → ((o : Option Phase) → OnWire o → OnWire (observe x o))
        → Stays (await_call w env x)
    unfolding await_call
    Stays-await_call x h = record {
      at = λ s k.
          let l : IsLive w (record_call w x s) = (h (phase s.calls) k.0, k.1, k.2) in
          elim (only (record_call w x s)) [
            | inl i ↦ rw i l
            | inr i ↦ rw i (interrupt-IsLive (record_call w x s) l)
          ];
    }

    OnWire-raw :
        (id : ℕ) (chunk : Bytes) (o : Option Phase)
        → OnWire o
        → OnWire (observe (sent (raw id chunk)) o)
    OnWire-raw id chunk (some headed) h = tt
    OnWire-raw id chunk (some tunnel) h = tt
    OnWire-raw id chunk (some awaiting) h = absurd h
    OnWire-raw id chunk (some ended) h = absurd h
    OnWire-raw id chunk (some reported) h = absurd h
    OnWire-raw id chunk none h = absurd h

    pub Stays-send :
        (e : ℕ → Event)
        → ((id : ℕ) (o : Option Phase) → OnWire o → OnWire (observe (sent (e id)) o))
        → Stays (send w env e)
    unfolding send
    Stays-send e h =
        T-gets {Q = λ _. IsLive w} _ (λ s k. k) >>> λ id. Stays-await_call (sent (e id)) (h id)

    pub Stays-the_connection : Stays (the_connection w)
    Stays-the_connection = T-read w (the_connection w) (connection_still w) (λ s h. h)

    pub Stays-set_connection : (c : w.Connection) → Stays (set_connection w c)
    Stays-set_connection c = T-modify _ (λ s h. (h.0, h.1, refl))

    pub Stays-send_data : (r : Option Bytes) → Stays (send_data w env r)
    unfolding send_data
    Stays-send_data none = T-skip (λ s h. h)
    Stays-send_data (some chunk) = Stays-send _ (λ id. OnWire-raw id chunk)

    pub Stays-send_wsproto_event : (e : WsEvent) → Stays (send_wsproto_event w env e)
    unfolding send_wsproto_event
    Stays-send_wsproto_event e =
        Stays-the_connection >>> λ c. Stays-set_connection _ >>> λ _. Stays-send_data _

    OnWire-stream_closed :
        (id : ℕ) (o : Option Phase) → OnWire o → OnWire (observe (sent (Event.stream_closed id)) o)
    OnWire-stream_closed id (some p) h = h
    OnWire-stream_closed id none h = absurd h

    pub Stays-send_stream_closed : Stays (send_stream_closed w env)
    unfolding send_stream_closed
    Stays-send_stream_closed = T-gets {Q = λ _. IsLive w} _ (λ s k. k) >>> λ id. T-modify _ λ s h.
        interrupt-IsLive (record_call w (sent (Event.stream_closed id)) s)
          (OnWire-stream_closed id (phase s.calls) h.0, h.1, h.2)

    OnWire-put :
        (value : Option Value) (o : Option Phase)
        → OnWire o
        → OnWire (observe (put (receive value)) o)
    OnWire-put value (some p) h = h
    OnWire-put value none h = absurd h

    Stays-deliver_message : (finished : Bool) → Stays (deliver_message w env finished)
    unfolding deliver_message
    Stays-deliver_message finished =
        T-when finished
          (λ _. T-gets {Q = λ _. IsLive w} _ (λ s k. k) >>> λ app_put.
            T-gets {Q = λ _. IsLive w} _ (λ s k. k) >>> λ value.
            T-if {Q = λ _. IsLive w} app_put (λ _. Stays-await_call _ (OnWire-put value))
              (λ _. T-raise _ (λ s h. h))
            >>> λ _. T-modify _ (λ s h. h))
          (λ _ s h. h)

    Stays-on_extended :
        (finished : Bool) (r : Result (Unit {0})) → Stays (on_extended w env finished r)
    unfolding on_extended
    Stays-on_extended finished (ok u) =
        Stays-deliver_message finished >>> λ _. T-pure true (λ s h. h)
    Stays-on_extended finished (err frame_too_large) =
        Stays-send_wsproto_event _ >>> λ _. T-pure false (λ s h. h)
    Stays-on_extended finished (err e) = T-raise e (λ s h. h)

    Stays-on_fragment :
        (fragment : Value) (finished : Bool) → Stays (on_fragment w env fragment finished)
    unfolding on_fragment extend_buffer
    Stays-on_fragment fragment finished =
        T-state {Q = λ _. IsLive w} (extend_buffer w env fragment) (λ s h. h) >>> λ r.
        Stays-on_extended finished r

    Stays-on_close : (code : ℕ) (reason : Option Text) → Stays (on_close w env code reason)
    unfolding on_close
    Stays-on_close code reason = T-modify {Q = λ _. IsLive w} _ (λ s h. h) >>> λ _.
        Stays-the_connection >>> λ c.
        T-when {Q = λ _. IsLive w} (w.remote_closing c) (λ _. Stays-send_wsproto_event _)
          (λ _ s h. h)
        >>> λ _. Stays-send_stream_closed >>> λ _. T-pure true (λ s h. h)

    Stays-on_ws_event : (e : WsEvent) → Stays (on_ws_event w env e)
    unfolding on_ws_event
    Stays-on_ws_event (text_message chunk finished) = Stays-on_fragment (Value.text chunk) finished
    Stays-on_ws_event (bytes_message chunk finished) =
        Stays-on_fragment (Value.bytes chunk) finished
    Stays-on_ws_event (ping payload) = Stays-send_wsproto_event _ >>> λ _. T-pure true (λ s h. h)
    Stays-on_ws_event (pong payload) = T-pure true (λ s h. h)
    Stays-on_ws_event (close_connection code reason) = Stays-on_close code reason

    Stays-events_round :
        {rest : M w (Unit {0})} (e : Option WsEvent)
        → Stays rest
        → Stays (events_round w env rest e)
    unfolding events_round
    Stays-events_round none h = T-skip (λ s h. h)
    Stays-events_round (some e) h =
        Stays-on_ws_event e >>> λ goes_on. T-when goes_on (λ _. h) (λ _ s h. h)

    Stays-events_loop : (fuel : ℕ) → Stays (events_loop w env fuel)
    unfolding events_loop
    Stays-events_loop zero = T-skip (λ s h. h)
    Stays-events_loop (suc fuel) = Stays-the_connection >>> λ c.
        Stays-set_connection _ >>> λ _. Stays-events_round _ (Stays-events_loop fuel)

    pub Stays-handle_events : Stays (handle_events w env)
    unfolding handle_events
    Stays-handle_events = Stays-the_connection >>> λ c. Stays-events_loop (suc (w.pending c))
