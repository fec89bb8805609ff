-- ===== src/WsStream/Loop.antt =====
-- The loop of `_handle_events` (protocol/ws_stream.py) ends, and not for want of fuel.
use anycorn.Prelude.{
  ℕ, zero, suc, ◌≤◌, ◌<◌, ◌≡◌, ◌∙◌, sym, refl, Bool, true, false, Option, none, some, arith,
}
use anycorn.Exec.{Result, ok, err, frame_too_large, continue, ◌>>=◌, when, attribute_error}
use anycorn.Exec.Hoare.{
  Triple, Post, T-modify, T-gets, T-if, T-when, T-raise, T-skip, T-state, T-pure, ◌>>>◌,
}
use anycorn.Bytes.{Bytes, Text}
use anycorn.Events.{Event}
use anycorn.WsStream.State.{
  Wsproto, WsEvent, text_message, bytes_message, ping, pong, close_connection, Value, Call,
  Interference,
}
use anycorn.WsStream.Grammar.Rules.{T-read, connection_still}
use anycorn.WsStream.Calls.{
  Stream, M, interrupt, on_stream_closed, record_call, await_call, send, send_stream_closed,
  the_connection, send_data, send_wsproto_event, extend_buffer, deliver_message, on_extended,
  on_fragment, on_close, on_ws_event, events_round, events_loop, handle_events,
}

-- What wsproto's `pending` counts: an event that is taken is one less, and sending adds none.
pub record Counts (w : Wsproto) : Type 0 where
  pub next_event_less :
      (c : w.Connection) (e : WsEvent)
      → (w.next_event c).0 ≡ some e
      → w.pending (w.next_event c).1 < w.pending c
  pub send_no_more : (e : WsEvent) (c : w.Connection) → w.pending (w.send e c).1 ≤ w.pending c

module _ (w : Wsproto) (counts : Counts w) (env : Interference w.Connection)
    (same : (s : Stream w) → (env s).connection ≡ s.connection) where
  -- At most `k` events are left.
  abbrev IsWithin : ℕ → Option w.Connection → Type 0
  IsWithin k none = Unit
  IsWithin k (some c) = w.pending c ≤ k

  module _ (k : ℕ) where
    abbrev Has : Stream w → Type 0
    Has s = IsWithin k s.connection

    abbrev IsFrugal : {A : Type 0} → M w A → Type 0
    IsFrugal m = Triple Has Has m (λ _. Has)

    interrupt-connection : (s : Stream w) → (interrupt w s).connection ≡ s.connection
    unfolding interrupt on_stream_closed
    interrupt-connection s = ground arith

    await_call-IsFrugal : (x : Call) → IsFrugal (await_call w env x)
    unfolding await_call
    await_call-IsFrugal x = record { at = λ s f. rw (same (record_call w x s)) f }

    send-IsFrugal : (e : ℕ → Event) → IsFrugal (send w env e)
    unfolding send
    send-IsFrugal e = T-gets {Q = λ _. Has} _ (λ s f. f) >>> λ id. await_call-IsFrugal _

    send_stream_closed-IsFrugal : IsFrugal (send_stream_closed w env)
    unfolding send_stream_closed
    send_stream_closed-IsFrugal = T-gets {Q = λ _. Has} _ (λ s f. f) >>> λ id.
        T-modify _ λ s f. rw (interrupt-connection (record_call w _ s)) f

    connection_read : Triple Has Has (the_connection w) (λ c s. w.pending c ≤ k)
    unfolding the_connection
    connection_read = record { at = λ s f. read s s.connection refl f }
      where
        read :
            (s : Stream w) (o : Option w.Connection)
            → s.connection ≡ o
            → IsWithin k o
            → Post Has (λ c s. w.pending c ≤ k) (the_connection w s)
        read s none e f = rw e tt
        read s (some c) e f = rw e f

    send_data-IsFrugal : (r : Option Bytes) → IsFrugal (send_data w env r)
    unfolding send_data
    send_data-IsFrugal none = T-skip (λ s f. f)
    send_data-IsFrugal (some chunk) = send-IsFrugal _

    send_wsproto_event-IsFrugal : (e : WsEvent) → IsFrugal (send_wsproto_event w env e)
    unfolding send_wsproto_event
    send_wsproto_event-IsFrugal e = connection_read >>> λ c.
        T-modify {Q = λ _. Has} _ (λ s f. omega (arith, counts.send_no_more e c)) >>> λ _.
        send_data-IsFrugal _

    deliver_message-IsFrugal : (finished : Bool) → IsFrugal (deliver_message w env finished)
    unfolding deliver_message
    deliver_message-IsFrugal finished =
        T-when finished
          (λ _. T-gets {Q = λ _. Has} _ (λ s f. f) >>> λ app_put.
            T-gets {Q = λ _. Has} _ (λ s f. f) >>> λ value.
            T-if {Q = λ _. Has} app_put (λ _. await_call-IsFrugal _) (λ _. T-raise _ (λ s f. f))
            >>> λ _. T-modify _ (λ s f. f))
          (λ _ s f. f)

    on_extended-IsFrugal :
        (finished : Bool) (r : Result (Unit {0})) → IsFrugal (on_extended w env finished r)
    unfolding on_extended
    on_extended-IsFrugal finished (ok u) =
        deliver_message-IsFrugal finished >>> λ _. T-pure true (λ s f. f)
    on_extended-IsFrugal finished (err frame_too_large) =
        send_wsproto_event-IsFrugal _ >>> λ _. T-pure false (λ s f. f)
    on_extended-IsFrugal finished (err e) = T-raise e (λ s f. f)

    on_fragment-IsFrugal :
        (fragment : Value) (finished : Bool) → IsFrugal (on_fragment w env fragment finished)
    unfolding on_fragment extend_buffer
    on_fragment-IsFrugal fragment finished =
        T-state {Q = λ _. Has} (extend_buffer w env fragment) (λ s f. f) >>> λ r.
        on_extended-IsFrugal finished r

    on_close-IsFrugal : (code : ℕ) (reason : Option Text) → IsFrugal (on_close w env code reason)
    unfolding on_close
    on_close-IsFrugal code reason = T-modify {Q = λ _. Has} _ (λ s f. f) >>> λ _.
        T-read w (the_connection w) (connection_still w) (λ s f. f) >>> λ c.
        T-when {Q = λ _. Has} (w.remote_closing c) (λ _. send_wsproto_event-IsFrugal _) (λ _ s f. f)
        >>> λ _. send_stream_closed-IsFrugal >>> λ _. T-pure true (λ s f. f)

    on_ws_event-IsFrugal : (e : WsEvent) → IsFrugal (on_ws_event w env e)
    unfolding on_ws_event
    on_ws_event-IsFrugal (text_message chunk finished) = on_fragment-IsFrugal _ finished
    on_ws_event-IsFrugal (bytes_message chunk finished) = on_fragment-IsFrugal _ finished
    on_ws_event-IsFrugal (ping payload) =
        send_wsproto_event-IsFrugal _ >>> λ _. T-pure true (λ s f. f)
    on_ws_event-IsFrugal (pong payload) = T-pure true (λ s f. f)
    on_ws_event-IsFrugal (close_connection code reason) = on_close-IsFrugal code reason

    -- Two ways to go on that agree where at most `k` events are left make rounds that agree.
    rounds_agree :
        (m n : M w (Unit {0}))
        → ((s : Stream w) → Has s → m s ≡ n s)
        → (o : Option WsEvent) (s : Stream w) → Has s
        → events_round w env m o s ≡ events_round w env n o s
    unfolding events_round ◌>>=◌
    rounds_agree m n agree none s f = refl
    rounds_agree m n agree (some e) s f =
        after (on_ws_event w env e s) ((on_ws_event-IsFrugal e).at s f)
      where
        after :
            (x : Result Bool × Stream w)
            → Post Has (λ _. Has) x
            → continue x.0 (λ goes_on. when goes_on m) x.1
              ≡ continue x.0 (λ goes_on. when goes_on n) x.1
        after (ok true, s) f = agree s f
        after (ok false, s) f = refl
        after (err e, s) f = refl

  loop_at :
      (n : ℕ) (s : Stream w) (c : w.Connection)
      → s.connection ≡ some c
      → events_loop w env (suc n) s
        ≡ events_round w env
            (events_loop w env n)
            (w.next_event c).0
            (record s { connection = some (w.next_event c).1 })
  unfolding events_loop the_connection ◌>>=◌
  loop_at n s c e = rw e refl

  loop_none :
      (n : ℕ) (s : Stream w)
      → s.connection ≡ none
      → events_loop w env (suc n) s ≡ (err attribute_error, s)
  unfolding events_loop the_connection ◌>>=◌
  loop_none n s e = rw e refl

  -- The rest of the loop from an event on, where it agrees with fewer events left
  round_agrees :
      (m n : ℕ) (c : w.Connection)
      → ((k : ℕ)
          → k < w.pending c
          → (s : Stream w) → IsWithin k s.connection
          → events_loop w env m s ≡ events_loop w env n s)
      → (s : Stream w) (o : Option WsEvent) → (w.next_event c).0 ≡ o
      → s.connection ≡ some (w.next_event c).1
      → events_round w env (events_loop w env m) o s ≡ events_round w env (events_loop w env n) o s
  unfolding events_round
  round_agrees m n c agree s none e i = refl
  round_agrees m n c agree s (some x) e i =
      let k = w.pending (w.next_event c).1 in
      rounds_agree k (events_loop w env m) (events_loop w env n)
        (agree k (counts.next_event_less c x e)) (some x) s (rw i (omega arith))

  loops_agree :
      (m n : ℕ) (s : Stream w) (k : ℕ)
      → IsWithin k s.connection
      → k < m
      → k < n
      → events_loop w env m s ≡ events_loop w env n s
  loops_agree zero n s k f l l' = absurd (omega arith)
  loops_agree (suc m) zero s k f l l' = absurd (omega arith)
  loops_agree (suc m) (suc n) s k f l l' =
      at_connection (λ k' h s' f'. loops_agree m n s' k' f' (omega arith) (omega arith))
        s.connection refl f
    where
      at_connection :
          ((k' : ℕ)
            → k' < k
            → (s' : Stream w) → IsWithin k' s'.connection
            → events_loop w env m s' ≡ events_loop w env n s')
          → (o : Option w.Connection) → s.connection ≡ o
          → IsWithin k o
          → events_loop w env (suc m) s ≡ events_loop w env (suc n) s
      at_connection agree none e g = loop_none m s e ∙ sym (loop_none n s e)
      at_connection agree (some c) e g =
          loop_at m s c e
          ∙ round_agrees m n c (λ k' h. agree k' (omega arith))
              (record s { connection = some (w.next_event c).1 }) (w.next_event c).0 refl refl
          ∙ sym (loop_at n s c e)

  connection_at :
      (s : Stream w) (c : w.Connection) → s.connection ≡ some c → the_connection w s ≡ (ok c, s)
  unfolding the_connection
  connection_at s c e = ground arith

  handle_events_at :
      (s : Stream w) (c : w.Connection)
      → s.connection ≡ some c
      → handle_events w env s ≡ events_loop w env (suc (w.pending c)) s
  unfolding handle_events ◌>>=◌
  handle_events_at s c e = rw (connection_at s c e) refl

  -- `_handle_events` goes through all its rounds, where nothing that happens while a call is awaited
  -- changes the wsproto connection: any number of rounds beyond the events that are left makes the
  -- same of the stream.
  pub handle_events_enough :
      (n : ℕ) (s : Stream w) (c : w.Connection)
      → s.connection ≡ some c
      → w.pending c < n
      → events_loop w env n s ≡ handle_events w env s
  handle_events_enough n s c e l =
      loops_agree n (suc (w.pending c)) s (w.pending c) (within s.connection e) l (omega arith)
      ∙ sym (handle_events_at s c e)
    where
      within : (o : Option w.Connection) → o ≡ some c → IsWithin (w.pending c) o
      within o q = rw q (omega arith)
