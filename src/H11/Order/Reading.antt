-- ===== src/H11/Order/Reading.antt =====
-- The order of the calls on streams where bytes arrive (protocol/h11.py).
use mathlib.Core.Path.{subst}
use anycorn.Prelude.{ℕ, ◌≡◌, refl, sym, ap, ◌∙◌, Bool, true, false, [], ◌∷◌, Option, none, some}
use anycorn.Exec.{ok, >>?-eq-ok, ok-injective}
use anycorn.Exec.Hoare.{Triple, T-gets, T-when, T-lift, T-modify, T-pre, T-err, ◌>>>◌}
use anycorn.Bytes.{Bytes}
use anycorn.Events.{Event}
use anycorn.H11.State.{
  H11, H11Request, H11Event, Next, Wire, plain, websocket, Incoming, next, passed, StreamKind,
  delivered, ready, looping, Surroundings,
}
use anycorn.H11.Adapter
use anycorn.H11.Calls.{Protocol, record_call, set_connection}
use anycorn.H11.Handle.{
  is_unanswered, set_reader, deliver_or_leave, forward, on_h11_event, on_remote_error, on_incoming,
  continue_100, round, handle_raw,
}
use anycorn.H11.Order.{
  IsAside, Lawful, absent, served, advance, observe, IsTaken, At, nobody, serving, Follows,
}
use anycorn.H11.Order.Sending.{tell-IsCalm, send_h11_event-IsCalm, send_error_response-IsCalm}
use anycorn.H11.Order.Streams.{Follows-weaken, IsSteady, calm-IsSteady, Follows-deliver}
use anycorn.H11.Order.Opening.{
  Reads, IsSteady-Reads, set_reader-IsCalm, suspend-IsCalm, check_protocol-IsCalm,
  create_stream-Reads,
}

module _ (h : H11) (laws : Lawful h) where
  module _ (env : Surroundings h.Connection) (aside : IsAside h env) where
    -- A stream that is there has its request.
    next_to :
        (e : Event)
        → advance e served ≡ some served
        → (k : StreamKind) (s : Protocol h) → (s.stream ≡ some k) × Follows h false s
        → Follows h false (record_call h (delivered e) s)
    next_to e later k s (is, (p, kind, taken, nobody, t)) = absurd (no (sym is ∙ t.streams))
      where
        no : some k ≡ none → ⊥
        no q = cc
    next_to e later k s (is, (p, some k', taken, serving, t)) = (
      served,
      some k',
      true,
      serving,
      record {
        phases = ap (observe (delivered e)) t.phases ∙ later;
        streams = t.streams;
        wires = t.wires;
      },
    )

    leave-IsSteady : IsSteady h laws false (set_reader h ready)
    leave-IsSteady =
        calm-IsSteady h laws false λ p kind taken. set_reader-IsCalm h laws p kind taken ready

    deliver_or_leave-IsSteady :
        (e : Event)
        → advance e served ≡ some served
        → (kind : Option StreamKind)
        → Triple
            (Follows h false)
            (λ s. (s.stream ≡ kind) × Follows h false s)
            (deliver_or_leave h env e kind)
            (λ _. Follows h false)
    unfolding deliver_or_leave
    deliver_or_leave-IsSteady e later none = T-pre (λ s (is, f). f) leave-IsSteady
    deliver_or_leave-IsSteady e later (some k) =
        Follows-deliver h laws env aside false e (next_to e later k)

    forward-IsSteady :
        (e : Event) → advance e served ≡ some served → IsSteady h laws false (forward h env e)
    unfolding forward
    forward-IsSteady e later =
        T-gets {Q = λ kind s. (s.stream ≡ kind) × Follows h false s} _ (λ s f. (refl, f))
        >>> λ kind. deliver_or_leave-IsSteady e later kind

    on_remote_error-IsSteady : (status : ℕ) → IsSteady h laws false (on_remote_error h env status)
    unfolding on_remote_error
    on_remote_error-IsSteady status = calm-IsSteady h laws false λ p kind taken.
        T-gets {Q = λ _. At h p kind taken} _ (λ s a. a) >>> λ our.
        T-when {Q = λ _. At h p kind taken} (is_unanswered our)
          (λ _.
            T-modify {Q = λ _. At h p kind taken} _
              (λ s a. record { phases = rw a.phases refl; streams = a.streams; wires = a.wires })
            >>> λ _. send_error_response-IsCalm h laws p kind taken status)
          (λ _ s a. a)
        >>> λ _.
            tell-IsCalm h laws p kind taken _ >>> λ _. set_reader-IsCalm h laws p kind taken ready

    -- What holds once the next event is read
    abbrev Before : Incoming → Protocol h → Type 0
    Before (next (Next.event (H11Event.request r))) s = At h absent none true s
    Before _ s = Follows h false s

    on_incoming-Reads :
        (i : Incoming) → Reads h laws (Before i) (on_incoming h env i) (λ _. Follows h false)
    unfolding on_incoming on_h11_event
    on_incoming-Reads (next (Next.event (H11Event.request r))) =
        T-err (λ s a. (absent, none, true, nobody, a)) (tell-IsCalm h laws absent none true _)
        >>> λ _.
            T-err (λ s a. (absent, none, true, nobody, a))
              (check_protocol-IsCalm h laws absent none true r)
            >>> λ _. create_stream-Reads h laws env aside r
    on_incoming-Reads (next (Next.event H11Event.paused)) =
        IsSteady-Reads h laws (calm-IsSteady h laws false (suspend-IsCalm h laws))
    on_incoming-Reads (next (Next.event H11Event.connection_closed)) =
        IsSteady-Reads h laws leave-IsSteady
    on_incoming-Reads (next (Next.event H11Event.need_data)) = IsSteady-Reads h laws leave-IsSteady
    on_incoming-Reads (next (Next.event (H11Event.chunk chunk))) =
        IsSteady-Reads h laws (forward-IsSteady _ refl)
    on_incoming-Reads (next (Next.event H11Event.end_of_message)) =
        IsSteady-Reads h laws (forward-IsSteady _ refl)
    on_incoming-Reads (next (Next.remote_error status)) =
        IsSteady-Reads h laws (on_remote_error-IsSteady status)
    on_incoming-Reads (passed chunk) = IsSteady-Reads h laws (forward-IsSteady _ refl)

    -- Another wire is set, which is taken where the one before was.
    rewired :
        (b : Bool) (c c' : Wire h.Connection)
        → (IsTaken h c → IsTaken h c')
        → (s : Protocol h) → s.connection ≡ c
        → Follows h b s
        → Follows h b (record s { connection = c' })
    rewired b c c' f s is (p, kind, taken, a, t) = (
      p,
      kind,
      taken,
      a,
      record {
        phases = t.phases;
        streams = t.streams;
        wires = λ e. f (subst (IsTaken h) is (t.wires e));
      },
    )

    -- h11 gives a request only where no stream is.
    request_read :
        (c : h.Connection) (r : H11Request)
        → (h.next_event c).0 ≡ Next.event (H11Event.request r)
        → (s : Protocol h) → s.connection ≡ plain c
        → Follows h false s
        → At h absent none true (record s { connection = plain (h.next_event c).1 })
    request_read c r e s is (p, kind, taken, nobody, t) = record {
      phases = t.phases;
      streams = t.streams;
      wires = λ _. (laws.from_idle c r e).1;
    }
    request_read c r e s is (p, some k, taken, serving, t) =
        absurd (subst (IsTaken h) is (t.wires refl) (laws.from_idle c r e).0)

    plain_read :
        (c : h.Connection) (n : Next)
        → (h.next_event c).0 ≡ n
        → (s : Protocol h) → s.connection ≡ plain c
        → Follows h false s
        → Before (next n) (record s { connection = plain (h.next_event c).1 })
    plain_read c (Next.event (H11Event.request r)) e s is f = request_read c r e s is f
    plain_read c (Next.remote_error status) e s is f =
        rewired false (plain c) _ (laws.next_event_taken c) s is f
    plain_read c (Next.event H11Event.paused) e s is f =
        rewired false (plain c) _ (laws.next_event_taken c) s is f
    plain_read c (Next.event H11Event.need_data) e s is f =
        rewired false (plain c) _ (laws.next_event_taken c) s is f
    plain_read c (Next.event H11Event.connection_closed) e s is f =
        rewired false (plain c) _ (laws.next_event_taken c) s is f
    plain_read c (Next.event (H11Event.chunk chunk)) e s is f =
        rewired false (plain c) _ (laws.next_event_taken c) s is f
    plain_read c (Next.event H11Event.end_of_message) e s is f =
        rewired false (plain c) _ (laws.next_event_taken c) s is f

    event_read :
        (c : Wire h.Connection) (s : Protocol h)
        → (s.connection ≡ c) × Follows h false s
        → Before (Adapter.next_event h c).0 (record s { connection = (Adapter.next_event h c).1 })
    unfolding Adapter.next_event
    event_read (plain c) s (is, f) = plain_read c (h.next_event c).0 refl s is f
    event_read (websocket c []) s (is, f) = rewired false _ _ (λ t. tt) s is f
    event_read (websocket c (b ∷ buffer)) s (is, f) = rewired false _ _ (λ t. tt) s is f

    continue_100-IsSteady : IsSteady h laws false (continue_100 h env)
    unfolding continue_100
    continue_100-IsSteady = calm-IsSteady h laws false λ p kind taken.
        T-gets {Q = λ _. At h p kind taken} _ (λ s a. a) >>> λ now.
        T-when _ (λ _. send_h11_event-IsCalm h laws p kind taken _) (λ _ s a. a)

    pub round-Reads : Reads h laws (Follows h false) (round h env) (λ _. Follows h false)
    unfolding round set_connection
    round-Reads = IsSteady-Reads h laws continue_100-IsSteady >>> λ _.
        T-gets {Q = λ c s. (s.connection ≡ c) × Follows h false s} _ (λ s f. (refl, f)) >>> λ c.
        T-modify {Q = λ _. Before (Adapter.next_event h c).0} _ (event_read c) >>> λ _.
        on_incoming-Reads (Adapter.next_event h c).0

    received :
        (chunk : Bytes) (c c' : Wire h.Connection)
        → Adapter.receive_data h chunk c ≡ ok c'
        → IsTaken h c
        → IsTaken h c'
    unfolding Adapter.receive_data
    received chunk (plain c) c' e t =
        let (d, q, r) = >>?-eq-ok (h.receive_data chunk c) (λ d. ok (plain d)) e in
        subst (IsTaken h) (ok-injective r) (laws.receive_data_taken chunk c d q t)
    received chunk (websocket c buffer) c' e t = subst (IsTaken h) (ok-injective e) tt

    pub handle_raw-Reads :
        (chunk : Bytes)
        → Reads h laws (Follows h false) (handle_raw h env chunk) (λ _. Follows h false)
    unfolding handle_raw set_connection
    handle_raw-Reads chunk =
        T-gets {Q = λ c s. (s.connection ≡ c) × Follows h false s} _ (λ s f. (refl, f)) >>> λ c.
        T-lift
          {Q = λ c' s.
            (Adapter.receive_data h chunk c ≡ ok c') × (s.connection ≡ c) × Follows h false s}
          _ (λ c' e s (is, f). (e, is, f)) (λ s (is, f). Follows-weaken h laws true s f)
        >>> λ c'.
            T-modify {Q = λ _. Follows h false} _
              (λ s (e, is, f). rewired false c c' (received chunk c c' e) s is f)
            >>> λ _. IsSteady-Reads h laws (
                calm-IsSteady h laws false
                  λ p kind taken. set_reader-IsCalm h laws p kind taken looping)
