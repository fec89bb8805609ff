-- ===== src/H11/Order/Opening.antt =====
-- The order of the calls on streams where one is made (protocol/h11.py).
use anycorn.Prelude.{refl, Bool, true, false, Option, none, some}
use anycorn.Exec.Hoare.{Triple, T-raise, T-gets, T-if, T-lift, T-modify, T-skip, T-err, ◌>>>◌}
use anycorn.Events.{Event, Request}
use anycorn.H11.State.{
  H11, H11Request, Wire, plain, websocket, StreamKind, http_stream, ws_stream, delivered, Reader,
  suspended, Surroundings,
}
use anycorn.H11.Adapter
use anycorn.H11.Requests.{stream_kind, asks_for_h2c, is_preface}
use anycorn.H11.Calls.{Protocol, M, record_call, stream_id}
use anycorn.H11.Handle.{
  set_reader, open_stream, upgrade_h2c, check_protocol, suspend, create_stream,
}
use anycorn.H11.Order.{
  IsAside, Lawful, Phase, absent, fresh, served, IsTaken, At, nobody, serving, unserved, Follows,
}
use anycorn.H11.Order.Sending.{IsCalm, send_h11_event-IsCalm}
use anycorn.H11.Order.Streams.{Follows-weaken, IsSteady, Follows-deliver}

module _ (h : H11) (laws : Lawful h) where
  -- A call that may leave a stream without its request where it raises
  abbrev pub Reads :
      {A : Type 0} → (Protocol h → Type 0) → M h A → (A → Protocol h → Type 0) → Type 0
  Reads P m Q = Triple (Follows h true) P m Q

  pub IsSteady-Reads :
      {m : M h (Unit {0})}
      → IsSteady h laws false m
      → Reads (Follows h false) m (λ _. Follows h false)
  IsSteady-Reads t = T-err (Follows-weaken h laws true) t

  module _ (p : Phase) (kind : Option StreamKind) (taken : Bool) where
    pub set_reader-IsCalm : (place : Reader) → IsCalm h laws p kind taken (set_reader h place)
    unfolding set_reader
    set_reader-IsCalm place =
        T-modify _ λ s a. record { phases = a.phases; streams = a.streams; wires = a.wires }

    pub suspend-IsCalm : IsCalm h laws p kind taken (suspend h)
    unfolding suspend
    suspend-IsCalm =
        T-modify {Q = λ _. At h p kind taken} _
          (λ s a. record { phases = a.phases; streams = a.streams; wires = a.wires })
        >>> λ _. set_reader-IsCalm suspended

    upgrade_h2c-IsCalm : (r : H11Request) → IsCalm h laws p kind taken (upgrade_h2c h r)
    unfolding upgrade_h2c
    upgrade_h2c-IsCalm r = T-gets {Q = λ _. At h p kind taken} _ (λ s a. a) >>> λ config.
        send_h11_event-IsCalm h laws p kind taken _ >>> λ _.
        T-gets {Q = λ _. At h p kind taken} _ (λ s a. a) >>> λ c.
        T-lift {Q = λ _. At h p kind taken} _ (λ e _ s a. a) (λ s a. a) >>> λ e.
        T-raise e (λ s a. a)

    pub check_protocol-IsCalm : (r : H11Request) → IsCalm h laws p kind taken (check_protocol h r)
    unfolding check_protocol
    check_protocol-IsCalm r = T-gets {Q = λ _. At h p kind taken} _ (λ s a. a) >>> λ c.
        T-if (asks_for_h2c r.headers) (λ _. upgrade_h2c-IsCalm r)
          (λ _. T-if (is_preface r) (λ _. T-raise _ λ s a. a) (λ _. T-skip λ s a. a))

  adapt-IsTaken : (c : Wire h.Connection) → IsTaken h (Adapter.adapt h c)
  unfolding Adapter.adapt
  adapt-IsTaken (plain c) = tt
  adapt-IsTaken (websocket c buffer) = tt

  Reads-open_stream :
      (k : StreamKind)
      → Reads (At h absent none true) (open_stream h k) (λ _. At h fresh (some k) true)
  unfolding open_stream
  Reads-open_stream http_stream =
      T-modify _ λ s a. record { phases = rw a.phases refl; streams = refl; wires = a.wires }
  Reads-open_stream ws_stream = T-modify _ λ s a. record {
    phases = rw a.phases refl;
    streams = refl;
    wires = λ _. adapt-IsTaken s.connection;
  }

  module _ (env : Surroundings h.Connection) (aside : IsAside h env) where
    first_event :
        (k : StreamKind) (r : Request) (s : Protocol h)
        → At h fresh (some k) true s
        → Follows h false (record_call h (delivered (Event.request stream_id r)) s)
    first_event k r s a = (
      served,
      some k,
      true,
      serving,
      record { phases = rw a.phases refl; streams = a.streams; wires = a.wires },
    )

    pub create_stream-Reads :
        (r : H11Request)
        → Reads (At h absent none true) (create_stream h env r) (λ _. Follows h false)
    unfolding create_stream
    create_stream-Reads r =
        T-lift {Q = λ _. At h absent none true} (stream_kind r) (λ k _ s a. a)
          (λ s a. (absent, none, true, nobody, a))
        >>> λ k. Reads-open_stream k >>> λ _.
            T-gets {Q = λ _. At h fresh (some k) true} _ (λ s a. a) >>> λ now.
            T-lift {Q = λ _. At h fresh (some k) true} _ (λ q _ s a. a)
              (λ s a. (fresh, some k, true, unserved, a))
            >>> λ q.
                T-err (Follows-weaken h laws true) (
                  Follows-deliver h laws env aside false (Event.request stream_id q)
                    (first_event k q))
                >>> λ _.
                    T-modify {Q = λ _. Follows h false} _ (λ s (p, kind, taken, a, t). (
                      p,
                      kind,
                      taken,
                      a,
                      record { phases = t.phases; streams = t.streams; wires = t.wires },
                    ))
                    >>> λ _. T-modify _ (λ s (p, kind, taken, a, t). (
                      p,
                      kind,
                      taken,
                      a,
                      record { phases = rw t.phases refl; streams = t.streams; wires = t.wires },
                    ))
