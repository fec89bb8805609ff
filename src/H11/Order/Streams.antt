-- ===== src/H11/Order/Streams.antt =====
-- The order of the calls on streams where a stream is closed (protocol/h11.py).
use anycorn.Prelude.{◌≡◌, ◌∙◌, refl, Bool, true, false, List, [], ◌∷◌, Option, none, some}
use anycorn.Exec.{Result, ok, err}
use anycorn.Exec.Hoare.{
  Triple, Post, T-raise, T-gets, T-if, T-modify, T-skip, T-post, T-err, ◌>>>◌, keeps,
}
use anycorn.Events.{Event}
use anycorn.H11.State.{H11, Wire, StreamKind, delivered, Surroundings, Sender, stream, application}
use anycorn.H11.Calls.{
  Protocol, M, record_call, stream_id, close_stream, on_cycle, recycle, finish, maybe_recycle,
  stream_send, is_local,
}
use anycorn.H11.Handle.{send_from, send_all, deliver}
use anycorn.H11.Order.{
  Lawful, Phase, absent, served, At, nobody, serving, unserved, Follows, IsAside,
}
use anycorn.H11.Order.Sending.{
  IsCalm, tell-IsCalm, set_can_read-IsCalm, wire_set, send_h11_event-IsCalm, send_zerocopy-IsCalm,
  send_response-IsCalm,
}

module _ (h : H11) (laws : Lawful h) where
  pub Follows-weaken : (b : Bool) (s : Protocol h) → Follows h false s → Follows h b s
  Follows-weaken b s (p, kind, taken, nobody, t) = (absent, none, taken, nobody, t)
  Follows-weaken b s (p, kind, taken, serving, t) = (served, kind, true, serving, t)

  -- The call keeps to the order.
  abbrev pub IsSteady : Bool → M h (Unit {0}) → Type 0
  IsSteady b m = Triple (Follows h b) (Follows h b) m (λ _. Follows h b)

  -- So does one that is calm wherever it starts.
  pub calm-IsSteady :
      (b : Bool) {m : M h (Unit {0})}
      → ((p : Phase) (kind : Option StreamKind) (taken : Bool) → IsCalm h laws p kind taken m)
      → IsSteady b m
  calm-IsSteady b calm = record {
    at = λ s (p, kind, taken, a, t).
        (T-err (λ s t. (p, kind, taken, a, t))
            (T-post (λ _ s t. (p, kind, taken, a, t)) (calm p kind taken))).at
          s t;
  }

  -- A calm call where no stream is
  pub absent-IsSteady :
      (b : Bool) {m : M h (Unit {0})}
      → IsCalm h laws absent none false m
      → Triple (Follows h b) (At h absent none false) m (λ _. Follows h b)
  absent-IsSteady b calm =
      T-err (λ s t. (absent, none, false, nobody, t))
        (T-post (λ _ s t. (absent, none, false, nobody, t)) calm)

  on_cycle-IsCalm :
      (r : Result (Wire h.Connection)) → IsCalm h laws absent none false (on_cycle h r)
  unfolding on_cycle
  on_cycle-IsCalm (ok c) = wire_set h laws absent none false c (λ e. absurd (cc)) >>> λ _.
      set_can_read-IsCalm h laws absent none false >>> λ _. tell-IsCalm h laws absent none false _
  on_cycle-IsCalm (err e) =
      T-if (is_local e) (λ _. tell-IsCalm h laws absent none false _) (λ _. T-raise e λ s a. a)

  recycle-IsCalm : IsCalm h laws absent none false (recycle h)
  unfolding recycle
  recycle-IsCalm = T-gets {Q = λ _. At h absent none false} _ (λ s a. a) >>> λ c. on_cycle-IsCalm _

  finish-IsCalm : IsCalm h laws absent none false (finish h)
  unfolding finish
  finish-IsCalm =
      set_can_read-IsCalm h laws absent none false >>> λ _. tell-IsCalm h laws absent none false _

  module _ (env : Surroundings h.Connection) (aside : IsAside h env) where
    close_none : (s : Protocol h) → s.stream ≡ none → close_stream h env s ≡ (ok tt, s)
    unfolding close_stream
    close_none s e = rw e refl

    close_some :
        (s : Protocol h) (k : StreamKind)
        → s.stream ≡ some k
        → close_stream h env s ≡ (
          ok tt,
          record (env.closing (record_call h (delivered (Event.stream_closed stream_id)) s)) {
            stream = none;
          },
        )
    unfolding close_stream
    close_some s k e = rw e refl

    closed-At :
        (b : Bool) (s : Protocol h)
        → Follows h b s
        → Post (Follows h b) (λ _. At h absent none false) (close_stream h env s)
    closed-At b s (p, kind, taken, nobody, t) =
        rw (close_none s t.streams)
          (record { phases = t.phases; streams = t.streams; wires = λ e. absurd (cc) })
    closed-At b s (p, some k, taken, serving, t) =
        rw (close_some s k t.streams)
          (record { phases = aside _ ∙ rw t.phases refl; streams = refl; wires = λ e. absurd (cc) })
    closed-At b s (p, some k, taken, unserved, t) =
        rw (close_some s k t.streams)
          (record { phases = aside _ ∙ rw t.phases refl; streams = refl; wires = λ e. absurd (cc) })

    pub Follows-close_stream :
        (b : Bool)
        → Triple (Follows h b) (Follows h b) (close_stream h env) (λ _. At h absent none false)
    Follows-close_stream b = record { at = closed-At b }

    maybe_recycle-IsSteady : (b : Bool) → IsSteady b (maybe_recycle h env)
    unfolding maybe_recycle
    maybe_recycle-IsSteady b = Follows-close_stream b >>> λ _.
        T-gets {Q = λ _. At h absent none false} _ (λ s a. a) >>> λ can.
        T-if can (λ _. absent-IsSteady b recycle-IsCalm) (λ _. absent-IsSteady b finish-IsCalm)

    pub stream_send-IsSteady : (b : Bool) (e : Event) → IsSteady b (stream_send h env e)
    unfolding stream_send
    stream_send-IsSteady b (Event.response id headers status) =
        calm-IsSteady b λ p kind taken. send_response-IsCalm h laws p kind taken env headers status
    stream_send-IsSteady b (Event.body id chunk) =
        calm-IsSteady b λ p kind taken. send_h11_event-IsCalm h laws p kind taken _
    stream_send-IsSteady b (Event.zero_copy_send id file offset count) =
        calm-IsSteady b λ p kind taken. send_zerocopy-IsCalm h laws p kind taken file offset count
    stream_send-IsSteady b (Event.end_body id) =
        calm-IsSteady b λ p kind taken. send_h11_event-IsCalm h laws p kind taken _
    stream_send-IsSteady b (Event.raw id chunk) =
        calm-IsSteady b λ p kind taken. tell-IsCalm h laws p kind taken _
    stream_send-IsSteady b (Event.stream_closed id) = maybe_recycle-IsSteady b
    stream_send-IsSteady b _ = T-skip λ s a. a

    send_from-IsSteady :
        (b : Bool) (sender : Sender) (e : Event) → IsSteady b (send_from h env sender e)
    unfolding send_from
    send_from-IsSteady b stream e = record { at = (stream_send-IsSteady b e).at }
    send_from-IsSteady b application e = record { at = keeps (stream_send-IsSteady b e) }

    send_all-IsSteady :
        (b : Bool) (events : List (Sender × Event)) → IsSteady b (send_all h env events)
    unfolding send_all
    send_all-IsSteady b [] = T-skip λ s a. a
    send_all-IsSteady b ((sender, e) ∷ events) =
        send_from-IsSteady b sender e >>> λ _. send_all-IsSteady b events

    -- An event that is in its turn
    pub Follows-deliver :
        (b : Bool) (e : Event) {P : Protocol h → Type 0}
        → ((s : Protocol h) → P s → Follows h b (record_call h (delivered e) s))
        → Triple (Follows h b) P (deliver h env e) (λ _. Follows h b)
    unfolding deliver
    Follows-deliver b e turn = T-modify {Q = λ _. Follows h b} _ turn >>> λ _.
        T-gets {Q = λ _. Follows h b} _ (λ s f. f) >>> λ events. send_all-IsSteady b events
