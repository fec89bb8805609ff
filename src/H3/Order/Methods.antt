-- ===== src/H3/Order/Methods.antt =====
-- The methods of H3/Handle (protocol/h3.py) keep to the order of the calls, and spare the streams that
-- were reset.
use anycorn.Prelude.{ℕ, ◌≡◌, refl, sym, ◌∙◌, false, Option, none, some, is_some}
use anycorn.Prelude.Dicts.{get}
use anycorn.Exec.{Result, ok, err, gets}
use anycorn.Exec.Hoare.{Triple, Post, T-pure, T-raise, T-gets, T-modify, T-skip, T-state, ◌>>>◌}
use anycorn.Bytes.{Bytes}
use anycorn.Connection.{StreamKind, delivered}
use anycorn.Connection.Lives.{event_id}
use anycorn.Connection.Lives.Laws.{
  InTurn-flushed, InTurn-was_reset, InTurn-wrote, InTurn-abandoned, InTurn-body, InTurn-end_body,
  InTurn-closed, InTurn-dropped,
}
use anycorn.Events.{Event, Request}
use anycorn.H3.State.{World}
use anycorn.H3.Handle.{
  Protocol, M, U, record_call, library, make_request, drop_stream, write, write_event, flush,
  deliver, give, handle_stream_event, close_if, reset_stream,
}
use anycorn.H3.Order.{Marks-was_reset, Marks-dropped, IsSound, IsOpening}

module _ (x : World) where
  -- The method keeps to the order, whether it returns or raises.
  abbrev pub IsSteady : {A : Type 0} → M x A → Type 0
  IsSteady m = Triple (IsSound x) (IsSound x) m (λ _. IsSound x)

  pub gets-IsSteady : {A : Type 0} (f : Protocol x → A) → IsSteady (gets f)
  gets-IsSteady f = T-gets f λ s a. a

  either :
      {A : Type 0} (s : Protocol x) (r : Result A)
      → IsSound x s
      → Post (IsSound x) (λ _. IsSound x) (r, s)
  either s (ok a) f = f
  either s (err e) f = f

  pub library-IsSteady :
      {A : Type 0} (call : x.h3.Connection → Result A × x.h3.Connection) → IsSteady (library x call)
  unfolding library
  library-IsSteady call = T-state _ λ s f.
      either (record s { connection = (call s.connection).1 }) (call s.connection).0
        (record { turns = f.turns; marks = f.marks; spares = f.spares })

  pub drop_stream-IsSteady : (id : ℕ) → IsSteady (drop_stream x id)
  unfolding drop_stream
  drop_stream-IsSteady id = T-modify _ λ s f. record {
    turns = InTurn-dropped s.calls s.streams id f.turns;
    marks = Marks-dropped id s.calls s.reset_streams f.marks;
    spares = f.spares;
  }

  -- The stream of this number was not reset.
  abbrev Spared : ℕ → Protocol x → Type 0
  Spared id s = IsSound x s × (is_some (get id s.reset_streams) ≡ false)

  write-IsSteady :
      (id : ℕ) (call : x.h3.Connection → Result (Unit {0}) × x.h3.Connection)
      → Triple (IsSound x) (Spared id) (write x id call) (λ _. IsSound x)
  unfolding write
  write-IsSteady id call =
      T-modify {Q = λ _. IsSound x} _ (λ s (f, e). record {
        turns = InTurn-wrote s.calls s.streams id f.turns;
        marks = f.marks;
        spares = (sym (f.marks id) ∙ e, f.spares);
      })
      >>> λ _. library-IsSteady call

  pub write_event-IsSteady :
      (e : Event) → Triple (IsSound x) (Spared (event_id e)) (write_event x e) (λ _. IsSound x)
  unfolding write_event
  write_event-IsSteady (Event.response id headers status) =
      T-gets {Q = λ _. Spared id} _ (λ s f. f) >>> λ config. write-IsSteady id _
  write_event-IsSteady (Event.informational id headers status) =
      T-gets {Q = λ _. Spared id} _ (λ s f. f) >>> λ config. write-IsSteady id _
  write_event-IsSteady (Event.body id chunk) = write-IsSteady id _
  write_event-IsSteady (Event.raw id chunk) = write-IsSteady id _
  write_event-IsSteady (Event.end_body id) = write-IsSteady id _
  write_event-IsSteady (Event.end_raw id) = write-IsSteady id _
  write_event-IsSteady (Event.trailers id headers) = write-IsSteady id _
  write_event-IsSteady _ = T-skip λ s (f, e). f

  pub make_request-IsSteady :
      (id : ℕ) (r : Result Request)
      → Triple (IsSound x) (IsOpening x id) (make_request x id r) (λ _. IsOpening x id)
  unfolding make_request
  make_request-IsSteady id (ok r) = T-pure r λ s o. o
  make_request-IsSteady id (err e) =
      T-modify {Q = λ _. IsSound x} _ (λ s o. record {
        turns = InTurn-abandoned s.calls s.streams id o.fresh_one;
        marks = o.marks;
        spares = o.spares;
      })
      >>> λ _. T-raise e (λ s f. f)

  -- The stream of this number, as it was read
  abbrev pub Read : ℕ → Option StreamKind → Protocol x → Type 0
  Read id kind s = IsSound x s × (get id s.streams ≡ kind)

  pub get-Read :
      (id : ℕ)
      → Triple (IsSound x) (IsSound x) (gets {S = Protocol x} (λ s. get id s.streams)) (Read id)
  get-Read id = T-gets _ λ s f. (f, refl)

  module _ (others : U x) (steady : IsSteady others) where
    pub flush-IsSteady : IsSteady (flush x others)
    unfolding flush
    flush-IsSteady =
        T-modify {Q = λ _. IsSound x} _ (λ s f. record {
          turns = InTurn-flushed s.calls s.streams f.turns;
          marks = f.marks;
          spares = f.spares;
        })
        >>> λ _. steady

    -- An event that is in its turn
    pub delivered-IsSteady :
        (e : Event) {P : Protocol x → Type 0}
        → ((s : Protocol x) → P s → IsSound x (record_call x (delivered e) s))
        → Triple (IsSound x) P (deliver x others e) (λ _. IsSound x)
    unfolding deliver
    delivered-IsSteady e turn = T-modify {Q = λ _. IsSound x} _ turn >>> λ _. steady

    pub body-IsSteady :
        (id : ℕ) (chunk : Bytes) → IsSteady (handle_stream_event x others id (Event.body id chunk))
    unfolding handle_stream_event give
    body-IsSteady id chunk = get-Read id >>> given
      where
        given :
            (kind : Option StreamKind)
            → Triple
                (IsSound x)
                (Read id kind)
                (give x others (Event.body id chunk) kind)
                (λ _. IsSound x)
        given none = T-skip λ s (f, h). f
        given (some kind) = delivered-IsSteady (Event.body id chunk) λ s (f, h). record {
          turns = InTurn-body s.calls s.streams id chunk h f.turns;
          marks = f.marks;
          spares = f.spares;
        }

    -- The end of a body
    pub ended :
        (id : ℕ) (kind : StreamKind)
        → Triple
            (IsSound x)
            (Read id (some kind))
            (deliver x others (Event.end_body id))
            (λ _. IsSound x)
    ended id kind = delivered-IsSteady (Event.end_body id) λ s (f, h). record {
      turns = InTurn-end_body s.calls s.streams id h f.turns;
      marks = f.marks;
      spares = f.spares;
    }

    pub end-IsSteady : (id : ℕ) → IsSteady (handle_stream_event x others id (Event.end_body id))
    unfolding handle_stream_event give
    end-IsSteady id = get-Read id >>> given
      where
        given :
            (kind : Option StreamKind)
            → Triple
                (IsSound x)
                (Read id kind)
                (give x others (Event.end_body id) kind)
                (λ _. IsSound x)
        given none = T-skip λ s (f, h). f
        given (some kind) = ended id kind

    close_if-IsSteady :
        (id : ℕ) (kind : Option StreamKind)
        → Triple (IsSound x) (Read id kind) (close_if x others id kind) (λ _. IsSound x)
    unfolding close_if
    close_if-IsSteady id none = T-skip λ s (f, h). f
    close_if-IsSteady id (some kind) =
        T-modify {Q = λ _. IsSound x} _ (λ s (f, h). record {
          turns = InTurn-closed s.calls s.streams id h f.turns;
          marks = f.marks;
          spares = f.spares;
        })
        >>> λ _. steady

    pub reset_stream-IsSteady : (id : ℕ) → IsSteady (reset_stream x others id)
    unfolding reset_stream
    reset_stream-IsSteady id =
        T-modify {Q = λ _. IsSound x} _ (λ s f. record {
          turns = InTurn-was_reset s.calls s.streams id f.turns;
          marks = Marks-was_reset id s.calls s.reset_streams f.marks;
          spares = f.spares;
        })
        >>> λ _. get-Read id >>> close_if-IsSteady id
