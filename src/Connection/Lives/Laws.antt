-- ===== src/Connection/Lives/Laws.antt =====
-- What each kind of call does to the life of the streams.
use mathlib.Core.Path.{subst}
use anycorn.Prelude.{
  ℕ, ◌≡◌, refl, ◌∙◌, true, false, List, ◌∷◌, Option, none, some, ◌==◌, Bool-cases, inl, inr, arith,
  ==_iff,
}
use anycorn.Prelude.Dicts.{
  Dict, get, put, delete, get-put, get-put_other, get-delete, get-delete_other,
}
use anycorn.Connection.{
  ServerEvent, StreamKind, Call, sent, opened, abandoned, delivered, marked, dropped, flushed,
  was_reset, wrote, promised,
}
use anycorn.Events.{Event, Request}
use anycorn.Connection.Lives.{
  Phase, event_id, advance, observe, phase, Agrees, InTurnAt, InTurn, NewStream, absent, fresh,
  stray, nobody, serving, stranded,
}

same : (id : ℕ) → (id == id) ≡ true
same id = ground arith

-- A call about another stream
other_opened :
    (id other : ℕ) (kind : StreamKind) (o : Option Phase)
    → (id == other) ≡ false
    → observe other (opened id kind) o ≡ o
other_opened id other kind none e = refl
other_opened id other kind (some p) e = rw e refl

other_abandoned :
    (id other : ℕ) (o : Option Phase) → (id == other) ≡ false → observe other (abandoned id) o ≡ o
other_abandoned id other none e = refl
other_abandoned id other (some p) e = rw e refl

other_delivered :
    (other : ℕ) (e : Event) (o : Option Phase)
    → (event_id e == other) ≡ false
    → observe other (delivered e) o ≡ o
other_delivered other e none h = refl
other_delivered other e (some p) h = rw h refl

-- A call about the stream
own_opened :
    (id : ℕ) (kind : StreamKind) (o : Option Phase) {p : Phase}
    → o ≡ some p
    → observe id (opened id kind) o ≡ some fresh
own_opened id kind none h = absurd (cc)
own_opened id kind (some p) h = rw (same id) refl

own_abandoned :
    (id : ℕ) (o : Option Phase) → o ≡ some fresh → observe id (abandoned id) o ≡ some stray
own_abandoned id o h = rw h (rw (same id) refl)

own_delivered :
    (e : Event) (o : Option Phase) {p : Phase}
    → o ≡ some p
    → observe (event_id e) (delivered e) o ≡ advance e p
own_delivered e o h = rw h (rw (same (event_id e)) refl)

other_dropped :
    (id other : ℕ) (o : Option Phase) → (id == other) ≡ false → observe other (dropped id) o ≡ o
other_dropped id other none e = refl
other_dropped id other (some p) e = rw e refl

own_dropped :
    (id : ℕ) (o : Option Phase) {p : Phase} → o ≡ some p → observe id (dropped id) o ≡ some absent
own_dropped id o h = rw h (rw (same id) refl)

-- The calls and the streams of another number are as they were.
moved :
    (id : ℕ) (calls calls' : List Call) (streams streams' : Dict StreamKind)
    → phase id calls' ≡ phase id calls
    → get id streams' ≡ get id streams
    → InTurnAt id calls streams
    → InTurnAt id calls' streams'
moved id calls calls' streams streams' c d (p, q, a) = (p, c ∙ q, rw d a)

module _ (calls : List Call) (streams : Dict StreamKind) where
  -- A call that is about no stream
  pub InTurn-sent : (e : ServerEvent) → InTurn calls streams → InTurn (sent e ∷ calls) streams
  InTurn-sent e f id = let (p, q, a) = f id in (p, rw q refl, a)

  pub InTurn-marked : InTurn calls streams → InTurn (marked ∷ calls) streams
  InTurn-marked f id = let (p, q, a) = f id in (p, rw q refl, a)

  pub InTurn-flushed : InTurn calls streams → InTurn (flushed ∷ calls) streams
  InTurn-flushed f id = let (p, q, a) = f id in (p, rw q refl, a)

  pub NewStream-opened :
      (id : ℕ) (kind : StreamKind)
      → InTurn calls streams
      → NewStream id (opened id kind ∷ calls) (put id kind streams)
  NewStream-opened id kind f = record {
    rest = λ other e.
        moved other calls (opened id kind ∷ calls) streams (put id kind streams)
          (other_opened id other kind (phase other calls) e) (get-put_other id other kind streams e)
          (f other);
    uncalled = own_opened id kind (phase id calls) (f id).1;
    kind = kind;
    entered = get-put id kind streams;
  }

  -- A call about one stream, with the dictionary that goes with it
  called :
      (id : ℕ) (c : Call) (streams' : Dict StreamKind) {p : Phase}
      → ((other : ℕ)
          → (id == other) ≡ false
          → observe other c (phase other calls) ≡ phase other calls)
      → ((other : ℕ) → (id == other) ≡ false → get other streams' ≡ get other streams)
      → observe id c (phase id calls) ≡ some p
      → Agrees p (get id streams')
      → ((other : ℕ) → (id == other) ≡ false → InTurnAt other calls streams)
      → InTurn (c ∷ calls) streams'
  called id c streams' {p} away kept here a rest other = elim (Bool-cases (id == other)) [
    | inl e ↦ subst (λ i. InTurnAt i (c ∷ calls) streams') ((==_iff id other).0 e) (p, here, a)
    | inr e ↦
        moved other calls (c ∷ calls) streams streams' (away other e) (kept other e) (rest other e)
  ]

  pub InTurn-first :
      (id : ℕ) (r : Request)
      → NewStream id calls streams
      → InTurn (delivered (Event.request id r) ∷ calls) streams
  InTurn-first id r o =
      called id (delivered (Event.request id r)) streams
        (λ other e. other_delivered other (Event.request id r) (phase other calls) e)
        (λ other e. refl) (own_delivered (Event.request id r) (phase id calls) o.uncalled)
        (rw o.entered serving) o.rest

  pub InTurn-abandoned :
      (id : ℕ) → NewStream id calls streams → InTurn (abandoned id ∷ calls) streams
  InTurn-abandoned id o =
      called id (abandoned id) streams (λ other e. other_abandoned id other (phase other calls) e)
        (λ other e. refl) (own_abandoned id (phase id calls) o.uncalled) (rw o.entered stranded)
        o.rest

  pub InTurn-was_reset : (id : ℕ) → InTurn calls streams → InTurn (was_reset id ∷ calls) streams
  InTurn-was_reset id f i = let (p, q, a) = f i in (p, rw q refl, a)

  pub InTurn-promised : (id : ℕ) → InTurn calls streams → InTurn (promised id ∷ calls) streams
  InTurn-promised id f i = let (p, q, a) = f i in (p, rw q refl, a)

  pub InTurn-wrote : (id : ℕ) → InTurn calls streams → InTurn (wrote id ∷ calls) streams
  InTurn-wrote id f i = let (p, q, a) = f i in (p, rw q refl, a)

  -- A stream that is in the dictionary may be given what belongs to it.
  given :
      (e : Event) {kind : StreamKind}
      → ((p : Phase) → Agrees p (some kind) → advance e p ≡ some p)
      → get (event_id e) streams ≡ some kind
      → InTurn calls streams
      → InTurn (delivered e ∷ calls) streams
  given e {kind} own h f =
      let (p, q, a) = f (event_id e) in
      called (event_id e) (delivered e) streams
        (λ other d. other_delivered other e (phase other calls) d) (λ other d. refl)
        (own_delivered e (phase (event_id e) calls) q ∙ own p (subst (Agrees p) h a)) a
        (λ other d. f other)

  body_own :
      (id : ℕ) (chunk : List ℕ) {kind : StreamKind} {p : Phase}
      → Agrees p (some kind)
      → advance (Event.body id chunk) p ≡ some p
  body_own id chunk serving = refl
  body_own id chunk stranded = refl

  end_own :
      (id : ℕ) {kind : StreamKind} {p : Phase}
      → Agrees p (some kind)
      → advance (Event.end_body id) p ≡ some p
  end_own id serving = refl
  end_own id stranded = refl

  closed_own :
      (id : ℕ) {kind : StreamKind} {p : Phase}
      → Agrees p (some kind)
      → advance (Event.stream_closed id) p ≡ some absent
  closed_own id serving = refl
  closed_own id stranded = refl

  pub InTurn-body :
      (id : ℕ) (chunk : List ℕ) {kind : StreamKind}
      → get id streams ≡ some kind
      → InTurn calls streams
      → InTurn (delivered (Event.body id chunk) ∷ calls) streams
  InTurn-body id chunk h f = given (Event.body id chunk) (λ p a. body_own id chunk a) h f

  pub InTurn-end_body :
      (id : ℕ) {kind : StreamKind}
      → get id streams ≡ some kind
      → InTurn calls streams
      → InTurn (delivered (Event.end_body id) ∷ calls) streams
  InTurn-end_body id h f = given (Event.end_body id) (λ p a. end_own id a) h f

  -- A stream leaves the dictionary as it is closed,
  pub InTurn-closed :
      (id : ℕ) {kind : StreamKind}
      → get id streams ≡ some kind
      → InTurn calls streams
      → InTurn (delivered (Event.stream_closed id) ∷ calls) (delete id streams)
  InTurn-closed id h f =
      let (p, q, a) = f id in
      called id (delivered (Event.stream_closed id)) (delete id streams)
        (λ other e. other_delivered other (Event.stream_closed id) (phase other calls) e)
        (λ other e. get-delete_other id other streams e)
        (own_delivered (Event.stream_closed id) (phase id calls) q
          ∙ closed_own id (subst (Agrees p) h a))
        (rw (get-delete id streams) nobody) (λ other d. f other)

  -- or as it closes itself.
  pub InTurn-dropped :
      (id : ℕ) → InTurn calls streams → InTurn (dropped id ∷ calls) (delete id streams)
  InTurn-dropped id f =
      called id (dropped id) (delete id streams)
        (λ other e. other_dropped id other (phase other calls) e)
        (λ other e. get-delete_other id other streams e) (own_dropped id (phase id calls) (f id).1)
        (rw (get-delete id streams) nobody) (λ other d. f other)
