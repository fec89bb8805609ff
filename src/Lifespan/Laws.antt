-- ===== src/Lifespan/Laws.antt =====
-- What the server learns of an application's lifespan (lifespan.py).
use anycorn.Prelude.{
  ◌≡◌, ◌∙◌, ap, refl, Bool, true, false, not, ◌||◌, ◌&&◌, List, [], ◌∷◌, Bool-cases, inl, inr,
  arith,
}
use anycorn.Exec.{Error, err, closed_resource, modify, raise, ◌>>=◌}
use anycorn.Lifespan.{
  Message, Ending, returned, raised, grouped, Lifespan, new, is_passed, subgroup, give_up, finish,
  handle_lifespan, after_group, put, wait_for_shutdown, Act, sends, ends, run,
}

-- The application has told that it has started, or has ended.
abbrev pub is_started : List Act → Bool
is_started [] = false
is_started (sends Message.startup_complete ∷ acts) = true
is_started (sends m ∷ acts) = is_started acts
is_started (ends ending ∷ acts) = true

-- The same for the shutdown
abbrev pub is_stopped : List Act → Bool
is_stopped [] = false
is_stopped (sends Message.shutdown_complete ∷ acts) = true
is_stopped (sends m ∷ acts) = is_stopped acts
is_stopped (ends ending ∷ acts) = true

abbrev pub is_empty : List Error → Bool
is_empty [] = true
is_empty (e ∷ errors) = false

-- An error that is neither a failure of the lifespan nor a cancellation
abbrev pub is_error : Ending → Bool
is_error returned = false
is_error (raised e) = not (is_passed e)
is_error (grouped errors) = is_empty (subgroup errors)

abbrev pub is_failed : List Act → Bool
is_failed [] = false
is_failed (sends m ∷ acts) = is_failed acts
is_failed (ends ending ∷ acts) = is_error ending

abbrev pub is_over : List Act → Bool
is_over [] = false
is_over (sends m ∷ acts) = is_over acts
is_over (ends ending ∷ acts) = true

-- What a lifespan shows after these acts
abbrev Shows : List Act → Lifespan → Lifespan → Type 0
Shows acts s s' =
    (s'.startup ≡ (s.startup || is_started acts))
    × (s'.shutdown ≡ (s.shutdown || is_stopped acts))
    × (s'.supported ≡ (s.supported && not (is_failed acts)))
    × (s'.closed ≡ (s.closed || is_over acts))

or-true : (b : Bool) → true ≡ (b || true)
or-true true = refl
or-true false = refl

ends-Shows :
    (ending : Ending) (acts : List Act) (s : Lifespan)
    → Shows (ends ending ∷ acts) s (handle_lifespan ending s).1
unfolding handle_lifespan finish give_up after_group
ends-Shows returned acts s = (ground arith, ground arith, ground arith, ground arith)
ends-Shows (raised e) acts s = elim (Bool-cases (is_passed e)) [
  | inl p ↦ rw p (ground arith, ground arith, ground arith, ground arith)
  | inr p ↦ rw p (ground arith, ground arith, ground arith, ground arith)
]
ends-Shows (grouped errors) acts s = group (subgroup errors)
  where
    group :
        (passed : List Error)
        → ((after_group passed s).1.startup ≡ (s.startup || true))
          × ((after_group passed s).1.shutdown ≡ (s.shutdown || true))
          × ((after_group passed s).1.supported ≡ (s.supported && not (is_empty passed)))
          × ((after_group passed s).1.closed ≡ (s.closed || true))
    group [] = (ground arith, ground arith, ground arith, ground arith)
    group (e ∷ passed) = (ground arith, ground arith, ground arith, ground arith)

run-Shows : (acts : List Act) (s : Lifespan) → Shows acts s (run acts s)
unfolding run modify raise
run-Shows [] s = (ground arith, ground arith, ground arith, ground arith)
run-Shows (sends Message.startup_complete ∷ acts) s =
    let (a, b, c, d) = run-Shows acts (record s { startup = true }) in
    (a ∙ or-true s.startup, b, c, d)
run-Shows (sends Message.shutdown_complete ∷ acts) s =
    let (a, b, c, d) = run-Shows acts (record s { shutdown = true }) in
    (a, b ∙ or-true s.shutdown, c, d)
run-Shows (sends Message.other ∷ acts) s = run-Shows acts s
run-Shows (sends (Message.startup_failed m) ∷ acts) s = run-Shows acts s
run-Shows (sends (Message.shutdown_failed m) ∷ acts) s = run-Shows acts s
run-Shows (ends ending ∷ acts) s = ends-Shows ending acts s

-- After any acts of an application, the server sees it started exactly where it has told so or has
-- ended, stopped likewise, and not supported exactly where it has ended by an error that is neither a
-- failure of its lifespan nor a cancellation.
pub run-new :
    (acts : List Act)
    → ((run acts new).startup ≡ is_started acts)
      × ((run acts new).shutdown ≡ is_stopped acts)
      × ((run acts new).supported ≡ not (is_failed acts))
unfolding new
run-new acts = let (a, b, c, d) = run-Shows acts new in (a, b, c)

-- The channel is closed where the application has ended.
pub run-over : (acts : List Act) → (run acts new).closed ≡ is_over acts
unfolding new
run-over acts = let (a, b, c, d) = run-Shows acts new in d

waits_closed :
    (later : Lifespan → Lifespan) (s : Lifespan)
    → s.supported ≡ true
    → s.closed ≡ true
    → wait_for_shutdown later s ≡ (err closed_resource, s)
unfolding wait_for_shutdown put ◌>>=◌
waits_closed later s h k = ground arith

-- Once an application has ended without an error, or by a failure of its lifespan or a cancellation,
-- the wait for its shutdown raises, since the channel is closed and the lifespan still counts as
-- supported.
pub wait_for_shutdown_over :
    (acts : List Act) (later : Lifespan → Lifespan)
    → is_over acts ≡ true
    → is_failed acts ≡ false
    → (wait_for_shutdown later (run acts new)).0 ≡ err closed_resource
unfolding new
wait_for_shutdown_over acts later o f =
    let (a, b, c, d) = run-Shows acts new in
    ap (λ r. r.0) (waits_closed later (run acts new) (c ∙ ap not f) (d ∙ o))
