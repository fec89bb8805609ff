-- ===== src/H2/Buffer/Runs.antt =====
-- The runs of a `StreamBuffer` (protocol/h2.py): any number of tasks push and drain, the sending task
-- pops, and the connection completes or closes the buffer at any time.
use anycorn.Prelude.{
  ℕ, if-intro, take-append-drop, take-nil, drop-nil, ◌≡◌, ◌⊎◌, inl, inr, refl, true, List, [], ◌∷◌,
  ◌++◌, ◌==◌, if◌then◌else◌,
}
use mathlib.Core.List.{append_assoc, append-nil}
use anycorn.Exec.{Result, ok, err}
use anycorn.Bytes.{Bytes}
use anycorn.WorkerContext.{clear, resume}
use anycorn.H2.Buffer.{StreamBuffer, new, push, pop, drain, set_complete, close}

-- What happens next. `push_ends` and `drain_ends` are a task running again after its wait.
pub data Op : Type 0 where
  pushes : Bytes → Op
  pops : ℕ → Op
  push_ends drains drain_ends completes closes : Op

-- The buffer, with what was pushed into it, what was popped, and what `close` threw away.
pub record Traffic : Type 0 where
  pub b : StreamBuffer
  pub given : Bytes
  pub taken : Bytes
  pub dropped : Bytes

abbrev pub start : Traffic
start = record { b = new; given = []; taken = []; dropped = [] }

abbrev pub after_push : Bytes → Traffic → Result (Unit {0}) × StreamBuffer → Traffic
after_push chunk t (ok u, b') = record t { b = b'; given = t.given ++ chunk }
after_push chunk t (err e, b') = record t { b = b' }

-- One step; a step that cannot happen changes nothing.
unfoldable pub step : Op → Traffic → Traffic
unfolding push pop drain set_complete close clear resume
step (pushes chunk) t = after_push chunk t (push chunk t.b)
step push_ends t =
    if t.b.paused.woken == 0
    then t
    else record t { b = record t.b { paused = clear (resume t.b.paused) } }
step drains t = record t { b = drain t.b }
step drain_ends t =
    if t.b.is_empty.woken == 0
    then t
    else record t { b = record t.b { is_empty = resume t.b.is_empty } }
step (pops n) t = let (chunk, b') = pop n t.b in record t { b = b'; taken = t.taken ++ chunk }
step completes t = record t { b = set_complete t.b }
step closes t = record t { b = close t.b; dropped = t.dropped ++ t.b.buffer }

unfoldable pub run : List Op → Traffic → Traffic
unfolding step
run [] t = t
run (op ∷ ops) t = run ops (step op t)

-- The bytes in their places, and that nothing comes after what `close` threw away.
abbrev IsOrdered : Traffic → Type 0
IsOrdered t =
    (t.given ≡ t.taken ++ (t.dropped ++ t.b.buffer))
    × ((t.dropped ≡ []) ⊎ ((t.b.complete ≡ true) × (t.b.buffer ≡ [])))

push-IsOrdered :
    (chunk : Bytes) (t : Traffic) → IsOrdered t → IsOrdered (after_push chunk t (push chunk t.b))
unfolding push
push-IsOrdered chunk t (h, d) =
    if-intro (λ r. IsOrdered (after_push chunk t r)) t.b.complete (λ e. (h, d))
      (λ e. (pushed, elim d [ inl x ↦ inl x | inr (c, x) ↦ cc ]))
  where
    pushed : t.given ++ chunk ≡ t.taken ++ (t.dropped ++ (t.b.buffer ++ chunk))
    pushed = rw (
      h,
      append_assoc t.taken (t.dropped ++ t.b.buffer) chunk,
      append_assoc t.dropped t.b.buffer chunk,
    )

pop-IsOrdered : (n : ℕ) (t : Traffic) → IsOrdered t → IsOrdered (step (pops n) t)
unfolding step
pop-IsOrdered n t (h, inl d) = (rw (h, d, append_assoc t.taken, take-append-drop), inl d)
pop-IsOrdered n t (h, inr (c, d)) = (
  rw (h, d, take-nil, drop-nil, append-nil t.dropped, append-nil t.taken),
  inr (c, rw (d, drop-nil)),
)

step-IsOrdered : (op : Op) (t : Traffic) → IsOrdered t → IsOrdered (step op t)
unfolding step
step-IsOrdered (pushes chunk) t h = push-IsOrdered chunk t h
step-IsOrdered push_ends t h = if-intro IsOrdered (t.b.paused.woken == 0) (λ e. h) (λ e. h)
step-IsOrdered drains t h = h
step-IsOrdered drain_ends t h = if-intro IsOrdered (t.b.is_empty.woken == 0) (λ e. h) (λ e. h)
step-IsOrdered (pops n) t h = pop-IsOrdered n t h
step-IsOrdered completes t (h, inl d) = (h, inl d)
step-IsOrdered completes t (h, inr (d, e)) = (h, inr (refl, e))
step-IsOrdered closes t (h, d) = (rw (h, append-nil), inr (refl, refl))

run-IsOrdered : (ops : List Op) (t : Traffic) → IsOrdered t → IsOrdered (run ops t)
unfolding run
run-IsOrdered [] t h = h
run-IsOrdered (op ∷ ops) t h = run-IsOrdered ops (step op t) (step-IsOrdered op t h)

-- However the tasks that push and drain, the one that pops and the end of the connection interleave,
-- the bytes that the pushes
-- accepted are the bytes popped, those that closing the buffer threw away and those still in it, in
-- this order.
pub run_orders :
    (ops : List Op) → let t = run ops start in t.given ≡ t.taken ++ (t.dropped ++ t.b.buffer)
run_orders ops = (run-IsOrdered ops start (refl, inl refl)).0
