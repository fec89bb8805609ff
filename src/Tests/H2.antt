-- ===== src/Tests/H2.antt =====
-- Runs of protocol/h2.py and worker_context.py.
use anycorn.Prelude.{
  ◌+◌, ◌*◌, ◌<◌, ◌≤◌, ◌≡◌, ◌⊎◌, refl, false, List, [], ◌∷◌, ◌++◌, some, ltb, length, arith,
}
use anycorn.Bytes.{codes}
use anycorn.H2.Buffer.{buffer_high_water, buffer_low_water}
use anycorn.H2.Buffer.Runs.{Op, pushes, pops, drains, completes, start, step, run, run_orders}
use anycorn.H2.Buffer.Marks.{OneWriter, run_marks, push_after_pop}
use anycorn.WorkerContext.Laws.{mark_requests, mark_requests_terminate}

abbrev ops : List Op
ops = pushes (codes "hello") ∷ pops 3 ∷ pushes (codes "!") ∷ completes ∷ drains ∷ []

left : (run ops start).b.buffer ≡ codes "lo!"
unfolding run
left = refl

run_orders_example : let t = run ops start in t.given ≡ t.taken ++ (t.dropped ++ t.b.buffer)
run_orders_example = run_orders ops

one_writer : OneWriter ops start
unfolding OneWriter step
one_writer = (refl, (tt, (refl, (tt, (refl, tt)))))

run_marks_example :
    let b = (run ops start).b in
    (length b.buffer < buffer_high_water + 2 * 5)
    × (b.paused.lost ≡ 0)
    × (b.is_empty.lost ≡ 0)
    × ((b.paused.waiting ≡ 0) ⊎ (buffer_low_water ≤ length b.buffer))
run_marks_example = run_marks 5 ops (omega arith, (tt, (omega arith, (tt, (tt, tt))))) one_writer

push_after_pop_example :
    let b = (run (pops 1 ∷ pushes (codes "hello") ∷ []) start).b in
    (b.buffer ≡ codes "hello") × (b.paused.waiting ≡ 0)
push_after_pop_example = push_after_pop 1 (codes "hello")

mark_requests_terminate_example :
    (mark_requests 3 (record { max_requests = some 2; requests = 0; terminate = false })).terminate
    ≡ ltb 2 3
mark_requests_terminate_example = mark_requests_terminate 2 3
