-- ===== src/WorkerContext/Laws.antt =====
-- What worker_context.py counts.
use anycorn.Prelude.{ℕ, zero, suc, ◌+◌, ◌≡◌, ap, ◌∙◌, Bool, false, ◌||◌, some, ltb, arith}
use anycorn.WorkerContext.{WorkerContext, mark_request}

-- `n` requests
abbrev pub mark_requests : ℕ → WorkerContext → WorkerContext
mark_requests zero c = c
mark_requests (suc n) c = mark_requests n (mark_request c)

counted :
    (limit n r : ℕ) (b : Bool)
    → b ≡ ltb limit r
    → (mark_requests n
        (record { max_requests = some limit; requests = r; terminate = b })).terminate
      ≡ ltb limit (r + n)
unfolding mark_request
counted limit zero r b h = ground arith
counted limit (suc n) r b h =
    rw (counted limit n (suc r) (b || ltb limit (suc r)) (ground arith))
      (ap (ltb limit) (omega arith))

-- With a limit on the requests, a fresh worker is told to terminate by the first request over the
-- limit and by none before it.
pub mark_requests_terminate :
    (limit n : ℕ)
    → (mark_requests n
        (record { max_requests = some limit; requests = 0; terminate = false })).terminate
      ≡ ltb limit n
mark_requests_terminate limit n =
    counted limit n 0 false (ground arith) ∙ ap (ltb limit) (omega arith)
