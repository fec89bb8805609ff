-- ===== src/WorkerContext.antt =====
-- worker_context.py: the event that tasks wait on, and the count of requests.
pub mod Laws
use anycorn.Prelude.{
  ℕ, suc, ◌+◌, ◌-◌, Bool, true, false, ◌||◌, Option, none, some, ltb, if◌then◌else◌,
}

-- `EventWrapper`, with the tasks that it holds: those suspended on the `anyio.Event` that is its
-- `_event` now, those that an event let go and that have not run since, and those suspended on an
-- event that `clear` has replaced, which nothing sets any more.
pub record EventWrapper : Type 0 where
  pub is_set : Bool
  pub waiting : ℕ
  pub woken : ℕ
  pub lost : ℕ

abbrev pub new_event : EventWrapper
new_event = record { is_set = false; waiting = 0; woken = 0; lost = 0 }

-- `EventWrapper.clear`
unfoldable pub clear : EventWrapper → EventWrapper
clear e = record { is_set = false; waiting = 0; woken = e.woken; lost = e.lost + e.waiting }

-- `EventWrapper.wait`, up to where the task is suspended; it passes where the event is set.
unfoldable pub wait : EventWrapper → EventWrapper
wait e = if e.is_set then record e { woken = suc e.woken } else record e { waiting = suc e.waiting }

-- A task that was let go runs.
unfoldable pub resume : EventWrapper → EventWrapper
resume e = record e { woken = e.woken - 1 }

-- `EventWrapper.set`
unfoldable pub set : EventWrapper → EventWrapper
set e = record { is_set = true; waiting = 0; woken = e.woken + e.waiting; lost = e.lost }

-- `WorkerContext`, as far as it counts: `terminate` is whether the event is set.
pub record WorkerContext : Type 0 where
  pub max_requests : Option ℕ
  pub requests : ℕ
  pub terminate : Bool

-- `mark_request`
unfoldable pub mark_request : WorkerContext → WorkerContext
mark_request c = elim c.max_requests [
  | none ↦ c
  | some limit ↦ record c {
    requests = suc c.requests;
    terminate = c.terminate || ltb limit (suc c.requests);
  }
]
