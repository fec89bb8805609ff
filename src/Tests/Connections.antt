-- ===== src/Tests/Connections.antt =====
-- An HTTP/1.1 connection, over an h11 that takes each delivery for a request, and `*` for the preface
-- of HTTP/2.
use mathlib.Core.Path.{subst}
use anycorn.Prelude.{
  some, ◌≡◌, ◌≢◌, refl, Bool, true, false, List, [], ◌∷◌, ◌++◌, none, if◌then◌else◌,
}
use anycorn.Exec.{ok, ok-injective}
use anycorn.Bytes.{Bytes, codes, eq}
use anycorn.Events.{Event}
use anycorn.H11.State.{
  Side, H11Request, H11Event, Next, H11, Surroundings, http_stream, delivered, new,
}
use anycorn.H11.Calls.{Protocol, stream_id, close_stream}
use anycorn.H11.Runs.{Op, reads, rounds, sends, run, start}
use anycorn.H11.Order.{Lawful, IsAside}
use anycorn.H11.Order.Faults.{both_close, close_stream_twice}
use anycorn.H11.Order.Whole.{InOrder, run-InOrder}
use anycorn.Tests.Http.{plain}

abbrev get : Bytes → H11Request
get target = record {
  headers = (codes "host", codes "a") ∷ [];
  raw_items = (codes "Host", codes "a") ∷ [];
  method = if eq target (codes "*") then codes "PRI" else codes "GET";
  target = target;
  http_version = if eq target (codes "*") then codes "2.0" else codes "1.1";
}

-- The requests that wait, and whether one has been read
abbrev Queue : Type 0
Queue = Bool × List H11Request

abbrev side : Queue → Side
side (true, rs) = Side.done
side (false, rs) = Side.idle

abbrev next_request : Queue → Next × Queue
next_request (taken, []) = (Next.event H11Event.need_data, (taken, []))
next_request (true, r ∷ rs) = (Next.event H11Event.paused, (true, r ∷ rs))
next_request (false, r ∷ rs) = (Next.event (H11Event.request r), (true, rs))

abbrev pub requests : H11
requests = record {
  Connection = Queue;
  connection = (false, []);
  receive_data = λ target (taken, rs). ok (taken, rs ++ get target ∷ []);
  next_event = next_request;
  send = λ e c. (ok (codes "sent"), c);
  send_passthrough = λ n c. (ok [], c);
  start_next_cycle = λ (taken, rs). ok (false, rs);
  our_state = λ c. Side.done;
  their_state = side;
  waiting_for_100 = λ c. false;
  trailing_data = λ c. [];
}

taken-next :
    (c : Queue) (r : H11Request)
    → (next_request c).0 ≡ Next.event (H11Event.request r)
    → (side c ≡ Side.idle) × (side (next_request c).1 ≢ Side.idle)
taken-next (taken, []) r e = absurd (cc)
taken-next (true, x ∷ rs) r e = absurd (cc)
taken-next (false, x ∷ rs) r e = (refl, λ q. cc)

still_taken : (c : Queue) → side c ≢ Side.idle → side (next_request c).1 ≢ Side.idle
still_taken (taken, []) t = t
still_taken (true, x ∷ rs) t = t
still_taken (false, x ∷ rs) t = λ q. cc

received :
    (target : Bytes) (c c' : Queue)
    → ok (c.0, c.1 ++ get target ∷ []) ≡ ok c'
    → side c ≢ Side.idle
    → side c' ≢ Side.idle
received target (true, rs) c' e t = subst (λ c. side c ≢ Side.idle) (ok-injective e) t
received target (false, rs) c' e t = absurd (t refl)

pub requests-Lawful : Lawful requests
requests-Lawful = record {
  from_idle = taken-next;
  next_event_taken = still_taken;
  receive_data_taken = received;
  send_taken = λ e c t. t;
  send_passthrough_taken = λ n c t. t;
}

abbrev pub quiet : Surroundings requests.Connection
quiet = record { sends = λ calls. []; closing = λ s. s; is_terminated = λ calls. false }

abbrev pub quiet-IsAside : IsAside requests quiet
quiet-IsAside s = refl

-- Two requests, with the response to the first one in between
abbrev ops : List Op
ops =
    reads (codes "/a")
    ∷ rounds
    ∷ rounds
    ∷ sends (Event.response 1 [] 200)
    ∷ sends (Event.body 1 (codes "hi"))
    ∷ sends (Event.end_body 1)
    ∷ sends (Event.stream_closed 1)
    ∷ reads (codes "/b")
    ∷ rounds
    ∷ []

run-InOrder_example :
    InOrder requests requests-Lawful quiet quiet-IsAside
      (run requests quiet ops (start requests plain [] none none none false))
run-InOrder_example =
    run-InOrder requests requests-Lawful quiet quiet-IsAside plain [] none none none false ops

-- A stream that the end of the connection and the end of its response close together
abbrev serving : Protocol requests
serving = record (new requests plain [] none none none false) { stream = some http_stream }

closed_twice :
    (close_stream requests (both_close requests quiet) serving).1.calls
    ≡ delivered (Event.stream_closed stream_id) ∷ delivered (Event.stream_closed stream_id) ∷ []
closed_twice = unfold new in close_stream_twice requests quiet (λ s. refl) http_stream serving refl
