-- ===== src/Tests/H2Connections.antt =====
-- An HTTP/2 connection, over an h2 that takes the first byte of a delivery for the kind of its event.
use anycorn.Prelude.{
  ◌≡◌, ℕ, zero, suc, ◌==◌, if◌then◌else◌, Bool, true, false, List, [], ◌∷◌, ◌++◌, Option, none,
  some,
}
use anycorn.Prelude.Dicts.{delete, get}
use anycorn.Exec.{Result, ok, Error, err}
use anycorn.Bytes.{Bytes, Headers, codes}
use anycorn.Connection.{stream, application, http_stream}
use anycorn.Events.{Event, pos}
use anycorn.H2.State.{
  H2Event, request_received, data_received, stream_ended, stream_reset, H2, Priority, Call,
  delivered, Op, initiates, reads, sends, sending_round, World, new, closes, has_data_ends,
  SendTask,
}
use anycorn.H2.Runs.{run, meanwhile}
use anycorn.H2.Order.{Follows}
use anycorn.H2.Order.Whole.{run-Follows}
use anycorn.H2.Buffer
use anycorn.H2.Calls.{Protocol, is_missing}
use anycorn.H2.Closing.{takes_round, runs_again, run-stream_buffers}
use anycorn.H2.Handle.{on_reset}
use anycorn.H2.Reset.{on_reset-forgets}
use anycorn.ProtocolWrapper
use anycorn.ProtocolWrapper.Order.{Ordered, run-Ordered}
use anycorn.Tests.Connections.{requests, requests-Lawful, quiet, quiet-IsAside}
use anycorn.Tests.Http.{plain}

abbrev request_headers : Headers
request_headers =
    (codes ":method", codes "get")
    ∷ (codes ":path", codes "/a")
    ∷ (codes ":authority", codes "a")
    ∷ []

abbrev events_of : Bytes → List H2Event
events_of (kind ∷ id ∷ bytes) =
    if kind == 1
    then request_received id request_headers ∷ []
    else (if kind == 2
        then data_received id bytes 0 ∷ []
        else (if kind == 3 then stream_ended id ∷ [] else stream_reset id ∷ []))
events_of _ = []

abbrev accepted : {C : Type 0} → C → Result (Unit {0}) × C
accepted c = (ok tt, c)

abbrev small_h2 : H2
small_h2 = record {
  Connection = Bytes;
  connection = λ config. [];
  initiate_connection = λ c. codes "settings";
  initiate_upgrade_connection = λ settings c. accepted c;
  receive_data = λ chunk c. (ok (events_of chunk), c);
  data_to_send = λ c. (c, []);
  send_headers = λ id headers ends c. accepted (c ++ codes "headers");
  send_data = λ id chunk c. accepted (c ++ chunk);
  end_stream = λ id c. accepted (c ++ codes "end");
  reset_stream = λ id c. accepted (c ++ codes "reset");
  accept_no_streams = accepted;
  close_connection = accepted;
  acknowledge_received_data = λ n id c. accepted c;
  push_stream = λ id promised headers c. accepted (c ++ codes "promise");
  next_available_stream_id = λ c. ok 2;
  local_flow_control_window = λ id c. ok (pos 5);
  max_outbound_frame_size = λ c. 16384;
}

-- The streams that are not blocked
abbrev next_of : List (ℕ × Bool) → Option ℕ × List (ℕ × Bool)
next_of [] = (none, [])
next_of ((id, b) ∷ ids) = (some id, (id, b) ∷ ids)

abbrev ready_streams : Priority
ready_streams = record {
  Tree = List (ℕ × Bool);
  new_tree = [];
  next = next_of;
  insert = λ id place ids. ok ids;
  reprioritize = λ id place ids. ok ids;
  remove = λ id ids. ok (delete id ids);
  block = λ id ids. ok (delete id ids);
  unblock = λ id ids. ok ((id, true) ∷ delete id ids);
  missing_is_key_error = true;
}

-- The first stream pushes another one as soon as it has its request.
abbrev answers : List Call → List Op
answers (delivered (Event.request (suc zero) r) ∷ calls) =
    sends stream (Event.response 1 [] 200)
    ∷ sends stream (Event.request 1 (record r { raw_path = codes "/style" }))
    ∷ []
answers _ = []

abbrev pub world : World
world = record {
  h2 = small_h2;
  tree = ready_streams;
  env = record { meanwhile = answers; is_idle = λ calls id. false; is_terminated = λ calls. false };
}

abbrev ops : List Op
ops =
    initiates none none
    ∷ reads (1 ∷ 1 ∷ [])
    ∷ reads (2 ∷ 1 ∷ codes "hi")
    ∷ reads (3 ∷ 1 ∷ [])
    ∷ sends application (Event.body 1 (codes "hello there"))
    ∷ sending_round
    ∷ reads (4 ∷ 1 ∷ [])
    ∷ []

run-Follows_example :
    Follows world (run world 2 ops (new world.h2 world.tree plain [] none none none false))
run-Follows_example = run-Follows world plain [] none none none false 2 ops

-- The client begins with the preface of HTTP/2, and then asks.
abbrev prior_knowledge : List ProtocolWrapper.Op
prior_knowledge =
    ProtocolWrapper.initiate
    ∷ ProtocolWrapper.handle_bytes (codes "*")
    ∷ ProtocolWrapper.next_round
    ∷ ProtocolWrapper.handle_bytes (1 ∷ 1 ∷ [])
    ∷ ProtocolWrapper.stream_send (Event.end_body 1)
    ∷ ProtocolWrapper.other_task sending_round
    ∷ ProtocolWrapper.handle_closed
    ∷ []

run-Ordered_example : Ordered requests requests-Lawful world (
    ProtocolWrapper.run requests world quiet 2 prior_knowledge
      (ProtocolWrapper.new requests world plain [] none none none false none))
run-Ordered_example =
    run-Ordered requests requests-Lawful world quiet quiet-IsAside 2 plain [] none none none false
      none prior_knowledge

-- A connection whose application waits in `push` when the client goes
abbrev waits : Protocol world
waits = record (new world.h2 world.tree plain [] none none none false) {
  stream_buffers =
      (
        1,
        record Buffer.new { paused = record { is_set = false; waiting = 1; woken = 0; lost = 0 } },
      )
      ∷ [];
  send_task = SendTask.suspended;
}

run-stream_buffers_example :
    (run world 0 (closes ∷ has_data_ends ∷ sending_round ∷ []) waits).stream_buffers
    ≡ waits.stream_buffers
run-stream_buffers_example =
    run-stream_buffers world (has_data_ends ∷ sending_round ∷ []) (runs_again, (takes_round, tt))
      waits

-- A stream that the client resets while its response is sent
abbrev answering : Protocol world
answering = record (new world.h2 world.tree plain [] none none none false) {
  streams = (1, http_stream) ∷ [];
  stream_buffers = (1, Buffer.new) ∷ [];
}

never_raises :
    (tree : world.tree.Tree) (e : Error) → world.tree.remove 1 tree ≡ err e → is_missing e ≡ true
never_raises tree e p = absurd (cc)

on_reset-forgets_example :
    let r = on_reset world (meanwhile world 0) 1 answering in
    (r.0 ≡ ok tt) × (get 1 r.1.streams ≡ none) × (get 1 r.1.stream_buffers ≡ none)
on_reset-forgets_example = on_reset-forgets world 0 never_raises answering
