-- ===== src/H2/State.antt =====
-- The data of `H2Protocol` (protocol/h2.py), and its libraries h2 and priority, which are parameters.
use anycorn.Prelude.{ℕ, zero, Bool, false, List, [], Option}
use anycorn.Prelude.Dicts.{Dict}
use anycorn.Exec.{Result}
use anycorn.Bytes.{Bytes, Text, Headers}
use anycorn.Config.{Config, TlsExtension}
use anycorn.Connection.{StreamKind, Sender}
pub use anycorn.Connection.{Call, sent, opened, abandoned, delivered, marked}
use anycorn.Events.{Event, ConnectionState, ℤ}
use anycorn.WorkerContext.{EventWrapper, new_event}
use anycorn.H2.Buffer.{StreamBuffer}

-- h2's events: of a priority, the stream that it depends on (0 for none), the weight and whether it is
-- exclusive; of settings, whether the initial window size is among those that changed.
pub data H2Event : Type 0 where
  request_received : ℕ → Headers → H2Event
  data_received : ℕ → Bytes → ℕ → H2Event
  stream_ended : ℕ → H2Event
  stream_reset : ℕ → H2Event
  window_updated : ℕ → H2Event
  priority_updated : ℕ → ℕ → ℕ → Bool → H2Event
  settings_changed : Bool → H2Event
  connection_terminated : H2Event
  ignored : H2Event

-- What the protocol uses of `H2Connection`. Its `ProtocolError`s come through the results.
pub record H2 : Type 1 where
  pub Connection : Type 0
  pub connection : Config → Connection
  pub initiate_connection : Connection → Connection
  pub initiate_upgrade_connection : Text → Connection → Result (Unit {0}) × Connection
  pub receive_data : Bytes → Connection → Result (List H2Event) × Connection
  pub data_to_send : Connection → Bytes × Connection
  pub send_headers : ℕ → Headers → Bool → Connection → Result (Unit {0}) × Connection
  pub send_data : ℕ → Bytes → Connection → Result (Unit {0}) × Connection
  pub end_stream : ℕ → Connection → Result (Unit {0}) × Connection
  pub reset_stream : ℕ → Connection → Result (Unit {0}) × Connection
  pub accept_no_streams : Connection → Result (Unit {0}) × Connection
  pub close_connection : Connection → Result (Unit {0}) × Connection
  pub acknowledge_received_data : ℕ → ℕ → Connection → Result (Unit {0}) × Connection
  pub push_stream : ℕ → ℕ → Headers → Connection → Result (Unit {0}) × Connection
  pub next_available_stream_id : Connection → Result ℕ
  pub local_flow_control_window : ℕ → Connection → Result ℤ
  pub max_outbound_frame_size : Connection → ℕ

-- What it uses of `PriorityTree`: `next` is `none` for a `DeadlockError`; the place of a stream is
-- the one it depends on, the weight and whether it is exclusive. `missing_is_key_error`: whether a
-- `MissingStreamError` is a `KeyError`.
pub record Priority : Type 1 where
  pub Tree : Type 0
  pub new_tree : Tree
  pub next : Tree → Option ℕ × Tree
  pub insert : ℕ → Option (Option ℕ × ℕ × Bool) → Tree → Result Tree
  pub reprioritize : ℕ → Option ℕ × ℕ × Bool → Tree → Result Tree
  pub remove : ℕ → Tree → Result Tree
  pub block : ℕ → Tree → Result Tree
  pub unblock : ℕ → Tree → Result Tree
  pub missing_is_key_error : Bool

-- Where the sending task is: not spawned, in its loop, suspended in `has_data.wait()`, or at its end.
pub data SendTask : Type 0 where
  unborn looping suspended ended : SendTask

-- The attributes. `calls` is the record of the calls, the newest first.
pub record H2Protocol (C T : Type 0) : Type 0 where
  pub client : Option (Text × ℕ)
  pub closed : Bool
  pub config : Config
  pub connection_state : ConnectionState
  pub tls : Option TlsExtension
  pub zero_copy_send : Bool
  pub connection : C
  pub keep_alive_requests : ℕ
  pub server : Option (Text × Option ℕ)
  pub streams : Dict StreamKind
  pub has_data : EventWrapper
  pub priority : T
  pub stream_buffers : Dict StreamBuffer
  pub send_task : SendTask
  pub calls : List Call

-- `H2Protocol(...)`
unfoldable pub new :
    (h : H2) (t : Priority)
    → Config
    → ConnectionState
    → Option (Text × ℕ)
    → Option (Text × Option ℕ)
    → Option TlsExtension
    → Bool
    → H2Protocol h.Connection t.Tree
new h t config connection_state client server tls zero_copy_send = record {
  client = client;
  closed = false;
  config = config;
  connection_state = connection_state;
  tls = tls;
  zero_copy_send = zero_copy_send;
  connection = h.connection config;
  keep_alive_requests = zero;
  server = server;
  streams = [];
  has_data = new_event;
  priority = t.new_tree;
  stream_buffers = [];
  send_task = SendTask.unborn;
  calls = [];
}

-- What happens next: the connection is initiated, bytes arrive, the connection ends, a stream or its
-- application sends, the sending task takes a round or runs again after its wait, and a task runs
-- again that has pushed to the buffer of a stream, or that has drained it, with the trailers that it
-- has still to send.
pub data Op : Type 0 where
  initiates : Option Headers → Option Text → Op
  reads : Bytes → Op
  closes : Op
  sends : Sender → Event → Op
  sending_round : Op
  has_data_ends : Op
  push_ends : ℕ → Op
  drain_ends : ℕ → Op
  trailers_end : ℕ → Headers → Op

-- The surroundings. `meanwhile`: what other tasks do while a call is awaited; `is_idle`: whether a
-- stream is; `is_terminated`: whether the worker has been told to terminate.
pub record Surroundings : Type 0 where
  pub meanwhile : List Call → List Op
  pub is_idle : List Call → ℕ → Bool
  pub is_terminated : List Call → Bool

-- The libraries and the surroundings
pub record World : Type 1 where
  pub h2 : H2
  pub tree : Priority
  pub env : Surroundings
