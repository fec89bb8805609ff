-- ===== src/H11/State.antt =====
-- The data of `H11Protocol` (protocol/h11.py), and h11, which is a parameter.
use anycorn.Prelude.{ℕ, zero, Bool, List, [], Option, none}
use anycorn.Exec.{Result}
use anycorn.Bytes.{Bytes, Text, Headers}
use anycorn.Config.{Config, TlsExtension}
pub use anycorn.Connection.{
  ServerEvent, raw_data, send_file, updated, StreamKind, http_stream, ws_stream, Sender, stream,
  application,
}
use anycorn.Events.{Event, ConnectionState, ℤ}
use anycorn.WorkerContext.{EventWrapper, new_event}

-- The states of a side of an h11 connection
pub data Side : Type 0 where
  idle send_response send_body done must_close closed error might_switch switched : Side

-- `h11.Request`: `headers` is what iterating over the headers gives, `raw_items` keeps the case.
pub record H11Request : Type 0 where
  pub headers : Headers
  pub raw_items : Headers
  pub method : Bytes
  pub target : Bytes
  pub http_version : Bytes

-- What `next_event` returns on the server's side
pub data H11Event : Type 0 where
  request : H11Request → H11Event
  chunk : Bytes → H11Event
  end_of_message : H11Event
  connection_closed : H11Event
  need_data : H11Event
  paused : H11Event

-- or, with the status that it hints at, the `RemoteProtocolError` that it raises
pub data Next : Type 0 where
  event : H11Event → Next
  remote_error : ℕ → Next

-- `H11SendableEvent`
pub data Sendable : Type 0 where
  response : Headers → ℕ → Sendable
  informational : Headers → ℕ → Sendable
  chunk : Bytes → Sendable
  end_of_message : Sendable

-- What `send_with_data_passthrough` returns: framing, or the object that it was given.
pub data Piece : Type 0 where
  framing : Bytes → Piece
  placeholder : Piece

-- What the protocol uses of `h11.Connection`. `send` and the others raise through the result;
-- a placeholder is given to `send_passthrough` by its length.
pub record H11 : Type 1 where
  pub Connection : Type 0
  pub connection : Connection
  pub receive_data : Bytes → Connection → Result Connection
  pub next_event : Connection → Next × Connection
  pub send : Sendable → Connection → Result Bytes × Connection
  pub send_passthrough : ℤ → Connection → Result (List Piece) × Connection
  pub start_next_cycle : Connection → Result Connection
  pub our_state : Connection → Side
  pub their_state : Connection → Side
  pub waiting_for_100 : Connection → Bool
  pub trailing_data : Connection → Bytes

-- `self.connection`: h11's, or the adapter around it with its buffer
pub data Wire (C : Type 0) : Type 0 where
  plain : C → Wire C
  websocket : C → Bytes → Wire C

-- What `self.connection.next_event` returns
pub data Incoming : Type 0 where
  next : Next → Incoming
  passed : Bytes → Incoming

-- The calls, in their order
pub data Call : Type 0 where
  sent : ServerEvent → Call
  opened : StreamKind → Call
  delivered : Event → Call
  rejected : ℕ → Call
  marked : Call

-- What the task that reads does: it waits for data, is in the loop of `_handle_events`, or is
-- suspended in `can_read.wait()`.
pub data Reader : Type 0 where
  ready looping suspended : Reader

-- The attributes. `calls` is the record of the calls, the newest first.
pub record H11Protocol (C : Type 0) : Type 0 where
  pub can_read : EventWrapper
  pub client : Option (Text × ℕ)
  pub config : Config
  pub connection : Wire C
  pub keep_alive_requests : ℕ
  pub server : Option (Text × Option ℕ)
  pub tls : Option TlsExtension
  pub zero_copy_send : Bool
  pub stream : Option StreamKind
  pub connection_state : ConnectionState
  pub reader : Reader
  pub calls : List Call

-- `H11Protocol(...)`
unfoldable pub new :
    (h : H11)
    → Config
    → ConnectionState
    → Option (Text × ℕ)
    → Option (Text × Option ℕ)
    → Option TlsExtension
    → Bool
    → H11Protocol h.Connection
new h config connection_state client server tls zero_copy_send = record {
  can_read = new_event;
  client = client;
  config = config;
  connection = plain h.connection;
  keep_alive_requests = zero;
  server = server;
  tls = tls;
  zero_copy_send = zero_copy_send;
  stream = none;
  connection_state = connection_state;
  reader = Reader.ready;
  calls = [];
}

-- What the surroundings do. `sends`: what is sent while a call of the stream is awaited, and by whom;
-- `closing`: what the other tasks have made of the protocol by the time the stream has handled its
-- `StreamClosed`; `is_terminated`: whether the worker has been told to terminate.
pub record Surroundings (C : Type 0) : Type 0 where
  pub sends : List Call → List (Sender × Event)
  pub closing : H11Protocol C → H11Protocol C
  pub is_terminated : List Call → Bool
