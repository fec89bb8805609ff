-- ===== src/H3/State.antt =====
-- The data of `H3Protocol` (protocol/h3.py), and its library aioquic, which is a parameter.
use anycorn.Prelude.{ℕ, Bool, List, [], Option}
use anycorn.Prelude.Dicts.{Dict}
use anycorn.Exec.{Result}
use anycorn.Bytes.{Bytes, Text, Headers}
use anycorn.Config.{Config, TlsExtension}
use anycorn.Connection.{StreamKind, Sender, Call}
use anycorn.Events.{Event, ConnectionState}

-- The QUIC events: those that the protocol looks at, and the others by what aioquic reads of them
pub data QuicEvent : Type 0 where
  stream_reset : ℕ → QuicEvent
  stop_sending_received : ℕ → QuicEvent
  other : Bytes → QuicEvent

-- The HTTP/3 events, with whether the stream has ended
pub data H3Event : Type 0 where
  headers_received : ℕ → Headers → Bool → H3Event
  data_received : ℕ → Bytes → Bool → H3Event
  ignored : H3Event

-- What the protocol uses of `H3Connection`
pub record H3 : Type 1 where
  pub Connection : Type 0
  pub connection : Connection
  pub handle_event : QuicEvent → Connection → Result (List H3Event) × Connection
  pub send_headers : ℕ → Headers → Connection → Result (Unit {0}) × Connection
  pub send_data : ℕ → Bytes → Bool → Connection → Result (Unit {0}) × Connection
  pub send_push_promise : ℕ → Headers → Connection → Result ℕ × Connection

-- The attributes. `calls` is the record of the calls, the newest first.
pub record H3Protocol (C : Type 0) : Type 0 where
  pub client : Option (Text × ℕ)
  pub config : Config
  pub connection : C
  pub server : Option (Text × Option ℕ)
  pub streams : Dict StreamKind
  pub reset_streams : Dict (Unit {0})
  pub state : ConnectionState
  pub tls : TlsExtension
  pub calls : List Call

-- `H3Protocol(...)`
unfoldable pub new :
    (h : H3)
    → Config
    → ConnectionState
    → TlsExtension
    → Option (Text × ℕ)
    → Option (Text × Option ℕ)
    → H3Protocol h.Connection
new h config state tls client server = record {
  client = client;
  config = config;
  connection = h.connection;
  server = server;
  streams = [];
  reset_streams = [];
  state = state;
  tls = tls;
  calls = [];
}

-- What happens next: a QUIC event arrives, or a stream or its application sends.
pub data Op : Type 0 where
  handles : QuicEvent → Op
  sends : Sender → Event → Op

-- The surroundings. `meanwhile`: what other tasks do while a call is awaited; `is_terminated`: whether
-- the worker has been told to terminate.
pub record Surroundings : Type 0 where
  pub meanwhile : List Call → List Op
  pub is_terminated : List Call → Bool

-- The library and the surroundings
pub record World : Type 1 where
  pub h3 : H3
  pub env : Surroundings
