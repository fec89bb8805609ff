-- ===== src/WsStream/State.antt =====
-- The data of `WSStream` (protocol/ws_stream.py), and wsproto, which is a parameter.
use anycorn.Prelude.{ℕ, Bool, false, List, Option, none}
use anycorn.Exec.{Result}
use anycorn.Bytes.{Bytes, Text, Headers}
use anycorn.Config.{Config, TlsExtension}
use anycorn.Events.{Event, ConnectionState}

-- wsproto's events. A message is a fragment of text or of bytes, and whether it is the last one.
pub data WsEvent : Type 0 where
  text_message : Text → Bool → WsEvent
  bytes_message : Bytes → Bool → WsEvent
  ping : Bytes → WsEvent
  pong : Bytes → WsEvent
  close_connection : ℕ → Option Text → WsEvent

-- What the stream uses of wsproto: `split_comma_header`, `server_extensions_handshake` (empty where
-- nothing is accepted), `generate_accept_token`, and the connection with its methods. `receive_data`
-- may raise; `response` is the answer to a ping or a close; `next_event` is a step of the iterator `events()`; `send` is `none` for a
-- `LocalProtocolError`; `remote_closing` is whether the state is `REMOTE_CLOSING`. `pending` bounds
-- the events that are left.
pub record Wsproto : Type 1 where
  pub Connection : Type 0
  pub connection : Option (List Text) → Bool → Connection
  pub split_comma_header : Bytes → List Text
  pub server_extensions_handshake : List Text → Bool → Bytes
  pub generate_accept_token : Bytes → Bytes
  pub receive_data : Bytes → Connection → Result Connection
  pub next_event : Connection → Option WsEvent × Connection
  pub send : WsEvent → Connection → Option Bytes × Connection
  pub response : WsEvent → WsEvent
  pub remote_closing : Connection → Bool
  pub pending : Connection → ℕ

-- `ASGIWebsocketState`
pub data WsState : Type 0 where
  handshake connected response closed http_closed : WsState

-- `Handshake`
pub record Handshake : Type 0 where
  pub accepted : Bool
  pub http_version : Text
  pub websocket_permessage_deflate : Bool
  pub connection_tokens : Option (List Text)
  pub extensions : Option (List Text)
  pub key : Option Bytes
  pub subprotocols : Option (List Text)
  pub upgrade : Option Bytes
  pub version : Option Bytes

-- `StringIO` or `BytesIO`, with what was written to it
pub data Value : Type 0 where
  text : Text → Value
  bytes : Bytes → Value

-- `WebsocketBuffer`
pub record WebsocketBuffer : Type 0 where
  pub value : Option Value
  pub length : ℕ
  pub max_length : ℕ

-- `WebsocketScope`, without the keys that are constants
pub record WebsocketScope : Type 0 where
  pub tls : Option TlsExtension
  pub scheme : Text
  pub http_version : Text
  pub path : Text
  pub raw_path : Bytes
  pub query_string : Bytes
  pub root_path : Text
  pub headers : Headers
  pub client : Option (Text × ℕ)
  pub server : Option (Text × Option ℕ)
  pub state : ConnectionState
  pub subprotocols : List Text

-- What the application receives. `disconnect` has the close code.
pub data AppEvent : Type 0 where
  connect : AppEvent
  receive : Option Value → AppEvent
  disconnect : ℕ → AppEvent

-- `message["text"]`: it may be missing, or be no `str`.
pub data TextKey : Type 0 where
  missing not_str : TextKey
  str : Text → TextKey

-- What the application sends, with the values of `message.get` filled in.
pub data Message : Type 0 where
  accept : Option Text → Headers → Message
  response_start : ℕ → Headers → Message
  response_body : Bytes → Bool → Message
  send : Option Bytes → TextKey → Message
  close : ℕ → Option Text → Message
  other : Message

-- `WebsocketResponseStartEvent`: the status and the headers.
pub record ResponseStart : Type 0 where
  pub status : ℕ
  pub headers : Headers

-- The calls that a method makes, in their order.
pub data Call : Type 0 where
  sent : Event → Call
  put : AppEvent → Call
  logged : WebsocketScope → ResponseStart → Call
  spawned : WebsocketScope → Call
  pinging : Call

-- The attributes. One that is not set yet is `none`; `app_put` is set once the application is
-- spawned, and `calls` is the record of the calls, the newest first. `start_time` is left out.
pub record WsStream (C : Type 0) : Type 0 where
  pub app_put : Bool
  pub buffer : WebsocketBuffer
  pub client : Option (Text × ℕ)
  pub closed : Bool
  pub close_code : Option ℕ
  pub config : Config
  pub response : Option ResponseStart
  pub scope : Option WebsocketScope
  pub server : Option (Text × Option ℕ)
  pub state : WsState
  pub pre_accept_data : Bytes
  pub stream_id : ℕ
  pub tls : Option TlsExtension
  pub connection : Option C
  pub handshake : Option Handshake
  pub calls : List Call

-- What the other tasks have made of the stream by the time its newest call has been awaited
abbrev pub Interference : Type 0 → Type 0
Interference C = WsStream C → WsStream C

-- `WSStream(...)`
unfoldable pub new :
    {C : Type 0}
    → Config
    → Option (Text × ℕ)
    → Option (Text × Option ℕ)
    → ℕ
    → Option TlsExtension
    → WsStream C
new config client server stream_id tls = record {
  app_put = false;
  buffer = record { value = none; length = 0; max_length = config.websocket_max_message_size };
  client = client;
  closed = false;
  close_code = none;
  config = config;
  response = none;
  scope = none;
  server = server;
  state = WsState.handshake;
  pre_accept_data = List.[];
  stream_id = stream_id;
  tls = tls;
  connection = none;
  handshake = none;
  calls = List.[];
}
