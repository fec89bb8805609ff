-- ===== src/HttpStream/State.antt =====
-- The data of `HTTPStream`: its state, the ASGI scope, the messages of the application, and the
-- calls that a method makes on the protocol, the application, the log and the files.
use anycorn.Prelude.{ℕ, Bool, List, Option, none, true, false}
use anycorn.Exec.{Exec}
use anycorn.Bytes.{Bytes, Text, Headers}
use anycorn.Config.{Config, TlsExtension}
use anycorn.Events.{Event, ConnectionState}

-- `ASGIHTTPState`
pub data HttpState : Type 0 where
  request response trailers closed : HttpState

-- `Extensions`: which of the optional keys are there.
pub record Extensions : Type 0 where
  pub tls : Option TlsExtension
  pub trailers : Bool
  pub push : Bool
  pub early_hint : Bool
  pub pathsend : Bool
  pub zerocopysend : Bool

-- `HTTPScope`, without the keys that are constants.
pub record Scope : Type 0 where
  pub http_version : Text
  pub method : Text
  pub scheme : Text
  pub path : Text
  pub raw_path : Bytes
  pub query_string : Bytes
  pub root_path : Text
  pub headers : Headers
  pub client : Option (Text × ℕ)
  pub server : Option (Text × Option ℕ)
  pub state : ConnectionState
  pub extensions : Extensions

-- What the application sends, by `message["type"]`, with the values of `message.get` filled in.
-- A push names its path by a `str`, or by something else.
pub data Message : Type 0 where
  start : ℕ → Headers → Bool → Message
  push : Option Text → Headers → Message
  early_hint : List Bytes → Message
  body : Bytes → Bool → Message
  pathsend : Text → Message
  zerocopysend : ℕ → Option ℕ → Option ℕ → Bool → Message
  trailers : Headers → Bool → Message
  other : Message

-- `HTTPResponseStartEvent`: the status, the headers and the `trailers` flag.
pub record ResponseStart : Type 0 where
  pub status : ℕ
  pub headers : Headers
  pub trailers : Bool

-- What the application receives.
pub data AppEvent : Type 0 where
  http_request : Bytes → Bool → AppEvent
  http_disconnect : AppEvent

-- The calls that a method makes, in their order.
pub data Call : Type 0 where
  sent : Event → Call
  put : AppEvent → Call
  logged : Scope → Option ResponseStart → Call
  spawned : Scope → Call
  opened : ℕ → Call
  released : ℕ → Call

-- The attributes. An attribute that is not set yet is `none`, `app_put` is set once the application
-- is spawned, and `calls` is the record of the calls, the newest first. `start_time`, which only
-- the duration in the log is computed from, is left out.
pub record HttpStream : Type 0 where
  pub config : Config
  pub client : Option (Text × ℕ)
  pub server : Option (Text × Option ℕ)
  pub stream_id : ℕ
  pub tls : Option TlsExtension
  pub zero_copy_send : Bool
  pub app_put : Bool
  pub closed : Bool
  pub response : Option ResponseStart
  pub scope : Option Scope
  pub state : HttpState
  pub calls : List Call

abbrev pub is_request : HttpState → Bool
is_request HttpState.request = true
is_request _ = false

abbrev pub is_response : HttpState → Bool
is_response HttpState.response = true
is_response _ = false

abbrev pub is_trailers : HttpState → Bool
is_trailers HttpState.trailers = true
is_trailers _ = false

abbrev pub is_closed : HttpState → Bool
is_closed HttpState.closed = true
is_closed _ = false

abbrev pub M : Type 0 → Type 0
M = Exec HttpStream

-- Whether the stream is told that it is closed while the newest of these calls is awaited.
abbrev pub Interference : Type 0
Interference = List Call → Bool

-- `HTTPStream(...)`
unfoldable pub new :
    Config
    → Option (Text × ℕ)
    → Option (Text × Option ℕ)
    → ℕ
    → Option TlsExtension
    → Bool
    → HttpStream
new config client server stream_id tls zero_copy_send = record {
  config = config;
  client = client;
  server = server;
  stream_id = stream_id;
  tls = tls;
  zero_copy_send = zero_copy_send;
  app_put = false;
  closed = false;
  response = none;
  scope = none;
  state = HttpState.request;
  calls = List.[];
}
