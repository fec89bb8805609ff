-- ===== src/Tests/H3Connections.antt =====
-- An HTTP/3 connection whose client resets a stream while it is answered.
use anycorn.Prelude.{ℕ, ◌==◌, true, false, List, [], ◌∷◌, none, if◌then◌else◌}
use anycorn.Exec.{ok}
use anycorn.Bytes.{Headers, codes}
use anycorn.Config.{TlsExtension}
use anycorn.Connection.{application}
use anycorn.Events.{Event}
use anycorn.H3.State.{
  QuicEvent, stream_reset, other, H3Event, headers_received, data_received, H3, Op, handles, sends,
  World,
}

abbrev request_headers : Headers
request_headers = (codes ":method", codes "get") ∷ (codes ":path", codes "/a") ∷ []

-- The first byte tells a request from data.
abbrev events_of : QuicEvent → List H3Event
events_of (other (kind ∷ id ∷ bytes)) =
    if kind == 1
    then headers_received id request_headers false ∷ []
    else data_received id bytes true ∷ []
events_of _ = []

abbrev small_h3 : H3
small_h3 = record {
  Connection = List ℕ;
  connection = [];
  handle_event = λ e c. (ok (events_of e), c);
  send_headers = λ id headers c. (ok tt, id ∷ c);
  send_data = λ id chunk ends c. (ok tt, id ∷ c);
  send_push_promise = λ id headers c. (ok 3, c);
}

abbrev world : World
world = record {
  h3 = small_h3;
  env = record { meanwhile = λ calls. []; is_terminated = λ calls. false };
}

abbrev no_client_tls : TlsExtension
no_client_tls = record {
  server_cert = none;
  client_cert_chain = [];
  client_cert_name = none;
  client_cert_error = none;
  tls_version = none;
  cipher_suite = none;
}

abbrev ops : List Op
ops =
    handles (other (1 ∷ 0 ∷ []))
    ∷ handles (other (2 ∷ 0 ∷ codes "hi"))
    ∷ sends application (Event.response 0 [] 200)
    ∷ handles (stream_reset 0)
    ∷ sends application (Event.body 0 (codes "late"))
    ∷ sends application (Event.stream_closed 0)
    ∷ []
