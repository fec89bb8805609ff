-- ===== src/Tests/Http.antt =====
-- A request and its response.
use anycorn.Prelude.{true, false, List, [], ◌∷◌, none, some}
use anycorn.Bytes.{codes}
use anycorn.Config.{Config}
use anycorn.Events.{Event, Request, end_body}
use anycorn.Sendfile.{Os}
use anycorn.HttpStream.State.{Message, sent, new, Interference}
use anycorn.HttpStream.Grammar.{Conforms}
use anycorn.HttpStream.Grammar.Runs.{Turn, deliver, say, run, responses-Conforms}

abbrev pub plain : Config
plain = record {
  root_path = [];
  server_names = [];
  websocket_max_message_size = 100;
  websocket_permessage_deflate = false;
  websocket_ping_interval = none;
  keep_alive_max_requests = 10;
  h11_pass_raw_headers = false;
  response_headers = λ protocol. [];
}

abbrev no_files : Os
no_files = record {
  open_file = λ path. none;
  file_size = λ fd. 0;
  file_position = λ fd. 0;
  pread = λ fd n offset. [];
}

abbrev get_root : Request
get_root = record {
  headers = (codes "host", codes "a") ∷ [];
  http_version = codes "1.1";
  method = codes "GET";
  raw_path = codes "/?q";
  state = [];
}

-- The disconnect comes while the last event is sent.
abbrev late_disconnect : Interference
late_disconnect (sent (Event.end_body id) ∷ calls) = true
late_disconnect calls = false

abbrev turns : List Turn
turns =
    deliver (end_body 1)
    ∷ say (some (Message.start 200 [] false))
    ∷ say (some (Message.body (codes "hi") false))
    ∷ say none
    ∷ []

responses-Conforms_example : Conforms (
    run late_disconnect no_files
      (deliver (Event.request 1 get_root) ∷ turns)
      (new plain none none 1 none false))
responses-Conforms_example =
    responses-Conforms late_disconnect no_files plain none none 1 none false get_root turns
      (tt, (tt, (tt, (tt, tt))))
