-- ===== src/Tests/Sockets.antt =====
-- A WebSocket, over a wsproto that takes each delivery for a message.
use anycorn.Prelude.{
  ◌≡◌, refl, true, false, List, [], ◌∷◌, ◌++◌, Option, none, some, length, inl, inr, map, ◌<◌,
  arith,
}
use anycorn.Exec.{ok, err, exception, attribute_error, frame_too_large, ◌>>=◌}
use anycorn.Bytes.{codes, partition, latin_lower, lower, is_in, starts_with}
use anycorn.Utf8.{decode, encode, encode_char}
use anycorn.Utils.Percent.{decode_asgi_path, valid_request_target}
use anycorn.Utils.Names.{valid_server_name}
use anycorn.Config.{Config}
use anycorn.Events.{Event, Request}
use anycorn.WsStream.State.{
  Wsproto, WsEvent, text_message, Message, str, Interference, new, Handshake, WsState, WsStream,
  sent, bytes,
}
use anycorn.WsStream.Handshake.{new_handshake, is_valid, Acceptance, accept}
use anycorn.WsStream.Calls.{
  events_loop, handle_events, the_handshake, the_connection, the_scope, await_call, send, send_data,
  send_wsproto_event,
}
use anycorn.WsStream.Handle.{handle, on_event, on_request, handle_decoded, check_request, spawn_app}
use anycorn.WsStream.AppSend.{app_send, on_message, on_accept, accepted, release, on_send, outgoing}
use anycorn.WsStream.Grammar.Deliver.{is_accepted}
use anycorn.WsStream.Grammar.{OnlyDisconnects, Conforms, phase}
use anycorn.WsStream.Buffer.Laws.{extend_all, empty, extend_all-over, bytes-IsKind}
use anycorn.WsStream.Handshake.Laws.{
  AreLower, IsOffered, subprotocols_of, header_for, accept-subprotocol,
}
use anycorn.WsStream.Loop.{Counts, handle_events_enough}
use anycorn.WsStream.Faults.{accept_and_end, accept_and_end_silent, overflow_answers_twice}
use mathlib.Core.List.{flatten}
use anycorn.WsStream.Grammar.Runs.{Turn, deliver, say, turn, run, requested, websocket-Conforms}
use anycorn.Tests.Http.{plain}

abbrev next : List WsEvent → Option WsEvent × List WsEvent
next [] = (none, [])
next (e ∷ events) = (some e, events)

abbrev messages : Wsproto
messages = record {
  Connection = List WsEvent;
  connection = λ offered deflate. [];
  split_comma_header = λ value. value ∷ [];
  server_extensions_handshake = λ offered deflate. [];
  generate_accept_token = λ key. key;
  receive_data = λ chunk events. ok (events ++ text_message chunk true ∷ []);
  next_event = next;
  send = λ e events. (some (codes "frame"), events);
  response = λ e. e;
  remote_closing = λ events. false;
  pending = length;
}

abbrev get_socket : Request
get_socket = record {
  headers =
      (codes "host", codes "a")
      ∷ (codes "connection", codes "Upgrade")
      ∷ (codes "upgrade", codes "websocket")
      ∷ (codes "sec-websocket-version", codes "13")
      ∷ (codes "sec-websocket-key", codes "k")
      ∷ [];
  http_version = codes "1.1";
  method = codes "GET";
  raw_path = codes "/ws";
  state = [];
}

abbrev undisturbed : Interference (List WsEvent)
undisturbed s = s

only_disconnects : OnlyDisconnects messages undisturbed
only_disconnects s = inl refl

abbrev turns : List Turn
turns =
    say (some (Message.accept none []))
    ∷ say (some (Message.send none (str (codes "hi"))))
    ∷ deliver (Event.raw 1 (codes "ho"))
    ∷ deliver (Event.stream_closed 1)
    ∷ say none
    ∷ []

-- The bytes that arrive have been asked for.
accepted_by_then :
    is_accepted
      (turn messages undisturbed (say (some (Message.send none (str (codes "hi"))))) (
        turn messages undisturbed
          (say (some (Message.accept none [])))
          (requested messages undisturbed plain none none 1 none get_socket))).handshake
    ≡ true
unfolding turn app_send ◌>>=◌ handle new on_event on_request handle_decoded decode_asgi_path
    partition decode check_request valid_request_target valid_server_name is_valid new_handshake
    latin_lower on_message on_accept the_handshake accept accepted send send_wsproto_event spawn_app
    await_call the_scope release on_send outgoing the_connection send_data
accepted_by_then = refl

websocket-Conforms_example : Conforms messages (
    run messages undisturbed turns
      (requested messages undisturbed plain none none 1 none get_socket))
websocket-Conforms_example =
    websocket-Conforms messages undisturbed only_disconnects plain none none 1 none get_socket turns
      (tt, (tt, (inr (inl accepted_by_then), (tt, (tt, tt)))))

abbrev asked : Handshake
asked = record {
  accepted = false;
  http_version = codes "1.1";
  websocket_permessage_deflate = false;
  connection_tokens = none;
  extensions = none;
  key = some (codes "k");
  subprotocols = none;
  upgrade = none;
  version = some (codes "13");
}

abbrev small : Config
small = record plain { websocket_max_message_size = 2 }

abbrev pending_stream : WsStream (List WsEvent)
pending_stream = record {
  app_put = true;
  buffer = empty 2;
  client = none;
  closed = false;
  close_code = none;
  config = small;
  response = none;
  scope = none;
  server = none;
  state = WsState.handshake;
  pre_accept_data = [];
  stream_id = 1;
  tls = none;
  connection = none;
  handshake = some asked;
  calls = [];
}

-- An application that answers with a subprotocol nobody offered
not_offered : accept messages asked (some (codes "chat")) [] ≡ err exception
unfolding accept
not_offered = refl

accept_and_end_silent_example :
    ((accept_and_end messages undisturbed (some (codes "chat")) [] pending_stream).0
      ≡ err attribute_error)
    × ((accept_and_end messages undisturbed (some (codes "chat")) [] pending_stream).1.calls ≡ [])
accept_and_end_silent_example =
    accept_and_end_silent messages undisturbed pending_stream asked (some (codes "chat")) []
      exception refl refl refl refl not_offered

-- A denial has begun.
abbrev denying : WsStream (List WsEvent)
denying = record pending_stream {
  state = WsState.response;
  calls = sent (Event.response 1 [] 404) ∷ [];
}

overflow_answers_twice_example :
    phase (handle messages undisturbed (Event.body 1 (codes "abc")) denying).1.calls ≡ none
overflow_answers_twice_example =
    overflow_answers_twice messages undisturbed only_disconnects denying asked 1 (codes "abc") refl
      refl refl refl refl

extend_all-over_example :
    (extend_all (map bytes (codes "ab" ∷ codes "c" ∷ [])) (empty 2)).0 ≡ err frame_too_large
unfolding flatten
extend_all-over_example = extend_all-over bytes bytes-IsKind 2 (codes "ab") (codes "c" ∷ []) three
  where
    three : 2 < length (flatten (codes "ab" ∷ codes "c" ∷ []))
    three = omega arith

abbrev offering : Handshake
offering = record asked { subprotocols = some (codes "chat" ∷ []) }

abbrev answer : Acceptance messages
answer = record {
  status_code = 101;
  headers =
      (codes "sec-websocket-protocol", codes "chat")
      ∷ (codes "sec-websocket-accept", codes "k")
      ∷ (codes "upgrade", codes "WebSocket")
      ∷ (codes "connection", codes "Upgrade")
      ∷ (codes "x", codes "y")
      ∷ [];
  connection = [];
}

answered : accept messages offering (some (codes "chat")) ((codes "x", codes "y") ∷ []) ≡ ok answer
unfolding accept is_in starts_with encode encode_char
answered = refl

x-AreLower : AreLower ((codes "x", codes "y") ∷ [])
unfolding lower
x-AreLower = (refl, tt)

accept-subprotocol_example :
    IsOffered (some (codes "chat")) (some (codes "chat" ∷ []))
    × (subprotocols_of answer.headers ≡ header_for (some (codes "chat")))
accept-subprotocol_example =
    accept-subprotocol messages offering (some (codes "chat")) ((codes "x", codes "y") ∷ []) answer
      x-AreLower answered

next-less : (c : List WsEvent) (e : WsEvent) → (next c).0 ≡ some e → length (next c).1 < length c
next-less [] e h = absurd cc
next-less (x ∷ c) e h = omega arith

messages-Counts : Counts messages
messages-Counts = record { next_event_less = next-less; send_no_more = λ e c. omega arith }

abbrev greeted : WsStream (List WsEvent)
greeted = record pending_stream { connection = some (text_message (codes "hi") true ∷ []) }

handle_events_enough_example :
    events_loop messages undisturbed 5 greeted ≡ handle_events messages undisturbed greeted
handle_events_enough_example =
    handle_events_enough messages messages-Counts undisturbed (λ s. refl) 5 greeted
      (text_message (codes "hi") true ∷ []) refl five
  where
    five : length (text_message (codes "hi") true ∷ []) < 5
    five = omega arith
