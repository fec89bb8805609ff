-- ===== src/WsStream/Handle.antt =====
-- `WSStream.handle` (protocol/ws_stream.py): the events that the protocol delivers.
use anycorn.Prelude.{ℕ, ◌+◌, true, List, [], ◌++◌, Option, none, some, length, ltb, if◌then◌else◌}
use anycorn.Exec.{Result, ok, err, lift, gets, modify, skip, ◌>>=◌, ◌>>◌}
use anycorn.Bytes.{Bytes, Text, codes, partition}
use anycorn.Config.{TlsExtension}
use anycorn.Events.{Event, Request}
use anycorn.Utils.Percent.{decode_asgi_path, valid_request_target}
use anycorn.Utils.Names.{valid_server_name}
use anycorn.WsStream.State.{Wsproto, Handshake, WebsocketScope, put, spawned, connect, Interference}
use anycorn.WsStream.Handshake.{new_handshake, is_valid}
use anycorn.WsStream.Calls.{
  Stream, M, record_call, on_stream_closed, the_handshake, the_connection, set_connection,
  await_call, send_error_response, handle_events,
}

-- `"wss" if self.tls is not None else "ws"`
unfoldable pub scheme_of : Option TlsExtension → Text
scheme_of none = codes "ws"
scheme_of (some tls) = codes "wss"

-- `self.handshake.subprotocols or []`
abbrev offered : Option (List Text) → List Text
offered none = []
offered (some subprotocols) = subprotocols

module _ (w : Wsproto) where
  unfoldable pub scope_for : Stream w → Request → Handshake → Text → WebsocketScope
  unfolding scheme_of
  scope_for s r h decoded_path = record {
    tls = s.tls;
    scheme = scheme_of s.tls;
    http_version = r.http_version;
    path = decoded_path;
    raw_path = (partition b'?' r.raw_path).0;
    query_string = (partition b'?' r.raw_path).1;
    root_path = s.config.root_path;
    headers = r.headers;
    client = s.client;
    server = s.server;
    state = r.state;
    subprotocols = offered h.subprotocols;
  }

  module _ (env : Interference w.Connection) where
    -- `await self._send_error_response(status)`, `self.closed = True`
    unfoldable pub refuse : ℕ → M w (Unit {0})
    refuse status = do send_error_response w env status; modify (λ s. record s { closed = true })

    -- `spawn_app`, and the first message to the application
    unfoldable pub spawn_app : WebsocketScope → M w (Unit {0})
    spawn_app scope = do
      modify (record_call w (spawned scope))
      modify (λ s. record s { app_put = true })
      await_call w env (put connect)

    -- From `valid_request_target` on
    unfoldable pub check_request : Request → Handshake → WebsocketScope → M w (Unit {0})
    check_request r h scope = do
      config ← gets (λ s. s.config)
      if valid_request_target (partition b'?' r.raw_path).0
          then (do
            valid ← lift (valid_server_name config r)
            if valid then (if is_valid h then spawn_app scope else refuse 400) else refuse 404)
          else refuse 400

    unfoldable pub handle_decoded : Request → Handshake → Result Text → M w (Unit {0})
    handle_decoded r h (err e) = refuse 400
    handle_decoded r h (ok decoded_path) = do
      scope ← gets (λ s. scope_for s r h decoded_path)
      modify (λ s. record s { scope = some scope })
      check_request r h scope

    unfoldable pub on_request : Request → M w (Unit {0})
    on_request r = do
      config ← gets (λ s. s.config)
      let h = new_handshake w r.headers r.http_version config.websocket_permessage_deflate
      modify (λ s. record s { handshake = some h })
      handle_decoded r h (decode_asgi_path (partition b'?' r.raw_path).0)

    -- Bytes before the application has accepted are held, up to the size of a message.
    unfoldable pub hold : Bytes → M w (Unit {0})
    hold chunk = do
      pre ← gets (λ s. s.pre_accept_data)
      config ← gets (λ s. s.config)
      if ltb config.websocket_max_message_size (length pre + length chunk)
          then refuse 400
          else modify (λ s. record s { pre_accept_data = s.pre_accept_data ++ chunk })

    -- `self.connection.receive_data(data)`, `await self._handle_events()`
    unfoldable pub receive_data : Bytes → M w (Unit {0})
    receive_data chunk = do
      c ← the_connection w
      c' ← lift (w.receive_data chunk c)
      set_connection w c'
      handle_events w env

    unfoldable pub on_data : Bytes → M w (Unit {0})
    on_data chunk = do h ← the_handshake w; if h.accepted then receive_data chunk else hold chunk

    unfoldable pub on_event : Event → M w (Unit {0})
    on_event (Event.request id r) = on_request r
    on_event (Event.body id chunk) = on_data chunk
    on_event (Event.raw id chunk) = on_data chunk
    on_event (Event.stream_closed id) = modify (on_stream_closed w)
    on_event _ = skip

    unfoldable pub handle : Event → M w (Unit {0})
    handle event = do closed ← gets (λ s. s.closed); if closed then skip else on_event event
