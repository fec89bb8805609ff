-- ===== src/HttpStream/Handle.antt =====
-- `HTTPStream.handle`: the events that the protocol delivers.
use anycorn.Prelude.{ℕ, Bool, true, false, ◌&&◌, [], Option, none, some, if◌then◌else◌}
use anycorn.Exec.{Result, ok, err, raise, lift, gets, modify, skip, ◌>>=◌, ◌>>◌, assertion_error}
use anycorn.Bytes.{Bytes, Text, codes, is_in, partition}
use anycorn.Config.{TlsExtension}
use anycorn.Events.{Event, Request}
use anycorn.Utils.Percent.{decode_asgi_path, valid_request_target}
use anycorn.Utils.Names.{valid_server_name}
use anycorn.HttpStream.State.{
  HttpStream, Scope, Extensions, put, spawned, http_request, M, Interference,
}
use anycorn.HttpStream.Calls.{
  trailers_versions, sendfile_versions, call, on_stream_closed, send_error_response,
}

-- `Extensions()`, key by key
unfoldable pub extensions_for : HttpStream → Request → Extensions
extensions_for s r = record {
  tls = s.tls;
  trailers = is_in r.http_version trailers_versions;
  push = is_in r.http_version trailers_versions;
  early_hint = is_in r.http_version trailers_versions;
  pathsend = true;
  zerocopysend = is_in r.http_version sendfile_versions && s.zero_copy_send;
}

-- `"https" if self.tls is not None else "http"`
unfoldable pub scheme_of : Option TlsExtension → Text
scheme_of none = codes "http"
scheme_of (some tls) = codes "https"

unfoldable pub scope_for : HttpStream → Request → Text → Scope
unfolding extensions_for scheme_of
scope_for s r decoded_path = record {
  http_version = r.http_version;
  method = r.method;
  scheme = scheme_of s.tls;
  path = decoded_path;
  raw_path = (partition b'?' r.raw_path).0;
  query_string = (partition b'?' r.raw_path).1;
  root_path = s.config.root_path;
  headers = r.headers;
  client = s.client;
  server = s.server;
  state = r.state;
  extensions = extensions_for s r;
}

-- `self.app_put = await self.task_group.spawn_app(...)`; the scope has been set
unfoldable pub spawn_app : Scope → M (Unit {0})
spawn_app scope = do call (spawned scope); modify (λ s. record s { app_put = true })

-- `assert self.app_put is not None`, `await self.app_put(...)`
unfoldable pub put_body : Bytes → Bool → M (Unit {0})
put_body chunk more_body = do
  app_put ← gets (λ s. s.app_put)
  if app_put then call (put (http_request chunk more_body)) else raise assertion_error

module _ (env : Interference) where
  -- `await self._send_error_response(status)`, `self.closed = True`
  unfoldable pub refuse : ℕ → M (Unit {0})
  refuse status = do send_error_response env status; modify (λ s. record s { closed = true })

  -- From `extensions = Extensions()` on
  unfoldable pub handle_scope : Request → Text → M (Unit {0})
  handle_scope r decoded_path = do
    scope ← gets (λ s. scope_for s r decoded_path)
    modify (λ s. record s { scope = some scope })
    config ← gets (λ s. s.config)
    if valid_request_target (partition b'?' r.raw_path).0
        then (do
          valid ← lift (valid_server_name config r)
          if valid then spawn_app scope else refuse 404)
        else refuse 400

  -- `handle(Request)`, after `decode_asgi_path`
  unfoldable pub handle_decoded : Request → Result Text → M (Unit {0})
  handle_decoded r (err e) = refuse 400
  handle_decoded r (ok decoded_path) = handle_scope r decoded_path

  unfoldable pub on_request : Request → M (Unit {0})
  on_request r = handle_decoded r (decode_asgi_path (partition b'?' r.raw_path).0)

  unfoldable pub on_event : Event → M (Unit {0})
  on_event (Event.request id r) = on_request r
  on_event (Event.body id chunk) = put_body chunk true
  on_event (Event.end_body id) = put_body [] false
  on_event (Event.stream_closed id) = on_stream_closed
  on_event _ = skip

  unfoldable pub handle : Event → M (Unit {0})
  handle event = do closed ← gets (λ s. s.closed); if closed then skip else on_event event
