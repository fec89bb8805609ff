-- ===== src/HttpStream/Calls.antt =====
-- The private methods of `HTTPStream`. The connection can end while a call on the protocol or on
-- the log is awaited, and `handle(StreamClosed)` then runs in the middle of the method: after each
-- such call the parameter `env` says whether it does. The other events that can arrive meanwhile
-- only put messages to the application.
use anycorn.Prelude.{
  ℕ, zero, Bool, true, false, not, List, [], ◌∷◌, Option, none, some, if◌then◌else◌,
}
use anycorn.Exec.{ok, err, raise, gets, modify, skip, when, ◌>>=◌, ◌>>◌, attribute_error, os_error}
use anycorn.Bytes.{Bytes, Text, Headers, codes, is_in}
use anycorn.Events.{Event, ℤ, pos, negsuc, response, end_body, stream_closed, zero_copy_send, body}
use anycorn.Sendfile.{Os, read_file_chunks}
use anycorn.Utils.Headers.{suppress_body}
use anycorn.HttpStream.State.{
  HttpState, HttpStream, Scope, ResponseStart, Call, sent, put, logged, opened, released,
  http_disconnect, is_closed, M, Interference,
}

-- `TRAILERS_VERSIONS`, `PUSH_VERSIONS` and `EARLY_HINTS_VERSIONS` are the same set.
abbrev pub trailers_versions : List Text
trailers_versions = codes "2" ∷ codes "3" ∷ []

abbrev pub sendfile_versions : List Text
sendfile_versions = codes "1.0" ∷ codes "1.1" ∷ []

abbrev pub record_call : Call → HttpStream → HttpStream
record_call c s = record s { calls = c ∷ s.calls }

-- `self.scope` and `self.response`
unfoldable pub the_scope : M Scope
the_scope s = elim s.scope [ none ↦ (err attribute_error, s) | some scope ↦ (ok scope, s) ]

unfoldable pub the_response : M ResponseStart
the_response s = elim s.response [ none ↦ (err attribute_error, s) | some r ↦ (ok r, s) ]

unfoldable pub call : Call → M (Unit {0})
call c = modify (record_call c)

-- `handle(StreamClosed)` of a stream that is not closed.
unfoldable pub on_stream_closed : M (Unit {0})
unfolding ◌>>=◌ the_scope call
on_stream_closed = do
  modify (λ s. record s { closed = true })
  state ← gets (λ s. s.state)
  when (not (is_closed state)) (do scope ← the_scope; call (logged scope none))
  app_put ← gets (λ s. s.app_put)
  when app_put (call (put http_disconnect))

-- The same, where the stream may be closed already; an exception ends the task that delivered the
-- event and not the method that was interrupted.
unfoldable pub interrupt : HttpStream → HttpStream
unfolding on_stream_closed
interrupt s = if s.closed then s else (on_stream_closed s).1

module _ (env : Interference) where
  -- a call that is awaited
  unfoldable pub await_call : Call → M (Unit {0})
  await_call c s =
      let s' = record_call c s in (ok tt, if env (c ∷ s.calls) then interrupt s' else s')

  -- `await self.send(event)`
  unfoldable pub send : (ℕ → Event) → M (Unit {0})
  send event = do stream_id ← gets (λ s. s.stream_id); await_call (sent (event stream_id))

  -- `_send_closed`
  unfoldable pub send_closed : M (Unit {0})
  send_closed = do
    modify (λ s. record s { state = HttpState.closed })
    send end_body
    scope ← the_scope
    r ← the_response
    await_call (logged scope (some r))
    send stream_closed

  abbrev pub error_headers : Headers
  error_headers = (codes "content-length", codes "0") ∷ (codes "connection", codes "close") ∷ []

  -- `if hasattr(self, "scope")`
  abbrev pub log_error : ℕ → Option Scope → M (Unit {0})
  log_error status none = skip
  log_error status (some scope) =
      await_call (logged scope (some (record { status = status; headers = []; trailers = false })))

  -- `_send_error_response`
  unfoldable pub send_error_response : ℕ → M (Unit {0})
  send_error_response status_code = do
    modify (λ s. record s { state = HttpState.closed })
    send (λ id. response id error_headers status_code)
    send end_body
    scope ← gets (λ s. s.scope)
    log_error status_code scope
    send stream_closed

  -- What a body message does last: `if not more_body`.
  unfoldable pub finish_body : Bool → M (Unit {0})
  finish_body more_body = when (not more_body) (do
    r ← the_response
    if r.trailers then modify (λ s. record s { state = HttpState.trailers }) else send_closed)

  -- `async for chunk in ...: await self.send(Body(...))`
  unfoldable pub send_chunks : List Bytes → M (Unit {0})
  send_chunks [] = skip
  send_chunks (chunk ∷ chunks) = do send (λ id. body id chunk); send_chunks chunks

  module _ (os : Os) where
    abbrev pub positive : ℤ → ℕ
    positive (pos n) = n
    positive (negsuc n) = zero

    -- `_send_zerocopy_body`
    unfoldable pub send_zerocopy_body : ℕ → ℕ → ℤ → Bool → M (Unit {0})
    send_zerocopy_body fileno offset count more_body = do
      scope ← the_scope
      r ← the_response
      when (not (suppress_body scope.method r.status)) (
          if is_in scope.http_version sendfile_versions
          then send (λ id. zero_copy_send id fileno offset count)
          else send_chunks (read_file_chunks os fileno offset (positive count)))
      finish_body more_body

    -- `try: m finally: f`, for an `f` that does not raise
    unfoldable pub finally : M (Unit {0}) → (HttpStream → HttpStream) → M (Unit {0})
    finally m f s = let (r, s') = m s in (r, f s')

    -- `_send_pathsend`, after `os.open`
    unfoldable pub send_opened : Option ℕ → M (Unit {0})
    send_opened none = raise os_error
    send_opened (some fd) = do
      call (opened fd)
      finally (send_zerocopy_body fd 0 (pos (os.file_size fd)) false) (record_call (released fd))

    -- `_send_pathsend`
    unfoldable pub send_pathsend : Text → M (Unit {0})
    send_pathsend path = send_opened (os.open_file path)
