-- ===== src/HttpStream/AppSend.antt =====
-- `HTTPStream.app_send`: the messages of the application, `none` when it has finished.
use anycorn.Prelude.{
  ℕ, Bool, true, false, not, ◌&&◌, List, [], ◌∷◌, ◌++◌, Option, none, some, map, if◌then◌else◌,
}
use anycorn.Exec.{
  pure, raise, lift, gets, modify, when, ◌>>=◌, ◌>>◌, unexpected_message, type_error,
}
use anycorn.Bytes.{Bytes, Text, Headers, codes, eq, is_in, strip}
use anycorn.Utf8.{encode}
use anycorn.Events.{
  ℤ, pos, sub_ℕ, request, response, body, trailers, stream_closed, informational_response,
}
use anycorn.Sendfile.{Os}
use anycorn.Utils.Headers.{suppress_body, build_and_validate_headers}
use anycorn.HttpStream.State.{
  HttpState, Message, sent, is_request, is_response, is_trailers, M, Interference,
}
use anycorn.HttpStream.Calls.{
  trailers_versions, the_scope, the_response, await_call, send, send_closed, send_error_response,
  finish_body, send_zerocopy_body, send_pathsend,
}

-- `name == b"te" and value == b"trailers"` for some header
unfoldable pub accepts_trailers : Headers → Bool
accepts_trailers [] = false
accepts_trailers ((name, value) ∷ headers) =
    if eq name (codes "te") && eq value (codes "trailers") then true else accepts_trailers headers

-- The `host` headers of a request as the `:authority` headers of a push
unfoldable pub authorities : Headers → Headers
authorities [] = []
authorities ((name, value) ∷ headers) =
    let rest = authorities headers in
    if eq name (codes "host") then (codes ":authority", value) ∷ rest else rest

abbrev pub unexpected : M (Unit {0})
unexpected = raise unexpected_message

abbrev pub set_state : HttpState → M (Unit {0})
set_state state = modify (λ s. record s { state = state })

unfoldable pub push_path : Option Text → M Text
push_path none = raise type_error
push_path (some path) = pure path

abbrev pub is_empty : Bytes → Bool
is_empty [] = true
is_empty (b ∷ s) = false

module _ (env : Interference) where
  unfoldable pub on_finished : M (Unit {0})
  on_finished = do
    closed ← gets (λ s. s.closed)
    state ← gets (λ s. s.state)
    when (not closed)
        (if is_request state then send_error_response env 500 else send env stream_closed)

  -- The messages, each with the branch that takes it, or the last `else`.
  unfoldable pub on_start : ℕ → Headers → Bool → M (Unit {0})
  on_start status headers has_trailers = do
    state ← gets (λ s. s.state)
    if is_request state
        then (do
          modify (λ s. record s {
            response =
                some (record { status = status; headers = headers; trailers = has_trailers });
          })
          validated ← lift (build_and_validate_headers headers)
          send env (λ id. response id validated status)
          set_state HttpState.response)
        else unexpected

  unfoldable pub on_push : Option Text → Headers → M (Unit {0})
  on_push path headers = do
    scope ← the_scope
    if is_in scope.http_version trailers_versions
        then (do
          target ← push_path path
          validated ← lift (build_and_validate_headers headers)
          send env (λ id. request id (record {
            headers =
                (codes ":scheme", encode scope.scheme) ∷ (authorities scope.headers ++ validated);
            http_version = scope.http_version;
            method = codes "GET";
            raw_path = encode target;
            state = scope.state;
          })))
        else unexpected

  unfoldable pub on_early_hint : List Bytes → M (Unit {0})
  on_early_hint links = do
    scope ← the_scope
    state ← gets (λ s. s.state)
    stream_id ← gets (λ s. s.stream_id)
    if is_in scope.http_version trailers_versions && is_request state
        then (do
          hint ← lift (
              informational_response stream_id (map (λ link. (codes "link", strip link)) links) 103)
          await_call env (sent hint))
        else unexpected

  unfoldable pub on_body : Bytes → Bool → M (Unit {0})
  on_body chunk more_body = do
    state ← gets (λ s. s.state)
    if is_response state
        then (do
          scope ← the_scope
          r ← the_response
          when (not (suppress_body scope.method r.status) && not (is_empty chunk))
              (send env (λ id. body id chunk))
          finish_body env more_body)
        else unexpected

  -- The response that trailers start when no response has started
  unfoldable pub start_by_trailers : Headers → M (Unit {0})
  start_by_trailers headers = do
    validated ← lift (build_and_validate_headers headers)
    modify (λ s. record s {
      response = some (record { status = 200; headers = validated; trailers = false });
    })
    send env (λ id. response id validated 200)
    set_state HttpState.trailers

  unfoldable pub on_trailers : Headers → Bool → M (Unit {0})
  on_trailers headers more_trailers = do
    scope ← the_scope
    state ← gets (λ s. s.state)
    if is_in scope.http_version trailers_versions && is_request state
        then (do
          when (accepts_trailers scope.headers) (start_by_trailers headers)
          after ← gets (λ s. s.state)
          when (is_trailers after && not more_trailers) (send_closed env))
        else if is_in scope.http_version trailers_versions && is_trailers state
        then (do
          when (accepts_trailers scope.headers) (do
            validated ← lift (build_and_validate_headers headers)
            send env (λ id. trailers id validated))
          when (not more_trailers) (send_closed env))
        else unexpected

  module _ (os : Os) where
    unfoldable pub on_pathsend : Text → M (Unit {0})
    on_pathsend path = do
      state ← gets (λ s. s.state)
      if is_response state then send_pathsend env os path else unexpected

    -- `offset` and `count` where the message leaves them out
    abbrev pub resolve_offset : ℕ → Option ℕ → ℕ
    resolve_offset fileno none = os.file_position fileno
    resolve_offset fileno (some offset) = offset

    abbrev pub resolve_count : ℕ → ℕ → Option ℕ → ℤ
    resolve_count fileno offset none = sub_ℕ (os.file_size fileno) offset
    resolve_count fileno offset (some count) = pos count

    unfoldable pub on_zerocopysend : ℕ → Option ℕ → Option ℕ → Bool → M (Unit {0})
    on_zerocopysend fileno offset count more_body = do
      state ← gets (λ s. s.state)
      if is_response state
          then (let from = resolve_offset fileno offset in
              send_zerocopy_body env os fileno from (resolve_count fileno from count) more_body)
          else unexpected

    unfoldable pub app_send : Option Message → M (Unit {0})
    app_send none = on_finished
    app_send (some (Message.start status headers has_trailers)) =
        on_start status headers has_trailers
    app_send (some (Message.push path headers)) = on_push path headers
    app_send (some (Message.early_hint links)) = on_early_hint links
    app_send (some (Message.body chunk more_body)) = on_body chunk more_body
    app_send (some (Message.pathsend path)) = on_pathsend path
    app_send (some (Message.zerocopysend fileno offset count more_body)) =
        on_zerocopysend fileno offset count more_body
    app_send (some (Message.trailers headers more_trailers)) = on_trailers headers more_trailers
    app_send (some Message.other) = unexpected
