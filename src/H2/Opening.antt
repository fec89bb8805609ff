-- ===== src/H2/Opening.antt =====
-- How `H2Protocol` (protocol/h2.py) opens streams: `_create_stream` and `_create_server_push`.
use anycorn.Prelude.{ℕ, suc, Bool, true, false, [], ◌∷◌, ◌++◌, none, if◌then◌else◌}
use anycorn.Prelude.Dicts.{put}
use anycorn.Exec.{
  Error, Result, ok, err, raise, lift, gets, modify, skip, ◌>>=◌, ◌>>◌, duplicate_stream,
}
use anycorn.Bytes.{Bytes, Text, Headers, codes}
use anycorn.Config.{Config}
use anycorn.Connection.{StreamKind}
use anycorn.Events.{Event, Request}
use anycorn.Connection.Pseudo.{read_target, kind_of, request_of}
use anycorn.H2.Buffer
use anycorn.H2.State.{World, opened, abandoned, marked}
use anycorn.H2.Calls.{
  Protocol, M, U, record_call, library, prioritise, set_buffer, deliver, flush, forward,
  is_protocol_error,
}

-- `priority.DuplicateStreamError`
abbrev pub is_duplicate : Error → Bool
is_duplicate duplicate_stream = true
is_duplicate _ = false

abbrev pub response_headers : Config → Headers
response_headers config = config.response_headers (codes "h2")

module _ (x : World) where
  -- `self.streams[stream_id] = ...(...)`
  unfoldable pub open_stream : ℕ → StreamKind → U x
  open_stream id kind =
      modify (λ s. record_call x (opened id kind) (record s { streams = put id kind s.streams }))

  -- The priority of a stream that has none yet
  unfoldable pub give_priority : ℕ → Result x.tree.Tree → U x
  give_priority id (ok tree) = do
    modify (λ s. record s { priority = tree })
    prioritise x (x.tree.block id)
  give_priority id (err e) = if is_duplicate e then skip else raise e

  unfoldable pub enter_tree : ℕ → U x
  enter_tree id = do tree ← gets (λ s. x.tree.insert id none s.priority); give_priority id tree

  -- What leaves `_create_stream` between the stream and its first call
  unfoldable pub abandon : ℕ → Error → {A : Type 0} → M x A
  abandon id e = do modify (record_call x (abandoned id)); raise e

  unfoldable pub or_abandon : ℕ → {A : Type 0} → Result A × Protocol x → Result A × Protocol x
  or_abandon id (ok a, s) = (ok a, s)
  or_abandon id (err e, s) = abandon id e s

  -- From the stream to its first call
  unfoldable pub prepare : ℕ → Text → Bytes → Headers → M x Request
  prepare id method raw_path headers = do
    set_buffer x id Buffer.new
    enter_tree id
    state ← gets (λ s. s.connection_state)
    lift (request_of (codes "2") state method raw_path headers)

  module _ (others : U x) where
    unfoldable pub open_with : ℕ → Headers → Text × Bytes → U x
    open_with id headers (method, raw_path) = do
      open_stream id (kind_of method)
      r ← (λ s. or_abandon id (prepare id method raw_path headers s))
      deliver x others (Event.request id r)
      modify
          (λ s. record_call x marked (record s { keep_alive_requests = suc s.keep_alive_requests }))

    -- `_create_stream`
    unfoldable pub create_stream : ℕ → Headers → U x
    create_stream id headers = do
      target ← lift (read_target headers ([], []))
      open_with id headers target

    -- `_create_stream`, and the end of its body
    unfoldable pub create_whole : ℕ → Headers → U x
    create_whole id headers = do create_stream id headers; forward x others id (Event.end_body id)

    abbrev pub push_headers : Bytes → Headers → Config → Headers
    push_headers path headers config =
        ((codes ":method", codes "GET") ∷ (codes ":path", path) ∷ headers)
        ++ response_headers config

    unfoldable pub promise : ℕ → ℕ → Headers → U x
    promise id promised headers = do
      library x (x.h2.push_stream id promised headers)
      flush x others

    abbrev pub on_promised :
        ℕ → Headers → Result (Unit {0}) × Protocol x → Result (Unit {0}) × Protocol x
    on_promised promised headers (ok u, s) = create_whole promised headers s
    on_promised promised headers (err e, s) = if is_protocol_error e then (ok tt, s) else (err e, s)

    -- `_create_server_push`
    unfoldable pub create_server_push : ℕ → Bytes → Headers → U x
    create_server_push id path headers = do
      c ← gets (λ s. s.connection)
      promised ← lift (x.h2.next_available_stream_id c)
      config ← gets (λ s. s.config)
      (λ s.
          on_promised promised (push_headers path headers config)
            (promise id promised (push_headers path headers config) s))
