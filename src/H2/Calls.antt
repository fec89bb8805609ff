-- ===== src/H2/Calls.antt =====
-- The methods that the rest of `H2Protocol` (protocol/h2.py) uses: the calls of the server, of the
-- streams and of h2, and the send state of a stream. While a call of the server or of a stream is
-- awaited, the other tasks do what `others` says.
use anycorn.Prelude.{ℕ, zero, Bool, true, false, ◌&&◌, ◌||◌, List, [], ◌∷◌, Option, none, some}
use anycorn.Prelude.Dicts.{get, put, delete, keys}
use anycorn.Exec.{
  Exec, Error, Result, ok, err, raise, lift, gets, modify, skip, except, ◌>>=◌, ◌>>◌,
  buffer_complete, key_error, missing_stream, h2_protocol_error,
}
use anycorn.Bytes.{Bytes}
use anycorn.Connection.{ServerEvent, raw_data, StreamKind}
use anycorn.Events.{Event}
use anycorn.WorkerContext.{set}
use anycorn.H2.Buffer.{StreamBuffer}
use anycorn.H2.State.{World, Call, sent, delivered, H2Protocol}

-- `priority.MissingStreamError`
abbrev pub is_missing : Error → Bool
is_missing missing_stream = true
is_missing _ = false

-- `h2.exceptions.ProtocolError`, which `StreamClosedError` is too
abbrev pub is_protocol_error : Error → Bool
is_protocol_error h2_protocol_error = true
is_protocol_error _ = false

abbrev pub is_buffer_complete : Error → Bool
is_buffer_complete buffer_complete = true
is_buffer_complete _ = false

abbrev is_plain_key_error : Error → Bool
is_plain_key_error key_error = true
is_plain_key_error _ = false

-- The value for the key, or `KeyError`
abbrev pub found : {A : Type 0} → Option A → Result A
found none = err key_error
found (some a) = ok a

module _ (x : World) where
  abbrev pub Protocol : Type 0
  Protocol = H2Protocol x.h2.Connection x.tree.Tree

  abbrev pub M : Type 0 → Type 0
  M = Exec Protocol

  abbrev pub U : Type 0
  U = M (Unit {0})

  -- `KeyError`
  abbrev pub is_key_error : Error → Bool
  is_key_error e = is_plain_key_error e || (is_missing e && x.tree.missing_is_key_error)

  abbrev pub record_call : Call → Protocol → Protocol
  record_call c s = record s { calls = c ∷ s.calls }

  abbrev pub LibraryCall : Type 0 → Type 0
  LibraryCall A = x.h2.Connection → A × x.h2.Connection

  -- A call of the `H2Connection`
  unfoldable pub library : {A : Type 0} → LibraryCall (Result A) → M A
  library call s = ((call s.connection).0, record s { connection = (call s.connection).1 })

  abbrev pub in_tree : Protocol → Result x.tree.Tree → Result (Unit {0}) × Protocol
  in_tree s (ok tree) = (ok tt, record s { priority = tree })
  in_tree s (err e) = (err e, s)

  -- A call of the `PriorityTree`
  unfoldable pub prioritise : (x.tree.Tree → Result x.tree.Tree) → U
  prioritise call s = in_tree s (call s.priority)

  unfoldable pub set_has_data : U
  unfolding set
  set_has_data = modify (λ s. record s { has_data = set s.has_data })

  -- `self.stream_buffers[stream_id]`
  unfoldable pub buffer_of : ℕ → M StreamBuffer
  buffer_of id = do b ← gets (λ s. get id s.stream_buffers); lift (found b)

  -- The buffer has changed
  unfoldable pub set_buffer : ℕ → StreamBuffer → U
  set_buffer id b = modify (λ s. record s { stream_buffers = put id b s.stream_buffers })

  -- `self.stream_buffers.pop(stream_id, None)`. `close` sets the events of the buffer that it returns,
  -- so that the tasks that wait on it run again: they no longer find it.
  unfoldable pub drop_buffer : ℕ → U
  drop_buffer id = modify (λ s. record s { stream_buffers = delete id s.stream_buffers })

  -- `_discard_send_state`
  unfoldable pub discard_send_state : ℕ → U
  discard_send_state id = do drop_buffer id; except (prioritise (x.tree.remove id)) is_missing skip

  unfoldable pub unblock_all : List ℕ → U
  unblock_all [] = skip
  unblock_all (id ∷ ids) = do prioritise (x.tree.unblock id); unblock_all ids

  unfoldable pub unblock_stream : ℕ → Option StreamBuffer → U
  unblock_stream id none = skip
  unblock_stream id (some b) = prioritise (x.tree.unblock id)

  unfoldable pub unblock_for : Option ℕ → U
  unblock_for none = do ids ← gets (λ s. keys s.stream_buffers); unblock_all ids
  unblock_for (some zero) = do ids ← gets (λ s. keys s.stream_buffers); unblock_all ids
  unblock_for (some id) = do b ← gets (λ s. get id s.stream_buffers); unblock_stream id b

  -- `_window_updated`
  unfoldable pub window_updated : Option ℕ → U
  window_updated id = do unblock_for id; set_has_data

  module _ (others : U) where
    -- `await self.send(event)`
    unfoldable pub tell : ServerEvent → U
    tell e = do modify (record_call (sent e)); others

    -- `await stream.handle(event)`
    unfoldable pub deliver : Event → U
    deliver e = do modify (record_call (delivered e)); others

    unfoldable pub send_bytes : Bytes → U
    send_bytes [] = skip
    send_bytes (b ∷ bytes) = tell (raw_data (b ∷ bytes))

    -- `_flush`
    unfoldable pub flush : U
    flush = do
      chunk ← gets (λ s. (x.h2.data_to_send s.connection).0)
      modify (λ s. record s { connection = (x.h2.data_to_send s.connection).1 })
      send_bytes chunk

    unfoldable pub deliver_to : ℕ → Event → Option StreamKind → U
    deliver_to id e none = raise key_error
    deliver_to id e (some kind) = deliver e

    -- `await self.streams[stream_id].handle(event)`
    unfoldable pub forward : ℕ → Event → U
    forward id e = do kind ← gets (λ s. get id s.streams); deliver_to id e kind

    -- `self.streams.pop(stream_id)`, and `StreamClosed` for what it returns
    unfoldable pub take_leave : ℕ → U
    take_leave id = do
      modify (λ s.
          record_call (delivered (Event.stream_closed id))
            (record s { streams = delete id s.streams }))
      others
      set_has_data

    unfoldable pub close_if : ℕ → Option StreamKind → U
    close_if id none = skip
    close_if id (some kind) = take_leave id

    -- `_close_stream`
    unfoldable pub close_stream : ℕ → U
    close_stream id = do kind ← gets (λ s. get id s.streams); close_if id kind
