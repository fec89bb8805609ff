-- ===== src/Connection.antt =====
-- What the protocols of a connection share: the events of events.py, the kinds of streams, and the
-- calls of a protocol that has many streams.
pub mod Lives
pub mod Pseudo
use anycorn.Prelude.{ℕ, Bool}
use anycorn.Bytes.{Bytes}
use anycorn.Events.{Event, ℤ}

-- events.py: what the protocol tells the server
pub data ServerEvent : Type 0 where
  raw_data : Bytes → ServerEvent
  send_file : ℕ → ℕ → ℤ → ServerEvent
  updated : Bool → ServerEvent
  closed : ServerEvent

pub data StreamKind : Type 0 where
  http_stream ws_stream : StreamKind

-- Who sends: the stream, within the call that is awaited, or a task of its application
pub data Sender : Type 0 where
  stream application : Sender

-- The calls, in their order. `abandoned` is a stream whose request could not be made: the exception
-- leaves `_create_stream` before the stream has been called. `dropped` is a stream that has closed
-- itself, `flushed` the call that sends what there is to send, `was_reset` a stream that the peer has
-- reset, `wrote` headers or data written to a stream and `promised` the headers of a push promise
-- written to it: these five over HTTP/3.
pub data Call : Type 0 where
  sent : ServerEvent → Call
  opened : ℕ → StreamKind → Call
  abandoned : ℕ → Call
  delivered : Event → Call
  marked : Call
  dropped : ℕ → Call
  flushed : Call
  was_reset : ℕ → Call
  wrote : ℕ → Call
  promised : ℕ → Call
