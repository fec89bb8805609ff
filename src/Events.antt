-- ===== src/Events.antt =====
-- protocol/events.py: the events between a protocol and a stream. `ConnectionState` is a dictionary
-- of shared objects, here from keys to the objects' identities.
use anycorn.Prelude.{ℕ, List, ◌-◌, leb, if◌then◌else◌, ltb, ◌||◌}
use anycorn.Exec.{Result, ok, err, value_error}
use anycorn.Bytes.{Bytes, Text, Headers}

abbrev pub ConnectionState : Type 0
ConnectionState = List (Text × ℕ)

-- The fields of `Request`, without the stream's number.
pub record Request : Type 0 where
  pub headers : Headers
  pub http_version : Text
  pub method : Text
  pub raw_path : Bytes
  pub state : ConnectionState

-- A count of bytes, which `st_size - offset` can make negative: `negsuc n` is -(n + 1).
pub data ℤ : Type 0 where
  pos : ℕ → ℤ
  negsuc : ℕ → ℤ

abbrev pub sub_ℕ : ℕ → ℕ → ℤ
sub_ℕ a b = if leb b a then pos (a - b) else negsuc (b - a - 1)

-- The events, each with its `stream_id` first.
pub data Event : Type 0 where
  request : ℕ → Request → Event
  body : ℕ → Bytes → Event
  end_body : ℕ → Event
  zero_copy_send : ℕ → ℕ → ℕ → ℤ → Event
  trailers : ℕ → Headers → Event
  raw : ℕ → Bytes → Event
  end_raw : ℕ → Event
  response : ℕ → Headers → ℕ → Event
  informational : ℕ → Headers → ℕ → Event
  stream_closed : ℕ → Event

-- `InformationalResponse(...)`, which `__post_init__` refuses outside 1XX.
unfoldable pub informational_response : ℕ → Headers → ℕ → Result Event
informational_response stream_id headers status =
    if leb 200 status || ltb status 100
    then err value_error
    else ok (informational stream_id headers status)
