-- ===== src/WsStream/Buffer.antt =====
-- `WebsocketBuffer` (protocol/ws_stream.py): the fragments of one message.
pub mod Laws
use anycorn.Prelude.{
  ℕ, ◌+◌, Bool, true, false, List, [], ◌++◌, Option, none, some, length, ltb, if◌then◌else◌,
}
use anycorn.Exec.{Result, ok, err, frame_too_large, type_error}
use anycorn.Bytes.{Bytes, Text}
use anycorn.WsStream.State.{Value, text, bytes, WebsocketBuffer}

-- `self.value`, made where there is none yet, once a fragment is written to it, and how much that
-- wrote. A fragment of the other kind is refused by the `StringIO` or `BytesIO`.
unfoldable pub write : Option Value → Value → Result (Value × ℕ)
write none (text s) = ok (text s, length s)
write none (bytes s) = ok (bytes s, length s)
write (some (text t)) (text s) = ok (text (t ++ s), length s)
write (some (bytes t)) (bytes s) = ok (bytes (t ++ s), length s)
write (some (text t)) (bytes s) = err type_error
write (some (bytes t)) (text s) = err type_error

-- `extend`, once the fragment is written
unfoldable pub extended : WebsocketBuffer → Result (Value × ℕ) → Result (Unit {0}) × WebsocketBuffer
extended b (err e) = (err e, b)
extended b (ok (value, n)) =
    let b' = record b { value = some value; length = b.length + n } in
    (if ltb b.max_length (b.length + n) then err frame_too_large else ok tt, b')

-- `extend`
unfoldable pub extend : Value → WebsocketBuffer → Result (Unit {0}) × WebsocketBuffer
unfolding write extended
extend fragment b = extended b (write b.value fragment)

-- `clear`
unfoldable pub clear : WebsocketBuffer → WebsocketBuffer
clear b = record b { value = none; length = 0 }
