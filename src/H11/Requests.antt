-- ===== src/H11/Requests.antt =====
-- What the headers of a request ask for, in `H11Protocol` (protocol/h11.py).
use anycorn.Prelude.{
  ℕ, Bool, false, not, ◌&&◌, ◌||◌, [], ◌∷◌, ◌++◌, none, some, any, ltb, leb, ◌-◌, map,
  if◌then◌else◌, all,
}
use anycorn.Exec.{Error, Result, ok, err, ◌>>?◌, h2c_required, unicode_decode_error}
use anycorn.Bytes.{Bytes, Text, Headers, codes, eq, lower, split, latin_strip, latin_lower}
use anycorn.Utf8.{decode}
use anycorn.Config.{Config}
use anycorn.Events.{Request, ConnectionState}
use anycorn.H11.State.{H11Request, StreamKind, http_stream, ws_stream}

-- `name.decode("latin1").strip().lower()`
abbrev pub sanitised : Bytes → Text
sanitised name = latin_lower (latin_strip name)

-- The value of the last header of this name, or the one given
unfoldable pub last_value : Text → Text → Headers → Text
last_value name found [] = found
last_value name found ((raw_name, value) ∷ headers) =
    last_value name (if eq (sanitised raw_name) name then latin_strip value else found) headers

unfoldable pub has_body : Headers → Bool
has_body [] = false
has_body ((name, value) ∷ headers) =
    (eq (sanitised name) (codes "content-length")
      || eq (sanitised name) (codes "transfer-encoding"))
    || has_body headers

abbrev pub upper_char : ℕ → ℕ
upper_char c = if leb b'a' c && leb c b'z' then c - 32 else c

-- `s.decode("ascii").upper()`
unfoldable pub ascii_upper : Bytes → Result Text
ascii_upper s = if all (λ c. ltb c 128) s then ok (map upper_char s) else err unicode_decode_error

-- `s.decode()`
unfoldable pub decoded : Bytes → Result Text
decoded s = elim (decode s) [ none ↦ err unicode_decode_error | some text ↦ ok text ]

-- The tokens of the Connection header ask for an upgrade to WebSocket.
unfoldable pub asks_for_websocket : Headers → Bool
unfolding last_value
asks_for_websocket headers =
    any (λ token. eq (latin_strip token) (codes "upgrade"))
      (split b',' (latin_lower (last_value (codes "connection") [] headers)))
    && eq (latin_lower (last_value (codes "upgrade") [] headers)) (codes "websocket")

-- Which stream `_create_stream` makes
unfoldable pub stream_kind : H11Request → Result StreamKind
unfolding asks_for_websocket ascii_upper
stream_kind r =
    if asks_for_websocket r.headers
    then (ascii_upper r.method >>? λ method.
        ok (if eq method (codes "GET") then ws_stream else http_stream))
    else ok http_stream

-- The `Request` that `_create_stream` hands to the stream
unfoldable pub stream_request : Config → ConnectionState → H11Request → Result Request
stream_request config state r = decoded r.http_version >>? λ http_version.
    ascii_upper r.method >>? λ method. ok (record {
      headers = if config.h11_pass_raw_headers then r.raw_items else r.headers;
      http_version = http_version;
      method = method;
      raw_path = r.target;
      state = state;
    })

-- The headers of `H2CProtocolRequiredError`, and its settings
unfoldable pub h2c_headers : Headers → Headers
h2c_headers [] = []
h2c_headers ((name, value) ∷ headers) =
    (if eq (lower name) (codes "http2-settings")
      then []
      else (if eq (lower name) (codes "host") then (codes ":authority", value) ∷ [] else []))
    ++ ((name, value) ∷ h2c_headers headers)

unfoldable pub h2c_settings : Text → Headers → Result Text
unfolding decoded
h2c_settings settings [] = ok settings
h2c_settings settings ((name, value) ∷ headers) =
    let kept = h2c_settings settings headers in
    if eq (lower name) (codes "http2-settings")
    then (decoded value >>? λ text. h2c_settings text headers)
    else kept

-- `H2CProtocolRequiredError(...)`
unfoldable pub h2c_protocol_required : Bytes → H11Request → Result Error
unfolding h2c_headers h2c_settings
h2c_protocol_required chunk r = h2c_settings [] r.headers >>? λ settings. ok (
    h2c_required chunk
      ((codes ":method", r.method) ∷ (codes ":path", r.target) ∷ h2c_headers r.headers) settings)

-- `upgrade_value.lower() == "h2c" and not has_body`
unfoldable pub asks_for_h2c : Headers → Bool
unfolding last_value has_body
asks_for_h2c headers =
    eq (latin_lower (last_value (codes "upgrade") [] headers)) (codes "h2c")
    && not (has_body headers)

-- The preface of HTTP/2
unfoldable pub is_preface : H11Request → Bool
is_preface r =
    eq r.method (codes "PRI") && (eq r.target (codes "*") && eq r.http_version (codes "2.0"))

abbrev pub preface : Bytes
preface = codes "PRI * HTTP/2.0\r\n\r\n"
