-- ===== src/Connection/Pseudo.antt =====
-- The pseudo headers of HTTP/2 and HTTP/3: what `_create_stream` of both reads from them
-- (protocol/h2.py, protocol/h3.py), and the status that `stream_send` of both writes.
use anycorn.Prelude.{ℕ, zero, suc, ◌+◌, ◌/◌, ◌%◌, [], ◌∷◌, ltb, if◌then◌else◌}
use anycorn.Exec.{Result, ok, ◌>>?◌}
use anycorn.Bytes.{Bytes, Text, Headers, codes, eq}
use anycorn.Connection.{StreamKind, http_stream, ws_stream}
use anycorn.Events.{Request, ConnectionState}
use anycorn.H11.Requests.{ascii_upper}
use anycorn.Utils.Headers.{filter_pseudo_headers}

-- The method and the path so far, and a header
unfoldable pub read_header : Bytes × Bytes → Text × Bytes → Result (Text × Bytes)
read_header (name, value) (method, raw_path) =
    if eq name (codes ":method")
    then (ascii_upper value >>? λ text. ok (text, raw_path))
    else (if eq name (codes ":path") then ok (method, value) else ok (method, raw_path))

-- The last `:method` and `:path` of the headers, or the ones given
unfoldable pub read_target : Headers → Text × Bytes → Result (Text × Bytes)
read_target [] target = ok target
read_target (header ∷ headers) target = read_header header target >>? read_target headers

unfoldable pub kind_of : Text → StreamKind
kind_of method = if eq method (codes "CONNECT") then ws_stream else http_stream

-- The `Request` of the headers
unfoldable pub request_of : Text → ConnectionState → Text → Bytes → Headers → Result Request
request_of http_version state method raw_path headers = filter_pseudo_headers headers >>? λ kept.
    ok (record {
      headers = kept;
      http_version = http_version;
      method = method;
      raw_path = raw_path;
      state = state;
    })

-- `b"%d" % n`: the digits, the last one first to come off; `fuel` bounds their number.
unfoldable pub digits : ℕ → ℕ → Bytes → Bytes
digits zero n tail = tail
digits (suc fuel) n tail =
    let more = digits fuel (n / 10) ((b'0' + n % 10) ∷ tail) in
    if ltb n 10 then (b'0' + n) ∷ tail else more

unfoldable pub decimal : ℕ → Bytes
unfolding digits
decimal n = digits (suc n) n []
