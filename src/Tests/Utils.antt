-- ===== src/Tests/Utils.antt =====
-- Runs of utils.py and its codecs.
use anycorn.Prelude.{
  ℕ, ◌≡◌, refl, Bool, true, false, [], ◌∷◌, none, some, arith, All, ◌==◌, ◌↔◌, map,
}
use anycorn.Exec.{ok, err, unicode_decode_error}
use anycorn.Bytes.{Bytes, Text, Headers, codes, lower, eq, strip}
use anycorn.Config.{Config}
use anycorn.Events.{Request}
use anycorn.Utf8.{IsScalar, encode, encode_char, decode}
use anycorn.Utf8.Laws.{encode-decode, decode-encode}
use anycorn.Utils.Percent.{decode_asgi_path, unquote_to_bytes, quote, valid_request_target}
use anycorn.Utils.Percent.Laws.{IsEscaped, decode_asgi_path-quote, decode_asgi_path_iff}
use anycorn.Utils.Headers.{build_and_validate_headers, filter_pseudo_headers, first_byte}
use anycorn.Utils.Headers.Laws.{
  build_and_validate_headers_iff, build_and_validate_headers_unsound, filter_pseudo_headers_shape,
  IsPlain, strip_header, IsKept,
}
use anycorn.Utils.Names.{valid_server_name, escape_rfc4514_value}
use anycorn.Utils.Names.Laws.{
  IsHost, IsRfc4514, valid_server_name_lem, unescape, unescape-escape_rfc4514_value,
}

-- "é/€"
abbrev accented : Text
accented = 233 ∷ 47 ∷ 8364 ∷ []

abbrev accented_bytes : Bytes
accented_bytes = 195 ∷ 169 ∷ 47 ∷ 226 ∷ 130 ∷ 172 ∷ []

encode-accented : encode accented ≡ accented_bytes
unfolding encode encode_char
encode-accented = refl

-- An overlong form, a surrogate and a truncated character are no UTF-8.
decode_malformed :
    (decode (192 ∷ 175 ∷ []) ≡ none)
    × (decode (237 ∷ 160 ∷ 128 ∷ []) ≡ none)
    × (decode (226 ∷ 130 ∷ []) ≡ none)
unfolding decode
decode_malformed = (refl, refl, refl)

decode-accented : decode accented_bytes ≡ some accented
unfolding decode
decode-accented = refl

encode-decode_example : (encode accented ≡ accented_bytes) × All IsScalar accented
encode-decode_example = encode-decode accented_bytes accented decode-accented

decode-encode_example : decode (encode accented) ≡ some accented
decode-encode_example = decode-encode accented (omega arith)

abbrev slash_safe : ℕ → Bool
slash_safe c = c == b'/'

quote_accented : quote slash_safe accented_bytes ≡ codes "%C3%A9/%E2%82%AC"
unfolding quote
quote_accented = refl

decode_asgi_path-quote_example : decode_asgi_path (quote slash_safe (encode accented)) ≡ ok accented
decode_asgi_path-quote_example = decode_asgi_path-quote slash_safe refl accented (omega arith)

abbrev lower_case : Bytes
lower_case = codes "%c3%a9"

abbrev upper_case : Bytes
upper_case = codes "%C3%A9"

decoded_lower : decode_asgi_path lower_case ≡ ok (233 ∷ [])
unfolding decode_asgi_path decode
decoded_lower = refl

decoded_upper : decode_asgi_path upper_case ≡ ok (233 ∷ [])
unfolding decode_asgi_path decode
decoded_upper = refl

decode_asgi_path_iff_example : (decode_asgi_path lower_case ≡ ok (233 ∷ [])) ↔ (
    IsEscaped lower_case
    × All IsScalar (233 ∷ [])
    × (encode (233 ∷ []) ≡ unquote_to_bytes lower_case))
decode_asgi_path_iff_example = decode_asgi_path_iff lower_case (233 ∷ [])

targets :
    (valid_request_target (codes "/a") ≡ true)
    × (valid_request_target [] ≡ false)
    × (valid_request_target (codes "/a b") ≡ false)
unfolding valid_request_target
targets = (refl, refl, refl)

abbrev request_headers : Headers
request_headers =
    (codes ":method", codes "GET")
    ∷ (codes "accept", codes "*/*")
    ∷ (codes "host", codes "a")
    ∷ (codes ":authority", codes "b")
    ∷ []

abbrev filtered_headers : Headers
filtered_headers = (codes "host", codes "b") ∷ (codes "accept", codes "*/*") ∷ []

filtered : filter_pseudo_headers request_headers ≡ ok filtered_headers
unfolding filter_pseudo_headers eq
filtered = refl

filter_pseudo_headers_shape_example :
    (host : Bytes) × (kept : Headers) × (filtered_headers ≡ (codes "host", host) ∷ kept)
    × All IsKept kept
filter_pseudo_headers_shape_example =
    filter_pseudo_headers_shape request_headers filtered_headers filtered

abbrev app_headers : Headers
app_headers = (codes "x-a", codes " 1 ") ∷ []

build_and_validate_headers_iff_example :
    (build_and_validate_headers app_headers ≡ ok ((codes "x-a", codes "1") ∷ []))
    ↔ (All IsPlain app_headers × ((codes "x-a", codes "1") ∷ [] ≡ map strip_header app_headers))
build_and_validate_headers_iff_example =
    build_and_validate_headers_iff app_headers ((codes "x-a", codes "1") ∷ [])

build_and_validate_headers_unsound_example :
    (sent : Bytes) × (build_and_validate_headers ((codes " :status", codes "200") ∷ [])
      ≡ ok ((sent, codes "200") ∷ []))
    × (first_byte sent ≡ ok b':')
unfolding strip
build_and_validate_headers_unsound_example =
    build_and_validate_headers_unsound (codes "status") (codes "200")

abbrev named : Config
named = record {
  root_path = [];
  server_names = codes "a.test" ∷ [];
  websocket_max_message_size = 100;
  websocket_permessage_deflate = false;
  websocket_ping_interval = none;
  keep_alive_max_requests = 10;
  h11_pass_raw_headers = false;
  response_headers = λ protocol. [];
}

abbrev undecodable : Request
undecodable = record {
  headers = (codes "Host", 255 ∷ []) ∷ [];
  http_version = codes "1.1";
  method = codes "GET";
  raw_path = codes "/";
  state = [];
}

undecodable-IsHost : IsHost undecodable.headers (255 ∷ [])
unfolding lower eq
undecodable-IsHost = IsHost.here refl

valid_server_name_lem_example : valid_server_name named undecodable ≡ err unicode_decode_error
unfolding decode
valid_server_name_lem_example =
    valid_server_name_lem named undecodable (255 ∷ []) refl undecodable-IsHost

unescape-escape_rfc4514_value_example :
    IsRfc4514 (escape_rfc4514_value (codes " a,b "))
    × (unescape (escape_rfc4514_value (codes " a,b ")) ≡ codes " a,b ")
unescape-escape_rfc4514_value_example = unescape-escape_rfc4514_value (codes " a,b ")

escaped : escape_rfc4514_value (codes " a,b ") ≡ codes "\\ a\\,b\\ "
unfolding escape_rfc4514_value
escaped = refl
