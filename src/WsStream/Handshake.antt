-- ===== src/WsStream/Handshake.antt =====
-- `Handshake` (protocol/ws_stream.py): the request for a WebSocket, and the answer that accepts it.
pub mod Laws
use anycorn.Prelude.{
  ℕ, Bool, true, false, not, ◌&&◌, ◌||◌, List, [], ◌∷◌, ◌++◌, Option, none, some, is_some, any, ltb,
  ◌==◌, if◌then◌else◌,
}
use anycorn.Exec.{Result, ok, err, ◌>>?◌, exception, unicode_decode_error}
use anycorn.Bytes.{Bytes, Text, Headers, codes, eq, is_in, lower, latin_lower, starts_with}
use anycorn.Utf8.{encode, decode}
use anycorn.WsStream.State.{Wsproto, Handshake}

-- `s < t`
unfoldable pub text_lt : Text → Text → Bool
text_lt s [] = false
text_lt [] (d ∷ t) = true
text_lt (c ∷ s) (d ∷ t) = ltb c d || (c == d && text_lt s t)

-- `WEBSOCKET_VERSION`
abbrev pub websocket_version : Bytes
websocket_version = codes "13"

module _ (w : Wsproto) where
  -- One header, by its name in lower case
  unfoldable pub read_header : Handshake → Bytes → Bytes → Handshake
  unfolding eq
  read_header h name value =
      if eq name (codes "connection")
      then record h { connection_tokens = some (w.split_comma_header value) }
      else if eq name (codes "sec-websocket-extensions")
      then record h { extensions = some (w.split_comma_header value) }
      else if eq name (codes "sec-websocket-key")
      then record h { key = some value }
      else if eq name (codes "sec-websocket-protocol")
      then record h { subprotocols = some (w.split_comma_header value) }
      else if eq name (codes "sec-websocket-version")
      then record h { version = some value }
      else if eq name (codes "upgrade")
      then record h { upgrade = some value }
      else h

  unfoldable pub read_headers : Headers → Handshake → Handshake
  unfolding read_header lower
  read_headers [] h = h
  read_headers ((raw_name, value) ∷ headers) h =
      read_headers headers (read_header h (lower raw_name) value)

  -- `Handshake(...)`
  unfoldable pub new_handshake : Headers → Text → Bool → Handshake
  unfolding read_headers
  new_handshake headers http_version websocket_permessage_deflate = read_headers headers (record {
    accepted = false;
    http_version = http_version;
    websocket_permessage_deflate = websocket_permessage_deflate;
    connection_tokens = none;
    extensions = none;
    key = none;
    subprotocols = none;
    upgrade = none;
    version = none;
  })

-- `any(token.lower() == "upgrade" for token in tokens)`
unfoldable pub has_upgrade : Option (List Text) → Bool
has_upgrade none = false
has_upgrade (some tokens) = any (λ token. eq (latin_lower token) (codes "upgrade")) tokens

unfoldable pub is_websocket : Option Bytes → Bool
is_websocket none = false
is_websocket (some upgrade) = eq (lower upgrade) (codes "websocket")

unfoldable pub is_version : Option Bytes → Bool
is_version none = false
is_version (some version) = eq version websocket_version

-- `is_valid`
unfoldable pub is_valid : Handshake → Bool
unfolding text_lt has_upgrade is_websocket is_version
is_valid h =
    if text_lt h.http_version (codes "1.1")
    then false
    else if eq h.http_version (codes "1.1")
        && not (is_some h.key && (has_upgrade h.connection_tokens && is_websocket h.upgrade))
    then false
    else is_version h.version

-- The subprotocol that the application chose, as a header
unfoldable pub subprotocol_header : Option Text → Option (List Text) → Result Headers
subprotocol_header none offered = ok []
subprotocol_header (some subprotocol) none = err exception
subprotocol_header (some subprotocol) (some offered) =
    if is_in subprotocol offered
    then ok ((codes "sec-websocket-protocol", encode subprotocol) ∷ [])
    else err exception

-- `f"Invalid additional header, {name.decode()}"`
abbrev invalid_header : Option Text → Result Headers
invalid_header none = err unicode_decode_error
invalid_header (some name) = err exception

-- The headers that the application adds
unfoldable pub additional : Headers → Result Headers
additional [] = ok []
additional ((name, value) ∷ headers) =
    let rest = additional headers in
    if eq name (codes "sec-websocket-protocol") || starts_with name (codes ":")
    then invalid_header (decode name)
    else rest >>? λ checked. ok ((name, value) ∷ checked)

module _ (w : Wsproto) where
  unfoldable pub extension_header : Option (List Text) → Bool → Headers
  extension_header none deflate = []
  extension_header (some extensions) deflate =
      let accepts = w.server_extensions_handshake extensions deflate in
      if eq accepts [] then [] else (codes "sec-websocket-extensions", accepts) ∷ []

  unfoldable pub key_header : Option Bytes → Headers
  key_header none = []
  key_header (some key) = (codes "sec-websocket-accept", w.generate_accept_token key) ∷ []

  -- What `accept` returns: the status, the headers and the connection
  pub record Acceptance : Type 0 where
    pub status_code : ℕ
    pub headers : Headers
    pub connection : w.Connection

  -- `accept`; where it returns, `accepted` is set
  unfoldable pub accept : Handshake → Option Text → Headers → Result Acceptance
  unfolding subprotocol_header additional extension_header key_header
  accept h subprotocol additional_headers =
      let http_1 = eq h.http_version (codes "1.1") in
      subprotocol_header subprotocol h.subprotocols >>? λ chosen.
      additional additional_headers >>? λ added. ok (record {
        status_code = if http_1 then 101 else 200;
        headers =
            chosen
            ++ (extension_header h.extensions h.websocket_permessage_deflate
                ++ (key_header h.key
                    ++ ((if http_1
                          then (codes "upgrade", codes "WebSocket")
                            ∷ (codes "connection", codes "Upgrade")
                            ∷ []
                          else [])
                        ++ added)));
        connection = w.connection h.extensions h.websocket_permessage_deflate;
      })
