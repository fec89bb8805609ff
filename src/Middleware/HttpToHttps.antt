-- ===== src/Middleware/HttpToHttps.antt =====
-- middleware/http_to_https.py: where a request over plain HTTP is sent.
pub mod Laws
pub mod Call
use anycorn.Prelude.{
  ℕ, Bool, true, false, not, ◌&&◌, ◌||◌, List, [], ◌∷◌, ◌++◌, Option, none, some, length, leb, ◌==◌,
  if◌then◌else◌, all,
}
use anycorn.Exec.{Result, ok, err, ◌>>?◌, value_error, unicode_decode_error}
use anycorn.Bytes.{Bytes, Text, Headers, codes, eq, has, is_latin_space, starts_with}
use anycorn.Utf8.{decode}
use anycorn.Utils.Percent.{quote}

-- The keys of a scope that the middleware reads.
pub record Scope : Type 0 where
  pub root_path : Text
  pub raw_path : Bytes
  pub query_string : Bytes
  pub headers : Headers

-- `MAX_HOST_LENGTH`
abbrev pub max_host_length : ℕ
max_host_length = 255

-- `FIRST_PRINTABLE`
abbrev pub first_printable : ℕ
first_printable = 32

-- What a host must not have: a character that ends the authority of a URL or starts it anew.
unfoldable pub has_delimiter : Text → Bool
unfolding has
has_delimiter host = has b'/' host || has 92 host || has b'?' host || has b'#' host || has b'@' host

unfoldable pub is_plain : ℕ → Bool
is_plain c = not (is_latin_space c) && leb first_printable c

abbrev pub is_empty : Text → Bool
is_empty [] = true
is_empty (c ∷ s) = false

-- `_is_bare_host`
unfoldable pub is_bare_host : Text → Bool
unfolding has_delimiter is_plain
is_bare_host host =
    if is_empty host || not (leb (length host) max_host_length)
    then false
    else not (has_delimiter host) && all is_plain host

-- `_PATH_SAFE`
unfoldable pub path_safe : ℕ → Bool
unfolding has
path_safe b = has b (codes "/%:@!$&'()*+,;=~-._")

-- The first Host header, in lower case as the scope has it
unfoldable pub host_header : Headers → Option Text
unfolding eq
host_header [] = none
host_header ((key, value) ∷ headers) =
    let rest = host_header headers in if eq key (codes "host") then some value else rest

-- `urllib.parse.urlunsplit` without a fragment, for a scheme that has an authority
abbrev pub rooted : Text → Text
rooted [] = []
rooted (c ∷ s) = if c == b'/' then c ∷ s else b'/' ∷ c ∷ s

abbrev authority : Text → Text → Text
authority netloc path =
    if is_empty netloc && starts_with path (codes "//")
    then path
    else codes "//" ++ (netloc ++ rooted path)

abbrev pub with_query : Text → Text
with_query query = if is_empty query then [] else b'?' ∷ query

unfoldable pub urlunsplit : Text → Text → Text → Text → Text
urlunsplit scheme netloc path query = scheme ++ (b':' ∷ (authority netloc path ++ with_query query))

abbrev pub decoded : Option Text → Result Text
decoded none = err unicode_decode_error
decoded (some t) = ok t

-- `_new_url` with the host that it found: `none` is a request that admits no redirect.
unfoldable pub url_at : Text → Scope → Text → Result (Option Text)
unfolding path_safe
url_at scheme scope host = decoded (decode scope.query_string) >>? λ query.
    ok (some (urlunsplit scheme host (scope.root_path ++ quote path_safe scope.raw_path) query))

-- `_new_url`
unfoldable pub header_url : Text → Scope → Option Text → Result (Option Text)
header_url scheme scope none = err value_error
header_url scheme scope (some host) =
    if is_bare_host host then url_at scheme scope host else ok none

unfoldable pub new_url : Option Text → Text → Scope → Result (Option Text)
unfolding host_header
new_url none scheme scope = header_url scheme scope (host_header scope.headers)
new_url (some host) scheme scope = url_at scheme scope host
