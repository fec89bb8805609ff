-- ===== src/Utils/Names.antt =====
-- utils.py: `valid_server_name`, and the escaping of distinguished names in `build_tls_extension`.
pub mod Laws
use anycorn.Prelude.{
  ℕ, Bool, true, false, ◌&&◌, ◌||◌, List, [], ◌∷◌, Option, none, some, ◌==◌, if◌then◌else◌,
}
use anycorn.Exec.{Result, ok, err, unicode_decode_error, ◌>>?◌}
use anycorn.Bytes.{Bytes, Text, Headers, codes, eq, is_in, lower}
use anycorn.Utf8.{decode}
use anycorn.Config.{Config}
use anycorn.Events.{Request}

abbrev pub strict : Option Text → Result Text
strict none = err unicode_decode_error
strict (some t) = ok t

-- The loop that stops at the first `host` header.
unfoldable pub host_of : Headers → Result Text
host_of [] = ok []
host_of ((name, value) ∷ headers) =
    if eq (lower name) (codes "host") then strict (decode value) else host_of headers

abbrev pub is_empty : List Text → Bool
is_empty [] = true
is_empty (n ∷ ns) = false

unfoldable pub valid_server_name : Config → Request → Result Bool
unfolding host_of
valid_server_name config r =
    if is_empty config.server_names
    then ok true
    else host_of r.headers >>? λ host. ok (is_in host config.server_names)

-- `_escape_rfc4514_value`: the characters escaped everywhere, those at the start, a space at the end.
unfoldable pub is_special : ℕ → Bool
is_special c = c == b',' || c == b'+' || c == 34 || c == 92 || c == b'<' || c == b'>' || c == b';'

abbrev pub escape_if : Bool → ℕ → Text → Text
escape_if b c rest = if b then 92 ∷ c ∷ rest else c ∷ rest

abbrev pub is_last : Text → Bool
is_last [] = true
is_last (c ∷ s) = false

unfoldable pub escape_rest : Text → Text
unfolding is_special
escape_rest [] = []
escape_rest (c ∷ s) = escape_if (is_special c || is_last s && c == 32) c (escape_rest s)

unfoldable pub escape_rfc4514_value : Text → Text
unfolding escape_rest
escape_rfc4514_value [] = []
escape_rfc4514_value (c ∷ s) =
    escape_if (is_special c || (c == b'#' || c == 32) || is_last s && c == 32) c (escape_rest s)
