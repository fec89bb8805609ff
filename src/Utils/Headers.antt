-- ===== src/Utils/Headers.antt =====
-- utils.py: `suppress_body`, `build_and_validate_headers` and `filter_pseudo_headers`.
pub mod Laws
use anycorn.Prelude.{
  ℕ, Bool, ◌&&◌, ◌||◌, [], ◌∷◌, ◌++◌, Option, none, some, ltb, leb, ◌==◌, if◌then◌else◌,
}
use anycorn.Exec.{Result, ok, err, value_error, index_error, ◌>>?◌}
use anycorn.Bytes.{Bytes, Text, Headers, codes, eq, strip}

unfoldable pub suppress_body : Text → ℕ → Bool
suppress_body method status_code =
    eq method (codes "HEAD")
    || leb 100 status_code && ltb status_code 200
    || status_code == 204
    || status_code == 304

-- `name[0]`
unfoldable pub first_byte : Bytes → Result ℕ
first_byte [] = err index_error
first_byte (b ∷ s) = ok b

unfoldable pub validate_header : Bytes × Bytes → Result (Bytes × Bytes)
unfolding first_byte
validate_header (name, value) =
    first_byte name >>? λ b. if b == b':' then err value_error else ok (strip name, strip value)

unfoldable pub build_and_validate_headers : Headers → Result Headers
unfolding validate_header
build_and_validate_headers [] = ok []
build_and_validate_headers (header ∷ headers) =
    validate_header header >>? λ h. build_and_validate_headers headers >>? λ hs. ok (h ∷ hs)

-- The loop's variables: the last `:authority`, the last `host`, and the headers kept.
pub record Filtered : Type 0 where
  pub authority : Option Bytes
  pub host : Bytes
  pub kept : Headers

unfoldable pub filter_header : Bytes × Bytes → Filtered → Result Filtered
unfolding first_byte
filter_header (name, value) f =
    if eq name (codes ":authority")
    then ok (record f { authority = some value })
    else if eq name (codes "host")
    then ok (record f { host = value })
    else first_byte name >>? λ b.
        if b == b':' then ok f else ok (record f { kept = f.kept ++ (name, value) ∷ [] })

unfoldable pub filter_loop : Headers → Filtered → Result Filtered
unfolding filter_header
filter_loop [] f = ok f
filter_loop (header ∷ headers) f = filter_header header f >>? filter_loop headers

-- `authority if authority is not None else host`
abbrev pub host_value : Option Bytes → Bytes → Bytes
host_value none host = host
host_value (some authority) host = authority

unfoldable pub filter_pseudo_headers : Headers → Result Headers
unfolding filter_loop
filter_pseudo_headers headers =
    filter_loop headers (record { authority = none; host = []; kept = [] }) >>? λ f.
    ok ((codes "host", host_value f.authority f.host) ∷ f.kept)
