-- ===== src/Middleware/ProxyFix.antt =====
-- middleware/proxy_fix.py: what the client of a reverse proxy is, from the headers the proxies add.
pub mod Hops
pub mod Laws
use anycorn.Prelude.{
  ℕ, ◌-◌, Bool, true, false, not, List, [], ◌∷◌, ◌++◌, map, Option, none, some, length, drop, leb,
  ◌==◌, if◌then◌else◌,
}
use anycorn.Bytes.{Bytes, Text, Headers, codes, eq, lower, split, latin_strip, starts_with}
use anycorn.Utf8.{encode}

-- `scope["type"]`
pub data ScopeType : Type 0 where
  http websocket lifespan : ScopeType

-- The keys of a scope that the middleware reads or replaces.
pub record Scope : Type 0 where
  pub type : ScopeType
  pub client : Option (Text × ℕ)
  pub scheme : Text
  pub headers : Headers

pub data Mode : Type 0 where
  legacy modern : Mode

pub record ProxyFixMiddleware : Type 0 where
  pub mode : Mode
  pub trusted_hops : ℕ

-- The values of the headers of one name, each split at its commas.
unfoldable pub values_of : Bytes → Headers → List Text
values_of name [] = []
values_of name ((header_name, header_value) ∷ headers) =
    let rest = values_of name headers in
    if eq (lower header_name) name then map latin_strip (split b',' header_value) ++ rest else rest

unfoldable pub first : List Text → Option Text
first [] = none
first (value ∷ values) = some value

-- `_get_trusted_value`
unfoldable pub get_trusted_value : Bytes → Headers → ℕ → Option Text
unfolding values_of first
get_trusted_value name headers trusted_hops =
    let values = values_of name headers in
    if trusted_hops == 0
    then none
    else if leb trusted_hops (length values)
    then first (drop (length values - trusted_hops) values)
    else none

-- `client`, `scheme` and `host`
pub record Forwarded : Type 0 where
  pub client : Option Text
  pub scheme : Option Text
  pub host : Option Text

unfoldable pub read_part : Text → Forwarded → Forwarded
read_part part f =
    if starts_with part (codes "for=")
    then record f { client = some (latin_strip (drop 4 part)) }
    else if starts_with part (codes "host=")
    then record f { host = some (latin_strip (drop 5 part)) }
    else if starts_with part (codes "proto=")
    then record f { scheme = some (latin_strip (drop 6 part)) }
    else f

unfoldable pub read_parts : List Text → Forwarded → Forwarded
unfolding read_part
read_parts [] f = f
read_parts (part ∷ parts) f = read_parts parts (read_part part f)

abbrev pub legacy_values : Headers → ℕ → Forwarded
legacy_values headers hops = record {
  client = get_trusted_value (codes "x-forwarded-for") headers hops;
  scheme = get_trusted_value (codes "x-forwarded-proto") headers hops;
  host = get_trusted_value (codes "x-forwarded-host") headers hops;
}

-- Modern mode falls back on the other headers where there is no trusted `Forwarded`.
unfoldable pub modern_values : Option Text → Headers → ℕ → Forwarded
unfolding read_parts
modern_values none headers hops = legacy_values headers hops
modern_values (some value) headers hops =
    read_parts (split b';' value) (record { client = none; scheme = none; host = none })

unfoldable pub forwarded : Mode → Headers → ℕ → Forwarded
unfolding modern_values
forwarded legacy headers hops = legacy_values headers hops
forwarded modern headers hops =
    modern_values (get_trusted_value (codes "forwarded") headers hops) headers hops

unfoldable pub without_host : Headers → Headers
without_host [] = []
without_host ((name, value) ∷ headers) =
    let rest = without_host headers in
    if eq (lower name) (codes "host") then rest else (name, value) ∷ rest

unfoldable pub set_client : Option Text → Scope → Scope
set_client none scope = scope
set_client (some client) scope = record scope { client = some (client, 0) }

unfoldable pub set_scheme : Option Text → Scope → Scope
set_scheme none scope = scope
set_scheme (some scheme) scope = record scope { scheme = scheme }

unfoldable pub set_host : Option Text → Scope → Scope
unfolding without_host
set_host none scope = scope
set_host (some host) scope = record scope {
  headers = without_host scope.headers ++ (codes "host", encode host) ∷ [];
}

abbrev pub is_lifespan : ScopeType → Bool
is_lifespan lifespan = true
is_lifespan _ = false

-- `__call__`: the scope that the application is called with.
unfoldable pub fixed_scope : ProxyFixMiddleware → Scope → Scope
unfolding forwarded set_client set_scheme set_host
fixed_scope m scope =
    let f = forwarded m.mode scope.headers m.trusted_hops in
    if is_lifespan scope.type
    then scope
    else set_host f.host (set_scheme f.scheme (set_client f.client scope))
