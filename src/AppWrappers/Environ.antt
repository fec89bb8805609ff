-- ===== src/AppWrappers/Environ.antt =====
-- `_build_environ` (app_wrappers.py), without the entries that are constants and `wsgi.input`.
pub mod Laws
use anycorn.Prelude.{
  ℕ, Bool, true, false, List, [], ◌∷◌, ◌++◌, Option, none, some, length, drop, map, ◌==◌,
  if◌then◌else◌,
}
use anycorn.Bytes.{Bytes, Text, Headers, codes, eq, starts_with}
use anycorn.Utf8.{encode}
use anycorn.HttpStream.State.{Scope}
use anycorn.AppWrappers.State.{Python}

abbrev pub Environ : Type 0
Environ = List (Text × Text)

-- `environ.get(key)`
unfoldable pub get : Text → Environ → Option Text
get key [] = none
get key ((k, value) ∷ environ) = if eq k key then some value else get key environ

-- `environ[key] = value`
unfoldable pub put : Text → Text → Environ → Environ
put key value [] = (key, value) ∷ []
put key value ((k, old) ∷ environ) =
    let rest = put key value environ in if eq k key then (k, value) ∷ environ else (k, old) ∷ rest

abbrev pub is_https : Text → Bool
is_https scheme = eq scheme (codes "https")

-- `_default_port`
unfoldable pub default_port : Text → ℕ
default_port scheme = if is_https scheme then 443 else 80

-- `path[len(script_name):]`, or "/"
unfoldable pub path_below : Text → Text → Option Text
path_below script_name path =
    if starts_with path script_name
    then some (
        if length (drop (length script_name) path) == 0
        then codes "/"
        else drop (length script_name) path)
    else none

abbrev pub dash_to_underscore : ℕ → ℕ
dash_to_underscore c = if c == b'-' then b'_' else c

-- `environ[name] + "," + value`
abbrev pub joined : Option Text → Text → Text
joined none value = value
joined (some old) value = old ++ (b',' ∷ value)

module _ (py : Python) where
  -- `server[1] if server[1] is not None else _default_port(scope)`
  unfoldable pub port_of : Option ℕ → Text → Text
  port_of (some port) scheme = py.str port
  port_of none scheme = py.str (default_port scheme)

  -- `scope.get("server") or ("localhost", 80)`
  abbrev pub server_entries : Option (Text × Option ℕ) → Text → Environ
  server_entries none scheme =
      (codes "SERVER_NAME", codes "localhost")
      ∷ (codes "SERVER_PORT", port_of (some 80) scheme)
      ∷ []
  server_entries (some (name, port)) scheme =
      (codes "SERVER_NAME", name) ∷ (codes "SERVER_PORT", port_of port scheme) ∷ []

  abbrev pub client_entries : Option (Text × ℕ) → Environ
  client_entries none = []
  client_entries (some (host, port)) = (codes "REMOTE_ADDR", host) ∷ []

  -- The entries that are not from headers
  unfoldable pub scope_entries : Scope → Text → Environ
  scope_entries scope path_info =
      (codes "REQUEST_METHOD", scope.method)
      ∷ (codes "SCRIPT_NAME", encode scope.root_path)
      ∷ (codes "PATH_INFO", encode path_info)
      ∷ (codes "QUERY_STRING", scope.query_string)
      ∷ (server_entries scope.server scope.scheme
          ++ ((codes "SERVER_PROTOCOL", codes "HTTP/" ++ scope.http_version)
              ∷ (codes "wsgi.url_scheme", scope.scheme)
              ∷ client_entries scope.client))

  unfoldable pub header_key : Bytes → Text
  header_key name =
      if eq name (codes "content-length")
      then codes "CONTENT_LENGTH"
      else if eq name (codes "content-type")
      then codes "CONTENT_TYPE"
      else (codes "HTTP_" ++ map dash_to_underscore (py.upper name))

  -- The loop over the headers
  unfoldable pub add_headers : Headers → Environ → Environ
  unfolding get put
  add_headers [] environ = environ
  add_headers ((name, value) ∷ headers) environ =
      add_headers headers
        (put (header_key name) (joined (get (header_key name) environ) value) environ)

  -- `_build_environ`, once the path is known; `none` for an `InvalidPathError`
  unfoldable pub environ_at : Scope → Option Text → Option Environ
  unfolding scope_entries add_headers
  environ_at scope none = none
  environ_at scope (some path_info) =
      some (add_headers scope.headers (scope_entries scope path_info))

  -- `_build_environ`
  unfoldable pub build_environ : Scope → Option Environ
  unfolding path_below environ_at
  build_environ scope = environ_at scope (path_below scope.root_path scope.path)
