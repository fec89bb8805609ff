-- ===== src/Tests/Wsgi.antt =====
-- A WSGI application behind the wrapper.
use anycorn.Prelude.{◌≡◌, ◌≤◌, ◌↔◌, refl, true, false, List, [], ◌∷◌, ◌++◌, none, some, length}
use anycorn.Exec.{ok, ◌>>=◌}
use anycorn.Bytes.{codes, eq, has, partition, starts_with}
use anycorn.Events.{ℤ, pos}
use anycorn.HttpStream.State.{Scope}
use anycorn.AppWrappers.State.{
  Python, Act, start, output, response_start, response_body, RunApp, fresh,
}
use anycorn.AppWrappers.RunApp.{
  parse_status, encode_headers, may_start, start_response, send_first, send_start, send_output, act,
  act_all, close_after, run_app,
}
use anycorn.AppWrappers.RunApp.Settled.{settled, bodies}
use anycorn.AppWrappers.RunApp.Laws.{run_app-messages}
use anycorn.AppWrappers.HandleHttp.{read_body, whole}
use anycorn.AppWrappers.HandleHttp.Laws.{body_of, read_body_iff}
use anycorn.AppWrappers.Environ.{
  Environ, get, path_below, scope_entries, add_headers, environ_at, build_environ,
}
use anycorn.AppWrappers.Environ.Laws.{build_environ-get}

abbrev python : Python
python = record { int = λ s. ok (pos 200); str = λ n. codes "80"; lower = λ s. s; upper = λ s. s }

abbrev called : List Act
called = start (codes "200 OK") [] none ∷ []

abbrev acts : List Act
acts = output [] ∷ output (codes "a") ∷ output (codes "b") ∷ []

abbrev ran : RunApp
ran = record {
  status_code = some (pos 200);
  headers = [];
  headers_sent = true;
  closed = true;
  messages =
      response_start (pos 200) []
      ∷ response_body (codes "a") true
      ∷ response_body (codes "b") true
      ∷ [];
}

runs : run_app python true called acts fresh ≡ (ok tt, ran)
unfolding run_app ◌>>=◌ close_after act_all act send_output send_start send_first start_response
    may_start parse_status encode_headers has partition
runs = refl

run_app-messages_example :
    (status : ℤ) × ((settled python (called ++ acts) (none, [])).0 ≡ some status)
    × (ran.messages
        ≡ response_start status (settled python (called ++ acts) (none, [])).1
          ∷ bodies python (called ++ acts))
run_app-messages_example = run_app-messages python true called acts ran runs

read_body_iff_example :
    (read_body 3 [] ((codes "ab", true) ∷ (codes "c", false) ∷ []) ≡ whole (codes "abc")) ↔ (
      (body_of ((codes "ab", true) ∷ (codes "c", false) ∷ []) ≡ some (codes "abc"))
      × (length (codes "abc") ≤ 3))
read_body_iff_example = read_body_iff 3 ((codes "ab", true) ∷ (codes "c", false) ∷ []) (codes "abc")

abbrev scope : Scope
scope = record {
  http_version = codes "1.1";
  method = codes "GET";
  scheme = codes "http";
  path = codes "/x";
  raw_path = codes "/x";
  query_string = [];
  root_path = [];
  headers = (codes "remote-addr", codes "1.2.3.4") ∷ [];
  client = some (codes "5.6.7.8", 9);
  server = none;
  state = [];
  extensions = record {
    tls = none;
    trailers = false;
    push = false;
    early_hint = false;
    pathsend = false;
    zerocopysend = false;
  };
}

abbrev bare : Environ
bare = scope_entries python scope (codes "/x")

abbrev environ : Environ
environ = add_headers python scope.headers bare

built : build_environ python scope ≡ some environ
unfolding build_environ environ_at path_below starts_with
built = refl

built_bare : build_environ python (record scope { headers = [] }) ≡ some bare
unfolding build_environ environ_at path_below starts_with
built_bare = refl

build_environ-get_example : get (codes "REMOTE_ADDR") environ ≡ get (codes "REMOTE_ADDR") bare
unfolding starts_with eq
build_environ-get_example =
    build_environ-get python scope (codes "REMOTE_ADDR") environ bare built built_bare refl
