-- ===== src/Tests/Redirects.antt =====
-- A redirect of middleware/http_to_https.py.
use anycorn.Prelude.{◌≡◌, refl, false, [], ◌∷◌, ◌++◌, none, some}
use anycorn.Exec.{ok}
use anycorn.Bytes.{Text, codes, eq, is_latin_space}
use anycorn.Utf8.{decode}
use anycorn.Utils.Percent.{quote}
use anycorn.Middleware.HttpToHttps.{
  Scope, has_delimiter, host_header, header_url, is_bare_host, url_at, urlunsplit, new_url,
}
use anycorn.Middleware.HttpToHttps.Call.{Kind, Call, forwards, call}
use anycorn.Middleware.HttpToHttps.Laws.{AfterHost, new_url-host}

abbrev plain_request : Scope
plain_request = record {
  root_path = [];
  raw_path = codes "/a b";
  query_string = codes "q=1";
  headers = (codes "host", codes "example.com") ∷ [];
}

redirect :
    new_url none (codes "https") plain_request ≡ ok (some (codes "https://example.com/a%20b?q=1"))
unfolding new_url header_url is_bare_host is_latin_space url_at decode urlunsplit quote
redirect = refl

new_url-host_example :
    (host : Text) × (rest : Text) × (host_header plain_request.headers ≡ some host)
    × (has_delimiter host ≡ false)
    × (codes "https://example.com/a%20b?q=1" ≡ codes "https" ++ (codes "://" ++ (host ++ rest)))
    × AfterHost rest
new_url-host_example =
    new_url-host (codes "https") plain_request (codes "https://example.com/a%20b?q=1") redirect

abbrev secure : Call
secure = record {
  kind = Kind.http;
  scheme = codes "https";
  http_version = codes "1.1";
  can_deny = false;
  scope = plain_request;
}

over_https : call none secure ≡ ok forwards
unfolding call eq
over_https = refl
