-- ===== src/Middleware/HttpToHttps/Laws.antt =====
-- Where middleware/http_to_https.py sends a request.
use mathlib.Core.List.{append_assoc}
use anycorn.Prelude.{
  ap, sym, ◌∙◌, ==_iff, ◌≡◌, ◌⊎◌, inl, inr, refl, true, false, [], ◌∷◌, ◌++◌, none, some, ◌==◌,
  Bool-cases, Option-cases, arith,
}
use anycorn.Exec.{ok, >>?-eq-ok}
use anycorn.Bytes.{Text, codes}
use anycorn.Utf8.{decode}
use anycorn.Utils.Percent.{quote}
use anycorn.Middleware.HttpToHttps.{
  decoded, rooted, with_query, Scope, has_delimiter, is_bare_host, host_header, urlunsplit,
  path_safe, url_at, header_url, new_url,
}

-- What stands after the host of a URL: nothing, a path or a query
abbrev pub AfterHost : Text → Type 0
AfterHost [] = Unit
AfterHost (c ∷ s) = (c ≡ b'/') ⊎ (c ≡ b'?')

AfterHost-append : (path query : Text) → AfterHost (rooted path ++ with_query query)
AfterHost-append [] [] = tt
AfterHost-append [] (c ∷ query) = inr refl
AfterHost-append (c ∷ path) query = elim (Bool-cases (c == b'/')) [
  | inl h ↦ rw h (inl ((==_iff c b'/').0 h))
  | inr h ↦ rw h (inl refl)
]

urlunsplit-host :
    (scheme host path query : Text)
    → is_bare_host host ≡ true
    → (rest : Text) × (urlunsplit scheme host path query
        ≡ scheme ++ (codes "://" ++ (host ++ rest)))
      × AfterHost rest
unfolding urlunsplit is_bare_host
urlunsplit-host scheme [] path query h = cc
urlunsplit-host scheme (c ∷ host) path query h = (
  rooted path ++ with_query query,
  ap (λ s. scheme ++ (codes "://" ++ (c ∷ s))) (append_assoc host (rooted path) (with_query query)),
  AfterHost-append path query,
)

-- The characters that would end a host or start another
is_bare_host-has_delimiter : (host : Text) → is_bare_host host ≡ true → has_delimiter host ≡ false
unfolding is_bare_host
is_bare_host-has_delimiter [] h = cc
is_bare_host-has_delimiter (c ∷ host) h = ground arith

url_at-host :
    (scheme : Text) (scope : Scope) (host url : Text)
    → url_at scheme scope host ≡ ok (some url)
    → is_bare_host host ≡ true
    → (rest : Text) × (url ≡ scheme ++ (codes "://" ++ (host ++ rest))) × AfterHost rest
unfolding url_at
url_at-host scheme scope host url h b =
    let (query, q, e) =
      >>?-eq-ok (decoded (decode scope.query_string))
        (λ query.
          ok (
            some
              (urlunsplit scheme host (scope.root_path ++ quote path_safe scope.raw_path) query)))
        h in
    let (rest, u, a) =
      urlunsplit-host scheme host (scope.root_path ++ quote path_safe scope.raw_path) query b in
    let same : urlunsplit scheme host (scope.root_path ++ quote path_safe scope.raw_path) query
        ≡ url =
      cc in
    (rest, sym same ∙ u, a)

header_url-some :
    (scheme : Text) (scope : Scope) (host url : Text)
    → header_url scheme scope (some host) ≡ ok (some url)
    → (is_bare_host host ≡ true) × (url_at scheme scope host ≡ ok (some url))
unfolding header_url
header_url-some scheme scope host url h = elim (Bool-cases (is_bare_host host)) [
  | inl b ↦ (b, rw b at h)
  | inr b ↦ let h' : ok none ≡ ok (some url) = rw b at h in cc
]

-- A redirect that takes its host from the request goes to the host that the first Host header
-- names, and that host has no character that would end it or start another: the URL is the scheme,
-- the host, and then nothing, a path or a query.
pub new_url-host :
    (scheme : Text) (scope : Scope) (url : Text)
    → new_url none scheme scope ≡ ok (some url)
    → (host : Text) × (rest : Text) × (host_header scope.headers ≡ some host)
      × (has_delimiter host ≡ false)
      × (url ≡ scheme ++ (codes "://" ++ (host ++ rest)))
      × AfterHost rest
unfolding new_url header_url
new_url-host scheme scope url h = elim (Option-cases (host_header scope.headers)) [
  | inl e ↦ let h' : header_url scheme scope none ≡ ok (some url) = rw e at h in cc
  | inr (host, e) ↦
      let h' : header_url scheme scope (some host) ≡ ok (some url) = rw e at h in
      let (b, u) = header_url-some scheme scope host url h' in
      let (rest, same, after) = url_at-host scheme scope host url u b in
      (host, rest, e, is_bare_host-has_delimiter host b, same, after)
]
