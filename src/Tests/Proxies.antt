-- ===== src/Tests/Proxies.antt =====
-- Runs of the middleware.
use anycorn.Prelude.{◌≡◌, refl, true, false, map, ◌↔◌, ◌⊎◌, List, [], ◌∷◌, ◌++◌, none, some}
use anycorn.Bytes.{Headers, codes, Text, rstrip, latin_strip, has, eq, lower, starts_with}
use anycorn.Middleware.Dispatcher.{
  Message, startup_complete, shutdown_complete, startup_failed, send, mounted_at, find_mount,
  is_slash,
}
use anycorn.Middleware.Dispatcher.Laws.{send_all, fresh}
use anycorn.Middleware.Dispatcher.Mounts.{mounted_at_iff}
use anycorn.Middleware.ProxyFix.{Scope, http, legacy, modern, fixed_scope}
use anycorn.Utf8.{encode}
use anycorn.Middleware.ProxyFix.Hops.{Hop, Hops, arrived, passed}
use anycorn.Middleware.ProxyFix.Laws.{hosts, Tells, fixed_scope-client, fixed_scope-hosts}

abbrev spoofed : Headers
spoofed = (codes "X-Forwarded-For", codes "10.0.0.1, 10.0.0.2") ∷ (codes "Host", codes "a") ∷ []

-- One proxy joins its value to the line that the client sent, the next adds a line.
abbrev joined_line : Headers
joined_line =
    (codes "X-Forwarded-For", codes "10.0.0.1, 10.0.0.2, 1.2.3.4") ∷ (codes "Host", codes "a") ∷ []

abbrev proxied : Scope
proxied = record {
  type = http;
  client = none;
  scheme = codes "http";
  headers = joined_line ++ (codes "X-Forwarded-For", codes "5.6.7.8") ∷ [];
}

proxied-Hops :
    Hops (codes "x-forwarded-for") (codes " 1.2.3.4" ∷ codes "5.6.7.8" ∷ []) spoofed proxied.headers
unfolding lower eq
proxied-Hops =
    passed {b = joined_line}
      (Hop.joined (codes "X-Forwarded-For") (codes "10.0.0.1, 10.0.0.2") []
        ((codes "Host", codes "a") ∷ []) refl (refl, tt) refl refl)
      (passed {b = proxied.headers} (Hop.own_line (codes "X-Forwarded-For") refl refl) arrived)

fixed_scope-client_example :
    (fixed_scope (record { mode = legacy; trusted_hops = 2 }) proxied).client
    ≡ some (latin_strip (codes " 1.2.3.4"), 0)
unfolding has
fixed_scope-client_example =
    fixed_scope-client proxied spoofed (codes " 1.2.3.4") (codes "5.6.7.8" ∷ []) refl
      (refl, (refl, tt)) proxied-Hops

abbrev bare : Headers
bare = (codes "Host", codes "a") ∷ []

abbrev told : Scope
told = record {
  type = http;
  client = none;
  scheme = codes "http";
  headers = bare ++ (codes "Forwarded", codes "for=1.2.3.4;host=b") ∷ [];
}

told-Hops : Hops (codes "forwarded") (codes "for=1.2.3.4;host=b" ∷ []) bare told.headers
unfolding lower
told-Hops = passed (Hop.own_line (codes "Forwarded") refl refl) arrived

host_part-Tells : Tells modern (codes "for=1.2.3.4;host=b") (codes "b")
unfolding latin_strip has
host_part-Tells = (codes "for=1.2.3.4", codes "b", refl, refl, refl)

fixed_scope-hosts_example :
    hosts (fixed_scope (record { mode = modern; trusted_hops = 1 }) told).headers
    ≡ encode (codes "b") ∷ []
unfolding has
fixed_scope-hosts_example =
    fixed_scope-hosts modern told bare (codes "for=1.2.3.4;host=b") [] (codes "b") refl (refl, tt)
      told-Hops host_part-Tells

abbrev two_mounts : List (Text × Message)
two_mounts =
    (codes "/a", startup_complete)
    ∷ (codes "/b", startup_failed)
    ∷ (codes "/b", startup_complete)
    ∷ (codes "/b", shutdown_complete)
    ∷ []

reported :
    (send_all two_mounts (map fresh (codes "/a" ∷ codes "/b" ∷ []), [])).1
    ≡ startup_complete ∷ startup_failed ∷ []
unfolding send eq
reported = refl

mounted_at_iff_example : (mounted_at true (codes "/foobar") (codes "/foo") ≡ true) ↔ (
    (codes "/foobar" ≡ codes "/foo")
    ⊎ ((rest : Text) × (codes "/foobar" ≡ rstrip is_slash (codes "/foo") ++ b'/' ∷ rest)))
mounted_at_iff_example = mounted_at_iff (codes "/foobar") (codes "/foo")

first_prefix :
    find_mount false (codes "/foo" ∷ codes "/foobar" ∷ []) (codes "/foobar") ≡ some (codes "/foo")
unfolding find_mount starts_with
first_prefix = refl
