-- ===== src/Middleware/ProxyFix/Laws.antt =====
-- What middleware/proxy_fix.py trusts.
use anycorn.Prelude.{
  ℕ, suc, ◌+◌, ◌-◌, ◌≡◌, ◌∙◌, ap, inl, inr, refl, sym, false, List, [], ◌∷◌, ◌++◌, map, Option,
  none, some, length, drop, length-append, if◌then◌else◌, All, Bool-cases, arith,
}
use anycorn.Bytes.{Bytes, Text, Headers, codes, eq, lower, split, latin_strip, has, starts_with}
use anycorn.Utf8.{encode}
use anycorn.Middleware.ProxyFix.Hops.{Hops, Hops-values, split-join}
use anycorn.Middleware.ProxyFix.{
  Mode, modern, Forwarded, read_part, read_parts, modern_values, values_of, get_trusted_value,
  without_host, set_host, Scope, fixed_scope, is_lifespan, set_client, set_scheme, forwarded,
  legacy,
}

drop-append : {A : Type 0} (xs ys : List A) → drop (length xs) (xs ++ ys) ≡ ys
drop-append [] ys = refl
drop-append (x ∷ xs) ys = drop-append xs ys

-- The trusted hops are counted from the last value.
get_trusted_value-last :
    (name : Bytes) (headers : Headers) (value : Text) (before values : List Text) (hops : ℕ)
    → values_of name headers ≡ before ++ value ∷ values
    → hops ≡ suc (length values)
    → get_trusted_value name headers hops ≡ some value
unfolding get_trusted_value
get_trusted_value-last name headers value before values hops h k =
    let n : length (before ++ value ∷ values) ≡ length before + suc (length values) =
      length-append before (value ∷ values) in
    let d : length (before ++ value ∷ values) - hops ≡ length before = omega arith in
    rw (h, d, drop-append before (value ∷ values)) (ground arith)

length-map : {A B : Type 0} (f : A → B) (xs : List A) → length (map f xs) ≡ length xs
length-map f [] = refl
length-map f (x ∷ xs) = ap suc (length-map f xs)

-- What the first of the trusted proxies appended is the trusted value.
get_trusted_value-Hops :
    (name : Bytes) (sent headers : Headers) (v : Bytes) (vs : List Bytes)
    → All (λ v. has b',' v ≡ false) (v ∷ vs)
    → Hops name (v ∷ vs) sent headers
    → get_trusted_value name headers (suc (length vs)) ≡ some (latin_strip v)
get_trusted_value-Hops name sent headers v vs commas hops =
    get_trusted_value-last name headers (latin_strip v) (values_of name sent) (map latin_strip vs) _
      (Hops-values name commas hops) (ap suc (sym (length-map latin_strip vs)))

set_host-client : (host : Option Text) (scope : Scope) → (set_host host scope).client ≡ scope.client
unfolding set_host
set_host-client none scope = refl
set_host-client (some host) scope = refl

set_scheme-client :
    (scheme : Option Text) (scope : Scope) → (set_scheme scheme scope).client ≡ scope.client
unfolding set_scheme
set_scheme-client none scope = refl
set_scheme-client (some scheme) scope = refl

-- The client cannot choose its address: in legacy mode, where each of the trusted hops appended one
-- value without a comma to X-Forwarded-For, in a line of its own or behind a comma, the first of these
-- values is the client that the application sees, whatever headers the client sent.
pub fixed_scope-client :
    (scope : Scope) (sent : Headers) (v : Bytes) (vs : List Bytes)
    → is_lifespan scope.type ≡ false
    → All (λ v. has b',' v ≡ false) (v ∷ vs)
    → Hops (codes "x-forwarded-for") (v ∷ vs) sent scope.headers
    → (fixed_scope (record { mode = legacy; trusted_hops = suc (length vs) }) scope).client
      ≡ some (latin_strip v, 0)
unfolding fixed_scope forwarded set_client
fixed_scope-client scope sent v vs type commas hops =
    rw
      (
        type,
        set_host-client,
        set_scheme-client,
        get_trusted_value-Hops (codes "x-forwarded-for") sent scope.headers v vs commas hops,
      )
      refl

-- The values of the Host headers
abbrev pub hosts : Headers → List Bytes
hosts [] = []
hosts ((name, value) ∷ headers) =
    if eq (lower name) (codes "host") then value ∷ hosts headers else hosts headers

hosts-without_host :
    (headers : Headers) (b : Bytes)
    → hosts (without_host headers ++ (codes "host", b) ∷ []) ≡ b ∷ []
unfolding without_host lower eq
hosts-without_host [] b = refl
hosts-without_host ((name, value) ∷ headers) b =
    elim (Bool-cases (eq (lower name) (codes "host"))) [
      | inl h ↦ rw h (hosts-without_host headers b)
      | inr h ↦ rw (h, h) (hosts-without_host headers b)
    ]

-- The header that tells of the host
abbrev pub told_by : Mode → Bytes
told_by legacy = codes "x-forwarded-host"
told_by modern = codes "forwarded"

-- A value that tells of it: the host itself, or `...;host=` and the host
abbrev pub Tells : Mode → Bytes → Text → Type 0
Tells legacy v host = host ≡ latin_strip v
Tells modern v host =
    (before : Text) × (h : Text) × (latin_strip v ≡ before ++ b';' ∷ (codes "host=" ++ h))
    × (has b';' h ≡ false)
    × (host ≡ latin_strip h)

read_parts-last :
    (parts : List Text) (part : Text) (f : Forwarded)
    → read_parts (parts ++ part ∷ []) f ≡ read_part part (read_parts parts f)
unfolding read_parts
read_parts-last [] part f = refl
read_parts-last (p ∷ parts) part f = read_parts-last parts part (read_part p f)

read_part-host :
    (h : Text) (f : Forwarded) → (read_part (codes "host=" ++ h) f).host ≡ some (latin_strip h)
unfolding read_part starts_with
read_part-host h f = refl

modern_values-host :
    (value before h : Text) (headers : Headers) (hops : ℕ)
    → value ≡ before ++ b';' ∷ (codes "host=" ++ h)
    → has b';' h ≡ false
    → (modern_values (some value) headers hops).host ≡ some (latin_strip h)
unfolding modern_values
modern_values-host value before h headers hops e semicolons =
    rw
      (
        e,
        split-join b';' before (codes "host=" ++ h) (unfold has in semicolons),
        read_parts-last (split b';' before) (codes "host=" ++ h),
      )
      (read_part-host h _)

forwarded-host :
    (mode : Mode) (headers : Headers) (hops : ℕ) (v : Bytes) (host : Text)
    → Tells mode v host
    → get_trusted_value (told_by mode) headers hops ≡ some (latin_strip v)
    → (forwarded mode headers hops).host ≡ some host
unfolding forwarded
forwarded-host legacy headers hops v host tells e = e ∙ ap some (sym tells)
forwarded-host modern headers hops v host (before, h, is, semicolons, tells) e =
    rw e
      (modern_values-host (latin_strip v) before h headers hops is semicolons ∙ ap some (sym tells))

-- Where each of the trusted hops appended one value without a comma to the header that tells of the
-- host, X-Forwarded-Host in legacy mode and Forwarded in modern mode, in a line of its own or behind a
-- comma, and the first of these values is a host, in modern mode behind `;host=` at its end, the
-- application sees one Host header, with this host, whatever headers the client sent.
pub fixed_scope-hosts :
    (mode : Mode) (scope : Scope) (sent : Headers) (v : Bytes) (vs : List Bytes) (host : Text)
    → is_lifespan scope.type ≡ false
    → All (λ v. has b',' v ≡ false) (v ∷ vs)
    → Hops (told_by mode) (v ∷ vs) sent scope.headers
    → Tells mode v host
    → hosts (fixed_scope (record { mode = mode; trusted_hops = suc (length vs) }) scope).headers
      ≡ encode host ∷ []
unfolding fixed_scope set_host
fixed_scope-hosts mode scope sent v vs host type commas hops tells =
    rw
      (
        type,
        forwarded-host mode scope.headers (suc (length vs)) v host tells
            (get_trusted_value-Hops (told_by mode) sent scope.headers v vs commas hops),
      )
      (hosts-without_host _ (encode host))
