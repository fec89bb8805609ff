-- ===== src/Utils/Headers/Laws.antt =====
-- Which response headers are accepted and what becomes of them, and what `filter_pseudo_headers`
-- leaves of a request's.
use anycorn.Prelude.{
  ℕ, ◌≡◌, refl, sym, ap, ◌∙◌, ◌↔◌, Bool, false, [], ◌∷◌, ◌++◌, map, none, arith, All, ◌==◌,
}
use mathlib.Core.List.{append_assoc, append-nil}
use anycorn.Exec.{ok-injective, ok, ◌>>?◌, >>?-eq-ok}
use anycorn.Bytes.{Bytes, Headers, codes, eq, strip, rstrip, drop_last_space, is_space}
use anycorn.Utils.Headers.{
  first_byte, validate_header, build_and_validate_headers, Filtered, filter_header, filter_loop,
  filter_pseudo_headers, host_value,
}

-- The name of the header has a first byte that is no colon.
abbrev pub IsPlain : Bytes × Bytes → Type 0
IsPlain ([], value) = ⊥
IsPlain (b ∷ name, value) = (b == b':') ≡ false

abbrev pub strip_header : Bytes × Bytes → Bytes × Bytes
strip_header (name, value) = (strip name, strip value)

validate_plain : (h : Bytes × Bytes) → IsPlain h → validate_header h ≡ ok (strip_header h)
unfolding validate_header
validate_plain ([], value) p = absurd p
validate_plain (b ∷ name, value) p = rw p

IsPlain-of_valid : (h h' : Bytes × Bytes) → validate_header h ≡ ok h' → IsPlain h
unfolding validate_header
IsPlain-of_valid ([], value) h' e = cc
IsPlain-of_valid (b ∷ name, value) h' e = ground arith

build-plain :
    (headers : Headers)
    → All IsPlain headers
    → build_and_validate_headers headers ≡ ok (map strip_header headers)
unfolding build_and_validate_headers
build-plain [] h = refl
build-plain (x ∷ headers) (p, h) = rw (validate_plain x p) (rw (build-plain headers h) refl)

IsPlain-of_built :
    (headers hs : Headers) → build_and_validate_headers headers ≡ ok hs → All IsPlain headers
unfolding build_and_validate_headers
IsPlain-of_built [] hs e = tt
IsPlain-of_built (x ∷ headers) hs e =
    let (h, valid, rest) = >>?-eq-ok (validate_header x) _ e in
    let (hs', built, _) = >>?-eq-ok (build_and_validate_headers headers) _ rest in
    (IsPlain-of_valid x h valid, IsPlain-of_built headers hs' built)

-- The headers are accepted exactly when each name has a first byte that is no colon, and what is
-- returned are the names and values stripped, in the same order.
pub build_and_validate_headers_iff :
    (headers hs : Headers)
    → (build_and_validate_headers headers ≡ ok hs)
      ↔ (All IsPlain headers × (hs ≡ map strip_header headers))
build_and_validate_headers_iff headers hs = (
  λ e.
      let plain = IsPlain-of_built headers hs e in
      (plain, ok-injective (sym e ∙ build-plain headers plain)),
  λ h. build-plain headers h.0 ∙ ap ok (sym h.1),
)

rstrip_colon :
    (space : ℕ → Bool)
    → space b':' ≡ false
    → (s : Bytes) → first_byte (rstrip space (b':' ∷ s)) ≡ ok b':'
unfolding rstrip first_byte
rstrip_colon space h s = go (rstrip space s)
  where
    go : (t : Bytes) → first_byte (drop_last_space space b':' t) ≡ ok b':'
    go [] = rw h
    go (c ∷ t) = refl

-- The check looks at the name before it is stripped: a space in front of the colon lets a pseudo
-- header through, and the name that is sent begins with the colon.
pub build_and_validate_headers_unsound :
    (name value : Bytes)
    → (sent : Bytes) × (build_and_validate_headers ((b' ' ∷ b':' ∷ name, value) ∷ [])
        ≡ ok ((sent, strip value) ∷ []))
      × (first_byte sent ≡ ok b':')
build_and_validate_headers_unsound name value = (
  strip (b' ' ∷ b':' ∷ name),
  build-plain ((b' ' ∷ b':' ∷ name, value) ∷ []) (refl, tt),
  unfold strip in rstrip_colon is_space refl name,
)

-- What `filter_pseudo_headers` keeps: no pseudo header and no `host`.
abbrev pub IsKept : Bytes × Bytes → Type 0
IsKept (name, value) = IsPlain (name, value) × (eq name (codes "host") ≡ false)

All-snoc : (xs : Headers) (x : Bytes × Bytes) → All IsKept xs → IsKept x → All IsKept (xs ++ x ∷ [])
All-snoc [] x h k = (k, tt)
All-snoc (y ∷ xs) x h k = (h.0, All-snoc xs x h.1 k)

filter_header-kept :
    (h : Bytes × Bytes) (f f' : Filtered)
    → filter_header h f ≡ ok f'
    → All IsKept f.kept
    → All IsKept f'.kept
unfolding filter_header
filter_header-kept ([], value) f f' e k = unfold eq in unfold first_byte in cc
filter_header-kept (b ∷ name, value) f f' e k = ground (arith, All-snoc f.kept (b ∷ name, value) k)

filter_loop-kept :
    (headers : Headers) (f f' : Filtered)
    → filter_loop headers f ≡ ok f'
    → All IsKept f.kept
    → All IsKept f'.kept
unfolding filter_loop
filter_loop-kept [] f f' e k = rw (ok-injective e) at k
filter_loop-kept (h ∷ headers) f f' e k =
    let (g, first, rest) = >>?-eq-ok (filter_header h f) (filter_loop headers) e in
    filter_loop-kept headers g f' rest (filter_header-kept h f g first k)

-- Headers that are all to be kept are kept in their order.
filter_header-keep :
    (h : Bytes × Bytes) (f : Filtered)
    → IsKept h
    → filter_header h f ≡ ok (record f { kept = f.kept ++ h ∷ [] })
unfolding filter_header eq
filter_header-keep ([], value) f k = absurd k.0
filter_header-keep (b ∷ name, value) f k = ground arith

filter_loop-keep :
    (headers : Headers) (f : Filtered)
    → All IsKept headers
    → filter_loop headers f ≡ ok (record f { kept = f.kept ++ headers })
unfolding filter_loop
filter_loop-keep [] f k = rw append-nil refl
filter_loop-keep (h ∷ headers) f k =
    rw (filter_header-keep h f k.0)
      (filter_loop-keep headers (record f { kept = f.kept ++ h ∷ [] }) k.1 ∙ rw append_assoc refl)

-- What is returned begins with the one `host` header, and no other header is a pseudo header or a
-- `host`.
pub filter_pseudo_headers_shape :
    (headers out : Headers)
    → filter_pseudo_headers headers ≡ ok out
    → (host : Bytes) × (kept : Headers) × (out ≡ (codes "host", host) ∷ kept) × All IsKept kept
unfolding filter_pseudo_headers
filter_pseudo_headers_shape headers out e =
    let (f, looped, whole) = >>?-eq-ok (filter_loop headers _) _ e in
    (
      host_value f.authority f.host,
      f.kept,
      sym (ok-injective whole),
      filter_loop-kept headers _ f looped tt,
    )

filter_host :
    (host : Bytes) (kept : Headers)
    → filter_pseudo_headers ((codes "host", host) ∷ kept) ≡ (
        filter_loop kept (record { authority = none; host = host; kept = [] }) >>? λ f.
        ok ((codes "host", host_value f.authority f.host) ∷ f.kept))
unfolding filter_pseudo_headers filter_loop eq
filter_host host kept = refl

-- Filtering what was filtered changes nothing.
filter_pseudo_headers_idem :
    (headers out : Headers)
    → filter_pseudo_headers headers ≡ ok out
    → filter_pseudo_headers out ≡ ok out
filter_pseudo_headers_idem headers out e =
    let (host, kept, whole, k) = filter_pseudo_headers_shape headers out e in
    rw whole (
      filter_host host kept
      ∙ rw (filter_loop-keep kept (record { authority = none; host = host; kept = [] }) k) refl)
