-- ===== src/WsStream/Handshake/Laws.antt =====
-- Which subprotocol the answer of `Handshake.accept` (protocol/ws_stream.py) names.
use mathlib.Core.List.{append-nil}
use anycorn.Prelude.{
  All, ◌≡◌, refl, sym, ap, ◌∙◌, Bool, true, false, List, [], ◌∷◌, ◌++◌, Option, none, some,
  Bool-cases, inl, inr, if◌then◌else◌, arith,
}
use anycorn.Exec.{ok, >>?-eq-ok, ok-injective}
use anycorn.Bytes.{Bytes, Text, Headers, codes, eq, lower, is_in, starts_with}
use anycorn.Utf8.{encode, decode}
use anycorn.WsStream.State.{Wsproto, Handshake}
use anycorn.WsStream.Handshake.{
  subprotocol_header, additional, extension_header, key_header, Acceptance, accept,
}

-- The headers that name a subprotocol, in any spelling
unfoldable pub subprotocols_of : Headers → Headers
subprotocols_of [] = []
subprotocols_of ((name, value) ∷ headers) =
    let rest = subprotocols_of headers in
    if eq (lower name) (codes "sec-websocket-protocol") then (name, value) ∷ rest else rest

-- The header for what the application chose
abbrev pub header_for : Option Text → Headers
header_for none = []
header_for (some subprotocol) = (codes "sec-websocket-protocol", encode subprotocol) ∷ []

-- What the application chose was offered.
abbrev pub IsOffered : Option Text → Option (List Text) → Type 0
IsOffered none offered = Unit
IsOffered (some subprotocol) none = ⊥
IsOffered (some subprotocol) (some offered) = is_in subprotocol offered ≡ true

subprotocols_of-append :
    (xs ys : Headers) → subprotocols_of (xs ++ ys) ≡ subprotocols_of xs ++ subprotocols_of ys
unfolding subprotocols_of
subprotocols_of-append [] ys = refl
subprotocols_of-append ((n, v) ∷ xs) ys = let ih = subprotocols_of-append xs ys in ground arith

subprotocols_of-none :
    (xs ys : Headers)
    → subprotocols_of xs ≡ []
    → subprotocols_of ys ≡ []
    → subprotocols_of (xs ++ ys) ≡ []
subprotocols_of-none xs ys h k = rw (subprotocols_of-append xs ys, h, k)

-- The names of the headers are in lower case, as ASGI wants them.
abbrev pub AreLower : Headers → Type 0
AreLower headers = All (λ h. lower h.0 ≡ h.0) headers

-- A header that passes
additional-cons :
    (n : Bytes) (v : Bytes) (hs hs' : Headers)
    → additional ((n, v) ∷ hs) ≡ ok hs'
    → (eq n (codes "sec-websocket-protocol") ≡ false)
      × (rest : Headers) × (additional hs ≡ ok rest)
      × (hs' ≡ (n, v) ∷ rest)
unfolding additional
additional-cons n v hs hs' e =
    passes (decode n) (eq n (codes "sec-websocket-protocol")) (starts_with n (codes ":")) refl refl
      refl
  where
    passes :
        (o : Option Text) (p q : Bool)
        → decode n ≡ o
        → eq n (codes "sec-websocket-protocol") ≡ p
        → starts_with n (codes ":") ≡ q
        → (eq n (codes "sec-websocket-protocol") ≡ false)
          × (rest : Headers) × (additional hs ≡ ok rest)
          × (hs' ≡ (n, v) ∷ rest)
    passes none true q d f g = ground arith
    passes none false true d f g = ground arith
    passes (some t) true q d f g = ground arith
    passes (some t) false true d f g = ground arith
    passes o false false d f g =
        let (rest, r, c) =
          >>?-eq-ok (additional hs) (λ checked. ok ((n, v) ∷ checked)) (rw (f, g) at e) in
        (f, rest, r, sym (ok-injective c))

subprotocols_of-additional :
    (hs hs' : Headers) → AreLower hs → additional hs ≡ ok hs' → subprotocols_of hs' ≡ []
unfolding additional subprotocols_of
subprotocols_of-additional [] hs' l e = ground arith
subprotocols_of-additional ((n, v) ∷ hs) hs' l e =
    let (f, rest, r, c) = additional-cons n v hs hs' e in
    rw (c, l.0, f) (subprotocols_of-additional hs rest l.1 r)

subprotocol_header-ok :
    (subprotocol : Option Text) (offered : Option (List Text)) (chosen : Headers)
    → subprotocol_header subprotocol offered ≡ ok chosen
    → IsOffered subprotocol offered × (chosen ≡ header_for subprotocol)
unfolding subprotocol_header
subprotocol_header-ok none offered chosen e = (tt, ground arith)
subprotocol_header-ok (some s) none chosen e = ground arith
subprotocol_header-ok (some s) (some offered) chosen e = ground arith

header_for-subprotocols :
    (subprotocol : Option Text) → subprotocols_of (header_for subprotocol) ≡ header_for subprotocol
unfolding subprotocols_of eq lower
header_for-subprotocols none = refl
header_for-subprotocols (some s) = refl

module _ (w : Wsproto) where
  extension_header-subprotocols :
      (o : Option (List Text)) (deflate : Bool)
      → subprotocols_of (extension_header w o deflate) ≡ []
  unfolding subprotocols_of extension_header eq lower
  extension_header-subprotocols none deflate = refl
  extension_header-subprotocols (some o) deflate =
      elim (Bool-cases (eq (w.server_extensions_handshake o deflate) [])) [
        | inl e ↦ rw e refl
        | inr e ↦ rw e refl
      ]

  key_header-subprotocols : (k : Option Bytes) → subprotocols_of (key_header w k) ≡ []
  unfolding subprotocols_of key_header eq lower
  key_header-subprotocols none = refl
  key_header-subprotocols (some k) = refl

  version-subprotocols :
      (http_1 : Bool)
      → subprotocols_of (
          if http_1
          then (codes "upgrade", codes "WebSocket") ∷ (codes "connection", codes "Upgrade") ∷ []
          else [])
        ≡ []
  unfolding subprotocols_of eq lower
  version-subprotocols true = refl
  version-subprotocols false = refl

  -- Where the names of the headers that the application adds are in lower case and `accept` returns,
  -- the client has offered what the application chose, and the answer has a header named
  -- Sec-WebSocket-Protocol, in whatever spelling, exactly where it chose one: a single header, with this
  -- value.
  pub accept-subprotocol :
      (h : Handshake) (subprotocol : Option Text) (headers : Headers) (a : Acceptance w)
      → AreLower headers
      → accept w h subprotocol headers ≡ ok a
      → IsOffered subprotocol h.subprotocols × (subprotocols_of a.headers ≡ header_for subprotocol)
  unfolding accept
  accept-subprotocol h subprotocol headers a l e =
      let (chosen, c, e') = >>?-eq-ok (subprotocol_header subprotocol h.subprotocols) _ e in
      let (added, d, e'') = >>?-eq-ok (additional headers) _ e' in
      let (o, is) = subprotocol_header-ok subprotocol h.subprotocols chosen c in
      let none_added = subprotocols_of-additional headers added l d in
      let rest =
        subprotocols_of-none (extension_header w h.extensions h.websocket_permessage_deflate) _
          (extension_header-subprotocols h.extensions h.websocket_permessage_deflate)
          (subprotocols_of-none (key_header w h.key) _ (key_header-subprotocols h.key) (
            subprotocols_of-none
              (if eq h.http_version (codes "1.1")
                then (codes "upgrade", codes "WebSocket")
                  ∷ (codes "connection", codes "Upgrade")
                  ∷ []
                else [])
              added (version-subprotocols (eq h.http_version (codes "1.1"))) none_added)) in
      (
        o,
        ap (λ b. subprotocols_of b.headers) (sym (ok-injective e''))
            ∙ subprotocols_of-append chosen _
            ∙ ap (λ hs. subprotocols_of chosen ++ hs) rest
            ∙ append-nil (subprotocols_of chosen)
            ∙ ap subprotocols_of is
            ∙ header_for-subprotocols subprotocol,
      )
