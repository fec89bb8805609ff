-- ===== src/Middleware/HttpToHttps/Call.antt =====
-- `HTTPToHTTPSRedirectMiddleware.__call__` (middleware/http_to_https.py): which requests are answered,
-- and with what.
use anycorn.Prelude.{
  ℕ, ◌≡◌, ◌↔◌, refl, Bool, true, false, List, [], ◌∷◌, Option, none, some, Bool-cases, inl, inr,
  if◌then◌else◌,
}
use anycorn.Exec.{Result, ok, err, ◌>>?◌, ok-injective}
use anycorn.Bytes.{Text, Headers, codes, eq}
use anycorn.Utf8.{encode}
use anycorn.Middleware.HttpToHttps.{Scope, new_url}

-- `scope["type"]`
pub data Kind : Type 0 where
  http websocket lifespan : Kind

-- The keys that decide, beside those of the URL. `can_deny` is whether "websocket.http.response" is
-- among the extensions.
pub record Call : Type 0 where
  pub kind : Kind
  pub scheme : Text
  pub http_version : Text
  pub can_deny : Bool
  pub scope : Scope

-- The messages: the start of a response of this kind, its body, or the close of a WebSocket
pub data Message : Type 0 where
  response_start : Kind → ℕ → Headers → Message
  response_body : Kind → Message
  websocket_close : Message

-- What the middleware does: it calls the application, or sends messages.
pub data Outcome : Type 0 where
  forwards : Outcome
  sends : List Message → Outcome

-- The response to a request, with the URL where there is one
unfoldable pub redirect : Kind → Option Text → List Message
redirect kind none =
    response_start kind 400 ((codes "content-length", codes "0") ∷ []) ∷ response_body kind ∷ []
redirect kind (some url) =
    response_start kind 307 ((codes "location", encode url) ∷ []) ∷ response_body kind ∷ []

module _ (host : Option Text) where
  -- `_send_http_redirect`
  unfoldable pub send_http_redirect : Scope → Result Outcome
  unfolding redirect
  send_http_redirect scope =
      new_url host (codes "https") scope >>? λ url. ok (sends (redirect http url))

  -- `"https"` for HTTP/2, and else `"wss"`
  unfoldable pub websocket_scheme : Text → Text
  websocket_scheme http_version = if eq http_version (codes "2") then codes "https" else codes "wss"

  -- `_send_websocket_redirect`
  unfoldable pub send_websocket_redirect : Text → Scope → Result Outcome
  unfolding redirect websocket_scheme
  send_websocket_redirect http_version scope =
      new_url host (websocket_scheme http_version) scope >>? λ url.
      ok (sends (redirect websocket url))

  -- `__call__`, by the type of the scope
  unfoldable pub call_for : Kind → Call → Result Outcome
  unfolding send_http_redirect send_websocket_redirect
  call_for http c = if eq c.scheme (codes "http") then send_http_redirect c.scope else ok forwards
  call_for websocket c =
      if eq c.scheme (codes "ws")
      then (if c.can_deny
          then send_websocket_redirect c.http_version c.scope
          else ok (sends (websocket_close ∷ [])))
      else ok forwards
  call_for lifespan c = ok forwards

  -- `__call__`
  unfoldable pub call : Call → Result Outcome
  unfolding call_for
  call c = call_for c.kind c

-- The request came over a connection that is not secure.
abbrev pub is_insecure : Kind → Text → Bool
is_insecure http scheme = eq scheme (codes "http")
is_insecure websocket scheme = eq scheme (codes "ws")
is_insecure lifespan scheme = false

sent_not_forwarded :
    (kind : Kind) (r : Result (Option Text))
    → (r >>? λ url. ok (sends (redirect kind url))) ≡ ok forwards
    → ⊥
sent_not_forwarded kind (ok url) e = not_sent (ok-injective e)
  where
    not_sent : sends (redirect kind url) ≡ forwards → ⊥
    not_sent q = cc
sent_not_forwarded kind (err x) e = cc

closed_not_forwarded : ok (sends (websocket_close ∷ [])) ≡ ok forwards → ⊥
closed_not_forwarded e = not_sent (ok-injective e)
  where
    not_sent : sends (websocket_close ∷ []) ≡ forwards → ⊥
    not_sent q = cc

not_forwarded :
    (host : Option Text) (kind : Kind) (c : Call)
    → is_insecure kind c.scheme ≡ true
    → call_for host kind c ≡ ok forwards
    → ⊥
unfolding call_for send_http_redirect send_websocket_redirect
not_forwarded host http c h e =
    sent_not_forwarded http (new_url host (codes "https") c.scope) (rw h at e)
not_forwarded host websocket c h e = elim (Bool-cases c.can_deny) [
  | inl d ↦
      sent_not_forwarded websocket (new_url host (websocket_scheme host c.http_version) c.scope)
        (rw (h, d) at e)
  | inr d ↦ closed_not_forwarded (rw (h, d) at e)
]
not_forwarded host lifespan c h e = absurd (false≢true h)
  where
    false≢true : false ≡ true → ⊥
    false≢true q = cc

forwards_secure :
    (host : Option Text) (kind : Kind) (c : Call)
    → is_insecure kind c.scheme ≡ false
    → call_for host kind c ≡ ok forwards
unfolding call_for
forwards_secure host http c h = rw h refl
forwards_secure host websocket c h = rw h refl
forwards_secure host lifespan c h = refl

-- The application is called exactly for the requests that did not come over an insecure connection.
call-forwards :
    (host : Option Text) (c : Call)
    → (call host c ≡ ok forwards) ↔ (is_insecure c.kind c.scheme ≡ false)
unfolding call
call-forwards host c = (
  λ e. elim (Bool-cases (is_insecure c.kind c.scheme)) [
    | inl h ↦ absurd (not_forwarded host c.kind c h e)
    | inr h ↦ h
  ],
  forwards_secure host c.kind c,
)
