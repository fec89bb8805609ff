-- ===== src/AppWrappers/Environ/Laws.antt =====
-- What the headers of a request cannot change in the environ (app_wrappers.py).
use anycorn.Prelude.{
  ◌≡◌, ◌∙◌, sym, ap, refl, Bool, true, false, ◌||◌, [], ◌∷◌, Option, none, some, Bool-cases, inl,
  inr, if◌then◌else◌,
}
use anycorn.Bytes.{Bytes, Text, Headers, codes, eq, starts_with}
use anycorn.Bytes.Laws.{eq_iff}
use anycorn.HttpStream.State.{Scope}
use anycorn.AppWrappers.State.{Python}
use anycorn.AppWrappers.Environ.{
  Environ, get, put, path_below, scope_entries, header_key, add_headers, environ_at, build_environ,
}

-- A key that a header may have
abbrev pub is_header_key : Text → Bool
is_header_key key =
    (eq key (codes "CONTENT_LENGTH") || eq key (codes "CONTENT_TYPE"))
    || starts_with key (codes "HTTP_")

true≢false : true ≡ false → ⊥
true≢false e = cc

none≢some : {environ : Environ} → none ≡ some environ → ⊥
none≢some e = cc

some-injective {ℓ} : {A : Type ℓ} {a b : A} → some a ≡ some b → a ≡ b
some-injective e = cc

get-put :
    (key k : Text) (value : Text) (environ : Environ)
    → eq k key ≡ false
    → get key (put k value environ) ≡ get key environ
unfolding get put
get-put key k value [] h = rw h refl
get-put key k value ((k', old) ∷ environ) h = elim (Bool-cases (eq k' k)) [
  | inl q ↦
      let differs : eq k' key ≡ false = ap (λ n. eq n key) ((eq_iff k' k).0 q) ∙ h in
      rw (q, differs) refl
  | inr q ↦ rw q (kept (eq k' key) (get-put key k value environ h))
]
  where
    kept :
        (b : Bool) {o o' : Option Text}
        → o ≡ o'
        → (if b then some old else o) ≡ (if b then some old else o')
    kept true e = refl
    kept false e = e

header_key-is_header_key : (py : Python) (name : Bytes) → is_header_key (header_key py name) ≡ true
unfolding header_key eq starts_with
header_key-is_header_key py name = elim (Bool-cases (eq name (codes "content-length"))) [
  | inl h ↦ rw h refl
  | inr h ↦ elim (Bool-cases (eq name (codes "content-type"))) [
    | inl k ↦ rw (h, k) refl
    | inr k ↦ rw (h, k) refl
  ]
]

-- No header has a key that is not a header's.
differs :
    (py : Python) (key : Text) (name : Bytes)
    → is_header_key key ≡ false
    → eq (header_key py name) key ≡ false
differs py key name h = elim (Bool-cases (eq (header_key py name) key)) [
  | inl q ↦ absurd (
      true≢false (
        sym (header_key-is_header_key py name)
        ∙ ap is_header_key ((eq_iff (header_key py name) key).0 q)
        ∙ h))
  | inr q ↦ q
]

add_headers-get :
    (py : Python) (key : Text) (headers : Headers) (environ : Environ)
    → is_header_key key ≡ false
    → get key (add_headers py headers environ) ≡ get key environ
unfolding add_headers
add_headers-get py key [] environ h = refl
add_headers-get py key ((name, value) ∷ headers) environ h =
    add_headers-get py key headers _ h
    ∙ get-put key (header_key py name) _ environ (differs py key name h)

environ_at-get :
    (py : Python) (scope : Scope) (o : Option Text) (key : Text) (environ : Environ)
    → is_header_key key ≡ false
    → environ_at py scope o ≡ some environ
    → (path_info : Text) × (o ≡ some path_info)
      × (get key environ ≡ get key (scope_entries py scope path_info))
unfolding environ_at
environ_at-get py scope none key environ h e = absurd (none≢some e)
environ_at-get py scope (some path_info) key environ h e = (
  path_info,
  refl,
  ap (get key) (sym (some-injective e))
      ∙ add_headers-get py key scope.headers (scope_entries py scope path_info) h,
)

-- Whatever headers a request has, the application sees an entry whose key is no header's as it would
-- without them.
pub build_environ-get :
    (py : Python) (scope : Scope) (key : Text) (environ bare : Environ)
    → build_environ py scope ≡ some environ
    → build_environ py (record scope { headers = [] }) ≡ some bare
    → is_header_key key ≡ false
    → get key environ ≡ get key bare
unfolding build_environ scope_entries
build_environ-get py scope key environ bare e b h =
    let (p, o, k) =
      environ_at-get py scope (path_below scope.root_path scope.path) key environ h e in
    let (p', o', k') =
      environ_at-get py (record scope { headers = [] }) (path_below scope.root_path scope.path) key
        bare h b in
    k
    ∙ ap (λ path_info. get key (scope_entries py scope path_info)) (some-injective (sym o ∙ o'))
    ∙ sym k'
