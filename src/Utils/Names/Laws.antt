-- ===== src/Utils/Names/Laws.antt =====
-- What `valid_server_name` answers, and that an escaped name can be read back.
use anycorn.Prelude.{
  ◌⊎◌, inl, inr, ◌↔◌, ◌&&◌, Bool-cases, ℕ, ◌≡◌, refl, ap, ◌∙◌, Bool, true, false, ◌||◌, [], ◌∷◌,
  arith, ◌==◌,
}
use anycorn.Exec.{ok, ◌>>?◌}
use anycorn.Bytes.{Bytes, Text, Headers, codes, eq, is_in, lower}
use anycorn.Utf8.{decode}
use anycorn.Config.{Config}
use anycorn.Events.{Request}
use anycorn.Utils.Names.{
  strict, host_of, valid_server_name, is_special, escape_if, escape_rest, escape_rfc4514_value,
  is_empty, is_last,
}

-- The first header of that name, if any, spelled in any case.
pub data IsHost : Headers → Bytes → Type 0 where
  here :
      {name value : Bytes} {headers : Headers}
      → eq (lower name) (codes "host") ≡ true
      → IsHost ((name, value) ∷ headers) value
  there :
      {name value host : Bytes} {headers : Headers}
      → eq (lower name) (codes "host") ≡ false
      → IsHost headers host
      → IsHost ((name, value) ∷ headers) host

pub host_of-IsHost :
    {headers : Headers} {host : Bytes}
    → IsHost headers host
    → host_of headers ≡ strict (decode host)
unfolding host_of
host_of-IsHost (here e) = rw e
host_of-IsHost (there e h) = rw e (host_of-IsHost h)

-- With server names configured, a request is served exactly when its first `Host` header, decoded,
-- is one of them; one that is not UTF-8 raises.
pub valid_server_name_lem :
    (config : Config) (r : Request) (host : Bytes)
    → is_empty config.server_names ≡ false
    → IsHost r.headers host
    → valid_server_name config r ≡ (strict (decode host) >>? λ t. ok (is_in t config.server_names))
unfolding valid_server_name
valid_server_name_lem config r host names h = rw names (rw (host_of-IsHost h) refl)

-- Reading an escaped value: a backslash stands for the character behind it.
abbrev pub unescape : Text → Text
unescape [] = []
unescape (c ∷ []) = c ∷ []
unescape (c ∷ d ∷ s) = elim (c == 92) [ true ↦ d ∷ unescape s | false ↦ c ∷ unescape (d ∷ s) ]

unescape-plain : (c : ℕ) (s : Text) → (c == 92) ≡ false → unescape (c ∷ s) ≡ c ∷ unescape s
unescape-plain c [] h = refl
unescape-plain c (d ∷ s) h = rw (h, unescape) refl

special_backslash : (c : ℕ) → is_special c ≡ false → (c == 92) ≡ false
unfolding is_special
special_backslash c h = ground arith

unescape-escape_if :
    (b : Bool) (c : ℕ) (s t : Text)
    → (b ≡ false → is_special c ≡ false)
    → unescape s ≡ t
    → unescape (escape_if b c s) ≡ c ∷ t
unescape-escape_if true c s t h e = ap (λ l. c ∷ l) e
unescape-escape_if false c s t h e =
    unescape-plain c s (special_backslash c (h refl)) ∙ ap (λ l. c ∷ l) e

or_left : (a b : Bool) → (a || b) ≡ false → a ≡ false
or_left false b h = refl
or_left true b h = cc

unescape-escape_rest : (s : Text) → unescape (escape_rest s) ≡ s
unfolding escape_rest
unescape-escape_rest [] = refl
unescape-escape_rest (c ∷ s) =
    unescape-escape_if _ c (escape_rest s) s (or_left (is_special c) _) (unescape-escape_rest s)

-- RFC 4514: the characters that are escaped wherever they stand
abbrev pub IsReserved : ℕ → Type 0
IsReserved c =
    (c ≡ b',') ⊎ ((c ≡ b'+') ⊎ ((c ≡ 34) ⊎ ((c ≡ 92) ⊎ ((c ≡ b'<') ⊎ ((c ≡ b'>') ⊎ (c ≡ b';'))))))

-- and, behind the first one, a space at the end: `s` is what follows.
abbrev pub MustEscape : ℕ → Text → Type 0
MustEscape c s = IsReserved c ⊎ ((c ≡ 32) × (s ≡ []))

-- What may stand behind the first character: a pair where the character must be escaped, and only
-- there.
pub data IsTail : Text → Type 0 where
  done : IsTail []
  pair : {c : ℕ} {s : Text} → MustEscape c s → IsTail s → IsTail (92 ∷ c ∷ s)
  plain : {c : ℕ} {s : Text} → ¬ MustEscape c s → IsTail s → IsTail (c ∷ s)

-- The whole: its first character is escaped if it is reserved, a `#` or a space.
pub data IsRfc4514 : Text → Type 0 where
  empty : IsRfc4514 []
  pair :
      {c : ℕ} {s : Text}
      → IsReserved c ⊎ ((c ≡ b'#') ⊎ (c ≡ 32))
      → IsTail s
      → IsRfc4514 (92 ∷ c ∷ s)
  plain :
      {c : ℕ} {s : Text} → ¬ (IsReserved c ⊎ ((c ≡ b'#') ⊎ (c ≡ 32))) → IsTail s → IsRfc4514 (c ∷ s)

is_special-IsReserved : (c : ℕ) → (is_special c ≡ true) ↔ IsReserved c
unfolding is_special
is_special-IsReserved c = (λ h. ground arith, λ h. ground arith)

not-empty-escape_if : (b : Bool) (c : ℕ) (s : Text) → ¬ (escape_if b c s ≡ [])
not-empty-escape_if true c s h = cc
not-empty-escape_if false c s h = cc

escape_rest-MustEscape :
    (c : ℕ) (s : Text)
    → ((is_special c || is_last s && c == 32) ≡ true) ↔ MustEscape c (escape_rest s)
unfolding escape_rest is_special
escape_rest-MustEscape c [] = (
  λ h. elim (Bool-cases (is_special c)) [
    | inl e ↦ inl ((is_special-IsReserved c).0 e)
    | inr e ↦ inr (ground (arith, is_special), refl)
  ],
  λ h. elim h [ inl e ↦ ground arith | inr (e, _) ↦ ground arith ],
)
escape_rest-MustEscape c (d ∷ s) = (
  λ h. inl (ground arith),
  λ h. elim h [
    | inl e ↦ ground arith
    | inr (_, e) ↦ absurd (not-empty-escape_if _ d (escape_rest s) e)
  ],
)

IsTail-escape_if :
    (b : Bool) (c : ℕ) (s : Text)
    → (b ≡ true) ↔ MustEscape c s
    → IsTail s
    → IsTail (escape_if b c s)
IsTail-escape_if true c s h t = IsTail.pair (h.0 refl) t
IsTail-escape_if false c s h t = IsTail.plain (λ m. let e = h.1 m in cc) t

escape_rest-IsTail : (s : Text) → IsTail (escape_rest s)
unfolding escape_rest
escape_rest-IsTail [] = done
escape_rest-IsTail (c ∷ s) =
    IsTail-escape_if _ c (escape_rest s) (escape_rest-MustEscape c s) (escape_rest-IsTail s)

escape_rfc4514_value-IsRfc4514 : (s : Text) → IsRfc4514 (escape_rfc4514_value s)
unfolding escape_rfc4514_value
escape_rfc4514_value-IsRfc4514 [] = empty
escape_rfc4514_value-IsRfc4514 (c ∷ s) =
    first _ (unfold is_special in (λ h. ground arith, λ h. ground arith))
  where
    first :
        (b : Bool)
        → (b ≡ true) ↔ (IsReserved c ⊎ ((c ≡ b'#') ⊎ (c ≡ 32)))
        → IsRfc4514 (escape_if b c (escape_rest s))
    first true h = IsRfc4514.pair (h.0 refl) (escape_rest-IsTail s)
    first false h = IsRfc4514.plain (λ m. let e = h.1 m in cc) (escape_rest-IsTail s)

unescape-escaped : (s : Text) → unescape (escape_rfc4514_value s) ≡ s
unfolding escape_rfc4514_value
unescape-escaped [] = refl
unescape-escaped (c ∷ s) =
    unescape-escape_if _ c (escape_rest s) s (λ h. or_left (is_special c) _ (or_left _ _ h))
      (unescape-escape_rest s)

-- An escaped attribute value has a backslash exactly before the characters that RFC 4514 wants
-- escaped: `,+"\<>;` anywhere, a `#` or a space at the start, a space at the end (NUL is left out
-- here). Reading it gives the value back.
pub unescape-escape_rfc4514_value :
    (s : Text) → IsRfc4514 (escape_rfc4514_value s) × (unescape (escape_rfc4514_value s) ≡ s)
unescape-escape_rfc4514_value s = (escape_rfc4514_value-IsRfc4514 s, unescape-escaped s)
