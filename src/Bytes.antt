-- ===== src/Bytes.antt =====
-- Python's `bytes` and `str`: a list of numbers, the bytes or the code points, with the methods of
-- the two that the repository calls. A `bytes` holds numbers below 256, which `IsBytes` states
-- where a proof needs it.
pub mod Laws
use Prim.Native.Char.{code}
use Prim.Native.String.{String}
use anycorn.Prelude.{
  ℕ, ◌+◌, ◌<◌, Bool, true, false, ◌&&◌, ◌||◌, List, [], ◌∷◌, map, Option, none, some, leb, ◌==◌,
  if◌then◌else◌, All,
}

abbrev pub Bytes : Type 0
Bytes = List ℕ

abbrev pub Text : Type 0
Text = List ℕ

abbrev pub IsBytes : Bytes → Type 0
IsBytes = All (λ b. b < 256)

-- A literal `b"..."` or `"..."`.
abbrev pub codes : String → List ℕ
codes String.[] = []
codes (String.◌∷◌ c s) = code c ∷ codes s

-- `a == b`
unfoldable pub eq : List ℕ → List ℕ → Bool
eq [] [] = true
eq (x ∷ xs) (y ∷ ys) = x == y && eq xs ys
eq _ _ = false

-- `s in {...}`
unfoldable pub is_in : List ℕ → List (List ℕ) → Bool
unfolding eq
is_in s [] = false
is_in s (t ∷ ts) = eq s t || is_in s ts

-- `s.startswith(prefix)`
unfoldable pub starts_with : List ℕ → List ℕ → Bool
starts_with s [] = true
starts_with [] (p ∷ ps) = false
starts_with (x ∷ xs) (p ∷ ps) = x == p && starts_with xs ps

-- `b in s` for one byte
unfoldable pub has : ℕ → List ℕ → Bool
has b [] = false
has b (x ∷ xs) = x == b || has b xs

-- `s.partition(sep)` for a separator of one byte: what stands before it and after it.
unfoldable pub partition : ℕ → List ℕ → List ℕ × List ℕ
partition sep [] = ([], [])
partition sep (x ∷ xs) =
    let (before, after) = partition sep xs in if x == sep then ([], xs) else (x ∷ before, after)

-- `s.split(sep)` for a separator of one byte: never the empty list.
abbrev pub push_first : ℕ → List (List ℕ) → List (List ℕ)
push_first x [] = (x ∷ []) ∷ []
push_first x (part ∷ parts) = (x ∷ part) ∷ parts

unfoldable pub split : ℕ → List ℕ → List (List ℕ)
split sep [] = [] ∷ []
split sep (x ∷ xs) = let rest = split sep xs in if x == sep then [] ∷ rest else push_first x rest

-- `bytes.lower()`: the ASCII letters only.
unfoldable pub lower_byte : ℕ → ℕ
lower_byte b = if leb 65 b && leb b 90 then b + 32 else b

unfoldable pub lower : Bytes → Bytes
unfolding lower_byte
lower = map lower_byte

-- The whitespace of `bytes.strip()`.
unfoldable pub is_space : ℕ → Bool
is_space b = leb 9 b && leb b 13 || b == 32

-- The whitespace of `str.strip()` and `str.isspace()` among the code points below 256, which are
-- all that a header decoded as latin-1 holds.
unfoldable pub is_latin_space : ℕ → Bool
unfolding is_space
is_latin_space b = is_space b || leb 28 b && leb b 31 || b == 133 || b == 160

module _ (space : ℕ → Bool) where
  unfoldable pub lstrip : List ℕ → List ℕ
  lstrip [] = []
  lstrip (x ∷ xs) = if space x then lstrip xs else x ∷ xs

  abbrev pub drop_last_space : ℕ → List ℕ → List ℕ
  drop_last_space x [] = if space x then [] else x ∷ []
  drop_last_space x (y ∷ ys) = x ∷ y ∷ ys

  unfoldable pub rstrip : List ℕ → List ℕ
  rstrip [] = []
  rstrip (x ∷ xs) = drop_last_space x (rstrip xs)

unfoldable pub strip : Bytes → Bytes
unfolding is_space lstrip rstrip
strip s = rstrip is_space (lstrip is_space s)

unfoldable pub latin_strip : Text → Text
unfolding is_latin_space lstrip rstrip
latin_strip s = rstrip is_latin_space (lstrip is_latin_space s)

-- `str.lower()` of text decoded as latin-1: the ASCII letters and those from 192 to 222 but 215.
unfoldable pub latin_lower : Text → Text
latin_lower [] = []
latin_lower (c ∷ s) =
    (if (leb 65 c && leb c 90) || (leb 192 c && leb c 214) || (leb 216 c && leb c 222)
      then c + 32
      else c)
    ∷ latin_lower s

-- A list of headers: names and values in their order.
abbrev pub Headers : Type 0
Headers = List (Bytes × Bytes)
