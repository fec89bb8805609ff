-- ===== src/Exec.antt =====
-- Methods that change an object and may raise. What was written before an exception stays
-- written, so the state comes back beside the error too. The coroutines of the repository are such
-- methods; where another task may run at an `await`, the module that models the coroutine says so.
pub mod Hoare
use anycorn.Prelude.{ℕ, List, ◌≡◌, refl, Bool, if◌then◌else◌}

-- The Python exceptions that the modelled code raises or passes on.
pub data Error : Type 0 where
  invalid_request_path unexpected_message value_error index_error type_error : Error
  attribute_error key_error assertion_error os_error unicode_decode_error : Error
  frame_too_large local_protocol_error buffer_complete exception : Error
  runtime_error unicode_encode_error invalid_path closed_resource cancelled : Error
  no_available_push_id broken_resource busy_resource end_of_stream timed_out ssl_zero_return
        not_implemented :
      Error
  h2_protocol_error missing_stream duplicate_stream too_many_streams : Error
  -- with what failed, and the application's message
  lifespan_failure : List ℕ → List ℕ → Error
  lifespan_timeout : List ℕ → Error
  -- with the bytes received so far, the headers of the request and its settings
  h2c_required : List ℕ → List (List ℕ × List ℕ) → List ℕ → Error
  h2_assumed : List ℕ → Error

pub data Result {ℓ} (A : Type ℓ) : Type ℓ where
  ok : A → Result A
  err : Error → Result A

abbrev pub Exec : Type 0 → Type 0 → Type 0
Exec S A = S → Result A × S

module _ {S A : Type 0} where
  unfoldable pub pure : A → Exec S A
  pure a s = (ok a, s)

  unfoldable pub raise : Error → Exec S A
  raise e s = (err e, s)

  unfoldable pub lift : Result A → Exec S A
  lift r s = (r, s)

  unfoldable pub gets : (S → A) → Exec S A
  gets f s = (ok (f s), s)

module _ {S : Type 0} where
  unfoldable pub modify : (S → S) → Exec S (Unit {0})
  modify f s = (ok tt, f s)

  unfoldable pub skip : Exec S (Unit {0})
  skip s = (ok tt, s)

  -- `if b: m`
  unfoldable pub when : Bool → Exec S (Unit {0}) → Exec S (Unit {0})
  when b m = if b then m else skip

  abbrev pub handled :
      (Error → Bool) → Exec S (Unit {0}) → Result (Unit {0}) × S → Result (Unit {0}) × S
  handled is_caught handler (ok u, s) = (ok u, s)
  handled is_caught handler (err e, s) = if is_caught e then handler s else (err e, s)

  -- `try: m`, with the handler of the exceptions that are caught
  unfoldable pub except : Exec S (Unit {0}) → (Error → Bool) → Exec S (Unit {0}) → Exec S (Unit {0})
  except m is_caught handler s = handled is_caught handler (m s)

module _ {S A B : Type 0} where
  abbrev pub continue : Result A → (A → Exec S B) → Exec S B
  continue (ok a) f s = f a s
  continue (err e) f s = (err e, s)

  infixl 5 ◌>>=◌
  -- Opening this opens `pure`, `raise`, `lift`, `gets`, `modify`, `skip` and
  -- `when` too.
  unfoldable pub ◌>>=◌ : Exec S A → (A → Exec S B) → Exec S B
  unfolding pure raise lift gets modify skip when
  ◌>>=◌ m f s = let (r, s') = m s in continue r f s'

module _ {S B : Type 0} where
  infixl 5 ◌>>◌
  abbrev pub ◌>>◌ : Exec S (Unit {0}) → Exec S B → Exec S B
  m >> k = m >>= λ _. k

-- `r` as a value of the code that cannot change state
infixl 5 ◌>>?◌
abbrev pub ◌>>?◌ : {A B : Type 0} → Result A → (A → Result B) → Result B
ok a >>? f = f a
err e >>? f = err e

-- Inversion of a successful chain.
pub >>?-eq-ok :
    {A B : Type 0} (r : Result A) (f : A → Result B) {b : B}
    → (r >>? f) ≡ ok b
    → (a : A) × (r ≡ ok a) × (f a ≡ ok b)
>>?-eq-ok (ok a) f h = (a, refl, h)
>>?-eq-ok (err e) f h = cc

pub ok-injective {ℓ} : {A : Type ℓ} {a b : A} → ok a ≡ ok b → a ≡ b
ok-injective p = cc
