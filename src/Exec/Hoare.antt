-- ===== src/Exec/Hoare.antt =====
-- Triples for methods: from a state with `P`, the method returns a value and a state with `Q`, or
-- raises in a state with `E`. One rule for each way to build a method.
use anycorn.Prelude.{◌≡◌, refl, Bool, true, false, if◌then◌else◌, if-intro}
use anycorn.Exec.{
  Error, Result, ok, err, Exec, pure, raise, lift, gets, modify, skip, when, handled, except,
  continue, ◌>>=◌,
}

abbrev pub Post {ℓ} : {S A : Type 0} → (S → Type ℓ) → (A → S → Type ℓ) → Result A × S → Type ℓ
Post E Q (ok a, s) = Q a s
Post E Q (err e, s) = E s

pub record Triple {ℓ} {S A : Type 0} (E P : S → Type ℓ) (m : Exec S A) (Q : A → S → Type ℓ)
    : Type ℓ where
  pub at : (s : S) → P s → Post E Q (m s)

module _ {ℓ} {S A : Type 0} {E P : S → Type ℓ} where
  pub T-pure : {Q : A → S → Type ℓ} (a : A) → ((s : S) → P s → Q a s) → Triple E P (pure a) Q
  unfolding pure
  T-pure a h = record { at = h }

  pub T-raise : {Q : A → S → Type ℓ} (e : Error) → ((s : S) → P s → E s) → Triple E P (raise e) Q
  unfolding raise
  T-raise e h = record { at = h }

  pub T-gets :
      {Q : A → S → Type ℓ} (f : S → A) → ((s : S) → P s → Q (f s) s) → Triple E P (gets f) Q
  unfolding gets
  T-gets f h = record { at = h }

  pub T-if :
      {Q : A → S → Type ℓ} (b : Bool) {m n : Exec S A}
      → (b ≡ true → Triple E P m Q)
      → (b ≡ false → Triple E P n Q)
      → Triple E P (if b then m else n) Q
  T-if true h k = h refl
  T-if false h k = k refl

  pub T-lift :
      {Q : A → S → Type ℓ} (r : Result A)
      → ((a : A) → r ≡ ok a → (s : S) → P s → Q a s)
      → ((s : S) → P s → E s)
      → Triple E P (lift r) Q
  unfolding lift
  T-lift (ok a) h k = record { at = h a refl }
  T-lift (err e) h k = record { at = k }

  -- A stronger hypothesis.
  pub T-pre :
      {P' : S → Type ℓ} {m : Exec S A} {Q : A → S → Type ℓ}
      → ((s : S) → P s → P' s)
      → Triple E P' m Q
      → Triple E P m Q
  T-pre h k = record { at = λ s p. k.at s (h s p) }

  -- A weaker conclusion.
  pub T-post :
      {m : Exec S A} {Q Q' : A → S → Type ℓ}
      → ((a : A) (s : S) → Q a s → Q' a s)
      → Triple E P m Q
      → Triple E P m Q'
  T-post {m} {Q} {Q'} h k = record { at = λ s p. weaker (m s).0 (m s).1 (k.at s p) }
    where
      weaker : (r : Result A) (s : S) → Post E Q (r, s) → Post E Q' (r, s)
      weaker (ok a) s q = h a s q
      weaker (err e) s q = q

  -- A weaker conclusion where the method raises.
  pub T-err :
      {E' : S → Type ℓ} {m : Exec S A} {Q : A → S → Type ℓ}
      → ((s : S) → E s → E' s)
      → Triple E P m Q
      → Triple E' P m Q
  T-err {E'} {m} {Q} h k = record { at = λ s p. weaker (m s).0 (m s).1 (k.at s p) }
    where
      weaker : (r : Result A) (s : S) → Post E Q (r, s) → Post E' Q (r, s)
      weaker (ok a) s q = q
      weaker (err e) s q = h s q

  -- A method for each state, as one that begins by reading the state.
  pub T-state :
      {Q : A → S → Type ℓ} (m : Exec S A) → ((s : S) → P s → Post E Q (m s)) → Triple E P m Q
  T-state m h = record { at = h }

module _ {ℓ} {S : Type 0} {E P : S → Type ℓ} where
  pub T-modify :
      {Q : Unit {0} → S → Type ℓ} (f : S → S)
      → ((s : S) → P s → Q tt (f s))
      → Triple E P (modify f) Q
  unfolding modify
  T-modify f h = record { at = h }

  pub T-skip : {Q : Unit {0} → S → Type ℓ} → ((s : S) → P s → Q tt s) → Triple E P skip Q
  unfolding skip
  T-skip h = record { at = h }

  pub T-when :
      {Q : Unit {0} → S → Type ℓ} (b : Bool) {m : Exec S (Unit {0})}
      → (b ≡ true → Triple E P m Q)
      → (b ≡ false → (s : S) → P s → Q tt s)
      → Triple E P (when b m) Q
  unfolding when skip
  T-when true h k = h refl
  T-when false h k = record { at = k refl }

  pub T-except :
      {m handler : Exec S (Unit {0})} (is_caught : Error → Bool) {Q : Unit {0} → S → Type ℓ}
      → Triple E P m Q
      → Triple E E handler Q
      → Triple E P (except m is_caught handler) Q
  unfolding except
  T-except {m} {handler} is_caught {Q} t k = record { at = λ s p. caught (m s) (t.at s p) }
    where
      caught : (r : Result (Unit {0}) × S) → Post E Q r → Post E Q (handled is_caught handler r)
      caught (ok u, s) q = q
      caught (err e, s) q = if-intro (Post E Q) (is_caught e) (λ _. k.at s q) (λ _. q)

module _ {ℓ} {S A B : Type 0} {E : S → Type ℓ} where
  Post-continue :
      {Q : A → S → Type ℓ} {R : B → S → Type ℓ} (f : A → Exec S B)
      → ((a : A) → Triple E (Q a) (f a) R)
      → (r : Result A) (s : S) → Post E Q (r, s)
      → Post E R (continue r f s)
  Post-continue f hf (ok a) s h = (hf a).at s h
  Post-continue f hf (err e) s h = h

module _ {ℓ} {S A B : Type 0} {E P : S → Type ℓ} where
  infixl 5 ◌>>>◌
  pub ◌>>>◌ :
      {m : Exec S A} {f : A → Exec S B} {Q : A → S → Type ℓ} {R : B → S → Type ℓ}
      → Triple E P m Q
      → ((a : A) → Triple E (Q a) (f a) R)
      → Triple E P (m >>= f) R
  unfolding ◌>>=◌
  ◌>>>◌ {m} {f} hm hf = record {
    at = λ s h. let (r, s') = m s in Post-continue f hf r s' (hm.at s h);
  }

-- A triple that ends where it may also raise keeps a predicate whatever happens.
pub keeps {ℓ} :
    {S A : Type 0} {E P : S → Type ℓ} {m : Exec S A}
    → Triple E P m (λ _. E)
    → (s : S) → P s
    → E (m s).1
keeps {S} {A} {E} {m = m} t s h = either (m s).0 (m s).1 (t.at s h)
  where
    either : (r : Result A) (s' : S) → Post E (λ _. E) (r, s') → E s'
    either (ok a) s' p = p
    either (err e) s' p = p
