-- ===== src/Action/Keeps.antt =====
-- What a run of an action keeps, and what a value that it returns satisfies: one rule for each way
-- to build an action.
use sentinel_gpt.Common.{◌≡◌, refl, Bool, true, false, if◌then◌else◌}
use sentinel_gpt.Errors.{
  Error, Result, ok, err, Returns, returned, raised, Returns-self, Returns-any,
}
use sentinel_gpt.Action.{Action, pure, raise, lift, reads, asks, refuse_if, proceed, ◌>>=◌}

-- From a state where `P` holds, `m` ends in one where `P` holds, whether it returns or raises, and
-- a value that it returns satisfies `Q`.
pub record Keeps {ℓ} {S A : Type ℓ} (P : S → Type ℓ) (Q : A → Type ℓ) (m : Action S A)
    : Type ℓ where
  pub state : (s : S) → P s → P (m s).1
  pub value : (s : S) → P s → Returns Q (m s).0

module _ {ℓ} {S A : Type ℓ} {P : S → Type ℓ} {Q : A → Type ℓ} where
  pub Keeps-pure : (a : A) → Q a → Keeps P Q (pure a)
  Keeps-pure a q = record { state = λ s h. h; value = λ s h. returned q }

  pub Keeps-raise : (e : Error) → Keeps P Q (raise e)
  Keeps-raise e = record { state = λ s h. h; value = λ s h. raised }

  pub Keeps-lift : (r : Result A) → Returns Q r → Keeps P Q (lift r)
  Keeps-lift r q = record { state = λ s h. h; value = λ s h. q }

  -- A step that only reads returns what the state at hand allows.
  pub Keeps-reads : (f : S → Result A) → ((s : S) → P s → Returns Q (f s)) → Keeps P Q (reads f)
  Keeps-reads f k = record { state = λ s h. h; value = k }

  pub Keeps-if :
      (b : Bool) (m n : Action S A)
      → (b ≡ true → Keeps P Q m)
      → (b ≡ false → Keeps P Q n)
      → Keeps P Q (if b then m else n)
  Keeps-if true m n km kn = km refl
  Keeps-if false m n km kn = kn refl

module _ {ℓ} {S A B : Type ℓ} {P : S → Type ℓ} {Q : A → Type ℓ} {R : B → Type ℓ} where
  proceed_state :
      (f : A → Action S B) (r : Result A) (s : S)
      → ((a : A) → Q a → Keeps P R (f a))
      → Returns Q r
      → P s
      → P (proceed f r s).1
  proceed_state f (ok a) s k (returned q) h = (k a q).state s h
  proceed_state f (err e) s k q h = h

  proceed_value :
      (f : A → Action S B) (r : Result A) (s : S)
      → ((a : A) → Q a → Keeps P R (f a))
      → Returns Q r
      → P s
      → Returns R (proceed f r s).0
  proceed_value f (ok a) s k (returned q) h = (k a q).value s h
  proceed_value f (err e) s k q h = raised

  pub Keeps-bind :
      (m : Action S A) (f : A → Action S B)
      → Keeps P Q m
      → ((a : A) → Q a → Keeps P R (f a))
      → Keeps P R (m >>= f)
  unfolding ◌>>=◌
  Keeps-bind m f km kf = record {
    state = λ s h. proceed_state f (m s).0 (m s).1 kf (km.value s h) (km.state s h);
    value = λ s h. proceed_value f (m s).0 (m s).1 kf (km.value s h) (km.state s h);
  }

module _ {S : Type 0} {P : S → Type 0} where
  pub Keeps-refuse_if : (b : Bool) (e : Error) → Keeps P (λ _. b ≡ false) (refuse_if b e)
  Keeps-refuse_if true e = record { state = λ s h. h; value = λ s h. raised }
  Keeps-refuse_if false e = record { state = λ s h. h; value = λ s h. returned refl }

  pub Keeps-lift_self : {A : Type 0} (r : Result A) → Keeps P (λ a. r ≡ ok a) (lift r)
  Keeps-lift_self r = Keeps-lift r (Returns-self r)

  pub Keeps-asks : {A : Type 0} (f : S → A) → Keeps P (λ _. Unit) (asks f)
  Keeps-asks f = record { state = λ s h. h; value = λ s h. returned tt }

pub Keeps-any {ℓ} : {S A : Type ℓ} (m : Action S A) → Keeps (λ s. Unit {ℓ}) (λ _. Unit {ℓ}) m
Keeps-any m = record { state = λ s h. tt; value = λ s h. Returns-any _ }
