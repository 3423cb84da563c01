-- ===== src/Errors.antt =====
-- backend/src/domain/errors.py: the classes of exceptions, and the exceptions of Python itself
-- that the services raise. A function that may raise returns a `Result`.
use mathlib.Core.Path.{◌≡◌, refl, subst}
use sentinel_gpt.Common.{Bool, true, false, if◌then◌else◌}

pub data Error : Type 0 where
  email_already_registered invalid_credentials not_authenticated forbidden not_found : Error
  duplicate_target invalid_target invalid_pagination_cursor refresh_csrf_header_missing : Error
  target_unresolved target_resolution_blocked dns_rebinding_detected : Error
  redirect_destination_blocked egress_denied scanner_execution_blocked : Error
  sandbox_unavailable sandbox_setup_failed sandbox_verification_failed : Error
  sandbox_not_established attestation_not_confirmed invalid_scan_state : Error
  scan_cancelled request_budget_exceeded controlled_transport : Error
  value_error lookup_error key_error assertion_error other_exception : Error

pub data Result {ℓ} (A : Type ℓ) : Type ℓ where
  ok : A → Result A
  err : Error → Result A

infixl 5 ◌>>=◌ ◌>>◌
unfoldable pub ◌>>=◌ {ℓ κ} : {A : Type ℓ} {B : Type κ} → Result A → (A → Result B) → Result B
ok a >>= f = f a
err e >>= f = err e

abbrev pub ◌>>◌ {ℓ κ} : {A : Type ℓ} {B : Type κ} → Result A → Result B → Result B
m >> k = m >>= λ _. k

-- `if refused: raise e`
unfoldable pub raise_if : Bool → Error → Result (Unit {0})
raise_if true e = err e
raise_if false e = ok tt

-- A value that a call returns satisfies `Q`.
pub data Returns {ℓ κ} {A : Type ℓ} (Q : A → Type κ) : Result A → Type (ℓ ⊔ κ) where
  returned : {a : A} → Q a → Returns Q (ok a)
  raised : {e : Error} → Returns Q (err e)

pub ok_inj {ℓ} : {A : Type ℓ} (a b : A) → ok a ≡ ok b → a ≡ b
ok_inj a b e = cc

pub Returns-elim {ℓ κ} :
    {A : Type ℓ} {Q : A → Type κ} {r : Result A} → Returns Q r → (a : A) → r ≡ ok a → Q a
Returns-elim {Q} (returned {a = b} q) a e = subst Q (ok_inj b a e) q
Returns-elim raised a e = cc

module _ {ℓ κ} {B : Type ℓ} {Q : B → Type κ} where
  pub Returns-bind {μ} :
      {A : Type μ} (m : Result A) (f : A → Result B)
      → ((a : A) → m ≡ ok a → Returns Q (f a))
      → Returns Q (m >>= f)
  unfolding ◌>>=◌
  Returns-bind (ok a) f k = k a refl
  Returns-bind (err e) f k = raised

  pub Returns-raise_if :
      (b : Bool) (e : Error) (k : Result B)
      → (b ≡ false → Returns Q k)
      → Returns Q (raise_if b e >> k)
  unfolding raise_if ◌>>=◌
  Returns-raise_if true e k h = raised
  Returns-raise_if false e k h = h refl

  pub Returns-if :
      (b : Bool) (r s : Result B)
      → (b ≡ true → Returns Q r)
      → (b ≡ false → Returns Q s)
      → Returns Q (if b then r else s)
  Returns-if true r s h k = h refl
  Returns-if false r s h k = k refl

pub Returns-imp {ℓ κ μ} :
    {A : Type ℓ} {Q : A → Type κ} {R : A → Type μ} {r : Result A}
    → Returns Q r
    → ((a : A) → Q a → R a)
    → Returns R r
Returns-imp (returned {a} q) k = returned (k a q)
Returns-imp raised k = raised

pub Returns-any {ℓ κ} : {A : Type ℓ} (r : Result A) → Returns (λ _. Unit {κ}) r
Returns-any (ok a) = returned tt
Returns-any (err e) = raised

-- What is returned is what is returned.
pub Returns-self {ℓ} : {A : Type ℓ} (r : Result A) → Returns (λ a. r ≡ ok a) r
Returns-self (ok a) = returned refl
Returns-self (err e) = raised

pub false_of_raise_if : (b : Bool) (e : Error) → raise_if b e ≡ ok tt → b ≡ false
unfolding raise_if
false_of_raise_if true e h = cc
false_of_raise_if false e h = refl
