-- ===== src/Action.antt =====
-- Methods that change a state and may raise: the state comes back beside the outcome, since what
-- was written before an exception stays written.
pub mod Keeps
pub mod Outcome
pub mod Ends
use sentinel_gpt.Common.{Bool, true, false}
use sentinel_gpt.Errors.{Error, Result, ok, err}

abbrev pub Action {ℓ} : Type ℓ → Type ℓ → Type ℓ
Action S A = S → Result A × S

module _ {ℓ} {S A : Type ℓ} where
  abbrev pub pure : A → Action S A
  pure a s = (ok a, s)

  abbrev pub raise : Error → Action S A
  raise e s = (err e, s)

  -- a call that leaves the state alone, and may raise
  abbrev pub lift : Result A → Action S A
  lift r s = (r, s)

  -- the same for a call that reads the state
  abbrev pub reads : (S → Result A) → Action S A
  reads f s = (f s, s)

  abbrev pub asks : (S → A) → Action S A
  asks f s = (ok (f s), s)

module _ {ℓ} {S : Type ℓ} where
  abbrev pub modify : (S → S) → Action S (Unit {ℓ})
  modify f s = (ok tt, f s)

  -- `if refused: raise e`
  abbrev pub refuse_if : Bool → Error → Action S (Unit {ℓ})
  refuse_if true e s = (err e, s)
  refuse_if false e s = (ok tt, s)

module _ {ℓ} {S A B : Type ℓ} where
  abbrev pub proceed : (A → Action S B) → Result A → S → Result B × S
  proceed f (ok a) s = f a s
  proceed f (err e) s = (err e, s)

  infixl 5 ◌>>=◌ ◌>>◌
  unfoldable pub ◌>>=◌ : Action S A → (A → Action S B) → Action S B
  ◌>>=◌ m f s = let (r, s') = m s in proceed f r s'

  abbrev pub ◌>>◌ : Action S A → Action S B → Action S B
  m >> n = m >>= λ _. n
