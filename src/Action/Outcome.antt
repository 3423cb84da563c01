-- ===== src/Action/Outcome.antt =====
-- What a run of an action from one state comes to: one rule for each kind of step at its head.
use sentinel_gpt.Common.{◌≡◌, refl, Bool, true, false}
use sentinel_gpt.Errors.{Error, Result, ok, err, Returns, returned, raised}
use sentinel_gpt.Action.{Action, pure, refuse_if, proceed, ◌>>=◌}

-- If `m` returns a value from `s`, that value and the state that it leaves satisfy `Q`.
pub record Yields {S A : Type 0} (s : S) (Q : A → S → Type 0) (m : Action S A) : Type 0 where
  pub outcome : Returns (λ a. Q a (m s).1) (m s).0

module _ {S A B : Type 0} {Q : B → S → Type 0} (s : S) where
  Yields-after :
      (r : Result A) (s' : S) (f : A → Action S B)
      → ((a : A) → r ≡ ok a → Yields s' Q (f a))
      → Returns (λ b. Q b (proceed f r s').1) (proceed f r s').0
  Yields-after (ok a) s' f k = (k a refl).outcome
  Yields-after (err e) s' f k = raised

  pub Yields-bind :
      (m : Action S A) (f : A → Action S B)
      → ((a : A) → (m s).0 ≡ ok a → Yields (m s).1 Q (f a))
      → Yields s Q (m >>= f)
  unfolding ◌>>=◌
  Yields-bind m f k = record { outcome = Yields-after (m s).0 (m s).1 f k }

module _ {S A B : Type 0} (P : A → S → Type 0) (Q : B → S → Type 0) (s : S) where
  Yields-next :
      (r : Result A) (s' : S) (f : A → Action S B)
      → Returns (λ a. P a s') r
      → ((a : A) → P a s' → Yields s' Q (f a))
      → Returns (λ b. Q b (proceed f r s').1) (proceed f r s').0
  Yields-next (ok a) s' f (returned p) k = (k a p).outcome
  Yields-next (err e) s' f h k = raised

  pub Yields-then :
      (m : Action S A) (f : A → Action S B)
      → Yields s P m
      → ((a : A) (s' : S) → P a s' → Yields s' Q (f a))
      → Yields s Q (m >>= f)
  unfolding ◌>>=◌
  Yields-then m f h k = record {
    outcome = Yields-next (m s).0 (m s).1 f h.outcome λ a p. k a (m s).1 p;
  }

module _ {S B : Type 0} {Q : B → S → Type 0} (s : S) where
  pub Yields-refuse_if :
      (b : Bool) (e : Error) (n : Action S B)
      → (b ≡ false → Yields s Q n)
      → Yields s Q (refuse_if b e >>= λ _. n)
  unfolding ◌>>=◌
  Yields-refuse_if true e n k = record { outcome = raised }
  Yields-refuse_if false e n k = record { outcome = (k refl).outcome }

  pub Yields-pure : (b : B) → Q b s → Yields s Q (pure b)
  Yields-pure b q = record { outcome = returned q }
