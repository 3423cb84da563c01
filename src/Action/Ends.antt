-- ===== src/Action/Ends.antt =====
-- Total correctness of one run of an action: that it returns, and what it leaves.
use sentinel_gpt.Common.{◌≡◌, Bool, true, false, arith}
use sentinel_gpt.Errors.{Error, ok}
use sentinel_gpt.Action.{Action, refuse_if, ◌>>=◌}

-- `m` returns from `s`, with a value and a state that satisfy `Q`.
pub record Ends {S : Type 0} {A : Type 0} (s : S) (Q : A → S → Type 0) (m : Action S A)
    : Type 0 where
  pub value : A
  pub returns : (m s).0 ≡ ok value
  pub state : Q value (m s).1

pub Ends-bind :
    {S A B : Type 0} {P : A → S → Type 0} {Q : B → S → Type 0} (s : S) (m : Action S A)
    (f : A → Action S B)
    → Ends s P m
    → ((a : A) (s' : S) → P a s' → Ends s' Q (f a))
    → Ends s Q (m >>= f)
unfolding ◌>>=◌
Ends-bind s m f h k =
    let next = k h.value (m s).1 h.state in
    record {
      value = next.value;
      returns = rw h.returns next.returns;
      state = rw h.returns next.state;
    }

-- A step whose value is known
pub Ends-step :
    {S A B : Type 0} {Q : B → S → Type 0} (s : S) (m : Action S A) (f : A → Action S B) (a : A)
    → (m s).0 ≡ ok a
    → Ends (m s).1 Q (f a)
    → Ends s Q (m >>= f)
unfolding ◌>>=◌
Ends-step s m f a e h = record { value = h.value; returns = rw e h.returns; state = rw e h.state }

pub Ends-refuse_if :
    {S B : Type 0} {Q : B → S → Type 0} (s : S) (b : Bool) (e : Error) (n : Action S B)
    → b ≡ false
    → Ends s Q n
    → Ends s Q (refuse_if b e >>= λ _. n)
unfolding ◌>>=◌
Ends-refuse_if s true e n h k = ground arith
Ends-refuse_if s false e n h k = record { value = k.value; returns = k.returns; state = k.state }
