-- ===== src/Common/Table/Keys.antt =====
-- Primary keys: tables where no two rows have the same one.
use sentinel_gpt.Common.{
  ℕ, ◌≡◌, ◌≢◌, refl, sym, Bool, none, some, [], ◌∷◌, arith, nat_eq, if◌then◌else◌,
}
use sentinel_gpt.Common.Table.{Table, get, add, update, update_where, update_if, matching, first}

module _ {ℓ} {V : Type ℓ} where
  abbrev pub IsAbsent : ℕ → Table V → Type 0
  IsAbsent i [] = Unit
  IsAbsent i ((j, v) ∷ t) = (i ≢ j) × IsAbsent i t

  -- No two rows have the same primary key.
  abbrev pub IsKeyed : Table V → Type 0
  IsKeyed [] = Unit
  IsKeyed ((j, v) ∷ t) = IsAbsent j t × IsKeyed t

  pub IsAbsent-get : (i : ℕ) (t : Table V) → IsAbsent i t → get i t ≡ none
  unfolding get
  IsAbsent-get i [] h = refl
  IsAbsent-get i ((j, v) ∷ t) h = ground (arith, IsAbsent-get i t h.1)

  pub IsAbsent-matching : (i : ℕ) (p : V → Bool) (t : Table V) → IsAbsent i t → matching i p t ≡ 0
  unfolding matching
  IsAbsent-matching i p [] h = refl
  IsAbsent-matching i p ((j, v) ∷ t) h = ground (arith, IsAbsent-matching i p t h.1)

  -- On a keyed table an UPDATE by primary key matches one row, if that row is there and passes.
  pub matching-get :
      (i : ℕ) (p : V → Bool) (t : Table V) (v : V)
      → IsKeyed t
      → get i t ≡ some v
      → matching i p t ≡ (if p v then 1 else 0)
  unfolding matching get
  matching-get i p [] v k h = ground arith
  matching-get i p ((j, w) ∷ t) v k h =
      ground (arith, matching-get i p t v k.1, IsAbsent-matching i p t)

  pub matching-none : (i : ℕ) (p : V → Bool) (t : Table V) → get i t ≡ none → matching i p t ≡ 0
  unfolding matching get
  matching-none i p [] h = refl
  matching-none i p ((j, w) ∷ t) h = ground (arith, matching-none i p t)

  first_present :
      (p : V → Bool) (i : ℕ) (v : V) (t : Table V) → IsAbsent i t → first p t ≢ some (i, v)
  unfolding first
  first_present p i v [] a h = ground arith
  first_present p i v ((j, w) ∷ t) a h = ground (arith, first_present p i v t a.1)

  pub first-get :
      (p : V → Bool) (t : Table V) (i : ℕ) (v : V)
      → IsKeyed t
      → first p t ≡ some (i, v)
      → get i t ≡ some v
  unfolding first get
  first-get p [] i v k h = ground arith
  first-get p ((j, w) ∷ t) i v k h =
      ground (arith, first-get p t i v k.1, first_present p j v t k.0)

  IsAbsent-add : (i j : ℕ) (v : V) (t : Table V) → i ≢ j → IsAbsent i t → IsAbsent i (add j v t)
  unfolding add
  IsAbsent-add i j v [] n a = (n, tt)
  IsAbsent-add i j v ((k, w) ∷ t) n a = (a.0, IsAbsent-add i j v t n a.1)

  pub IsKeyed-add : (j : ℕ) (v : V) (t : Table V) → IsAbsent j t → IsKeyed t → IsKeyed (add j v t)
  unfolding add
  IsKeyed-add j v [] a k = (tt, tt)
  IsKeyed-add j v ((i, w) ∷ t) a k =
      (IsAbsent-add i j v t (λ e. a.0 (sym e)) k.0, IsKeyed-add j v t a.1 k.1)

  IsAbsent-update : (i j : ℕ) (f : V → V) (t : Table V) → IsAbsent i t → IsAbsent i (update j f t)
  unfolding update
  IsAbsent-update i j f [] a = tt
  IsAbsent-update i j f ((k, w) ∷ t) a = (a.0, IsAbsent-update i j f t a.1)

  pub IsKeyed-update : (j : ℕ) (f : V → V) (t : Table V) → IsKeyed t → IsKeyed (update j f t)
  unfolding update
  IsKeyed-update j f [] k = tt
  IsKeyed-update j f ((i, w) ∷ t) k = (IsAbsent-update i j f t k.0, IsKeyed-update j f t k.1)

  pub IsAbsent-update_where :
      (i : ℕ) (p : V → Bool) (f : V → V) (t : Table V)
      → IsAbsent i t
      → IsAbsent i (update_where p f t)
  unfolding update_where
  IsAbsent-update_where i p f [] a = tt
  IsAbsent-update_where i p f ((k, w) ∷ t) a = (a.0, IsAbsent-update_where i p f t a.1)

  pub IsKeyed-update_where :
      (p : V → Bool) (f : V → V) (t : Table V) → IsKeyed t → IsKeyed (update_where p f t)
  unfolding update_where
  IsKeyed-update_where p f [] k = tt
  IsKeyed-update_where p f ((i, w) ∷ t) k =
      (IsAbsent-update_where i p f t k.0, IsKeyed-update_where p f t k.1)

  pub IsAbsent-update_if :
      (i j : ℕ) (p : V → Bool) (f : V → V) (t : Table V)
      → IsAbsent i t
      → IsAbsent i (update_if j p f t)
  unfolding update_if
  IsAbsent-update_if i j p f [] a = tt
  IsAbsent-update_if i j p f ((k, w) ∷ t) a = (a.0, IsAbsent-update_if i j p f t a.1)

  pub IsKeyed-update_if :
      (j : ℕ) (p : V → Bool) (f : V → V) (t : Table V) → IsKeyed t → IsKeyed (update_if j p f t)
  unfolding update_if
  IsKeyed-update_if j p f [] k = tt
  IsKeyed-update_if j p f ((i, w) ∷ t) k =
      (IsAbsent-update_if i j p f t k.0, IsKeyed-update_if j p f t k.1)
