-- ===== src/Common/Table/Searches.antt =====
-- The first row that a predicate picks, after a statement that leaves the predicate alone.
use sentinel_gpt.Common.{
  ℕ, ◌≡◌, refl, Bool, true, none, some, [], ◌∷◌, arith, ◌==◌, nat_eq, if◌then◌else◌, ◌&&◌,
}
use sentinel_gpt.Common.Table.{Table, add, update, update_where, update_if, first}

module _ {ℓ} {V : Type ℓ} (p : V → Bool) where
  pub first-add :
      (i : ℕ) (v : V) (t : Table V) (j : ℕ) (w : V)
      → first p t ≡ some (j, w)
      → first p (add i v t) ≡ some (j, w)
  unfolding first add
  first-add i v [] j w h = ground arith
  first-add i v ((k, u) ∷ t) j w h = ground (arith, first-add i v t j w)

  module _ (f : V → V) (same : (v : V) → p (f v) ≡ p v) where
    pub first-update :
        (i : ℕ) (t : Table V) (j : ℕ) (w : V)
        → first p t ≡ some (j, w)
        → first p (update i f t) ≡ some (j, if j == i then f w else w)
    unfolding first update
    first-update i [] j w h = ground arith
    first-update i ((k, u) ∷ t) j w h = ground (arith, first-update i t j w, same u)

    pub first-update_where :
        (q : V → Bool) (t : Table V) (j : ℕ) (w : V)
        → first p t ≡ some (j, w)
        → first p (update_where q f t) ≡ some (j, if q w then f w else w)
    unfolding first update_where
    first-update_where q [] j w h = ground arith
    first-update_where q ((k, u) ∷ t) j w h = ground (arith, first-update_where q t j w, same u)

    pub first-update_if :
        (i : ℕ) (q : V → Bool) (t : Table V) (j : ℕ) (w : V)
        → first p t ≡ some (j, w)
        → first p (update_if i q f t) ≡ some (j, if j == i && q w then f w else w)
    unfolding first update_if
    first-update_if i q [] j w h = ground arith
    first-update_if i q ((k, u) ∷ t) j w h = ground (arith, first-update_if i q t j w, same u)

-- A search that finds nothing
module _ {ℓ} {V : Type ℓ} (p : V → Bool) where
  pub first-add-none :
      (i : ℕ) (v : V) (t : Table V)
      → p v ≡ true
      → first p t ≡ none
      → first p (add i v t) ≡ some (i, v)
  unfolding first add
  first-add-none i v [] passes h = ground arith
  first-add-none i v ((k, u) ∷ t) passes h = ground (arith, first-add-none i v t passes)

  pub first-update_if-none :
      (f : V → V)
      → ((v : V) → p (f v) ≡ p v)
      → (i : ℕ) (q : V → Bool) (t : Table V) → first p t ≡ none
      → first p (update_if i q f t) ≡ none
  unfolding first update_if
  first-update_if-none f same i q [] h = refl
  first-update_if-none f same i q ((k, u) ∷ t) h =
      ground (arith, first-update_if-none f same i q t, same u)
