-- ===== src/Common/Table/Distinct.antt =====
-- Tables where no two rows are the same in some respect, as a unique constraint demands.
use sentinel_gpt.Common.{
  ℕ, ◌≡◌, refl, ◌∙◌, Bool, true, false, none, some, [], ◌∷◌, arith, nat_eq, if◌then◌else◌, ◌||◌,
  ◌==◌,
}
use sentinel_gpt.Common.Table.{Table, add, update, remove, first, exists}

module _ {ℓ} {V : Type ℓ} where
  pub exists-add :
      (p : V → Bool) (i : ℕ) (v : V) (rows : Table V)
      → exists p (add i v rows) ≡ (exists p rows || p v)
  unfolding exists add
  exists-add p i v [] = ground arith
  exists-add p i v ((j, w) ∷ rows) = ground (arith, exists-add p i v rows)

  pub exists-update :
      (p : V → Bool) (i : ℕ) (f : V → V) (rows : Table V)
      → ((v : V) → p (f v) ≡ p v)
      → exists p (update i f rows) ≡ exists p rows
  unfolding exists update
  exists-update p i f [] k = refl
  exists-update p i f ((j, w) ∷ rows) k =
      let same = k w in ground (arith, exists-update p i f rows k)

  exists-pointwise :
      (p q : V → Bool) (rows : Table V) → ((v : V) → p v ≡ q v) → exists p rows ≡ exists q rows
  unfolding exists
  exists-pointwise p q [] k = refl
  exists-pointwise p q ((j, w) ∷ rows) k =
      let same = k w in ground (arith, exists-pointwise p q rows k)

  pub exists-remove :
      (p : V → Bool) (i : ℕ) (rows : Table V)
      → exists p rows ≡ false
      → exists p (remove i rows) ≡ false
  unfolding exists remove
  exists-remove p i [] h = refl
  exists-remove p i ((j, w) ∷ rows) h = ground (arith, exists-remove p i rows)

  pub exists_of_first :
      (p : V → Bool) (rows : Table V) → first p rows ≡ none → exists p rows ≡ false
  unfolding exists first
  exists_of_first p [] h = refl
  exists_of_first p ((j, w) ∷ rows) h = ground (arith, exists_of_first p rows)

  pub first-add :
      (p : V → Bool) (i : ℕ) (v : V) (rows : Table V)
      → exists p rows ≡ false
      → p v ≡ true
      → first p (add i v rows) ≡ some (i, v)
  unfolding exists first add
  first-add p i v [] h k = ground arith
  first-add p i v ((j, w) ∷ rows) h k = ground (arith, first-add p i v rows)

module _ {ℓ} {V : Type ℓ} (same : V → V → Bool) where
  abbrev pub IsDistinct : Table V → Type 0
  IsDistinct [] = Unit
  IsDistinct ((i, v) ∷ rows) = (exists (same v) rows ≡ false) × IsDistinct rows

  pub IsDistinct-add :
      ((v w : V) → same v w ≡ same w v)
      → (i : ℕ) (v : V) (rows : Table V) → exists (same v) rows ≡ false
      → IsDistinct rows
      → IsDistinct (add i v rows)
  unfolding exists add
  IsDistinct-add turned i v [] h k = (refl, tt)
  IsDistinct-add turned i v ((j, w) ∷ rows) h k =
      let other = turned v w in
      let grown = exists-add (same w) i v rows in
      (ground arith, IsDistinct-add turned i v rows (ground arith) k.1)

  pub IsDistinct-update :
      (i : ℕ) (f : V → V)
      → ((v w : V) → same (f v) w ≡ same v w)
      → ((v w : V) → same v (f w) ≡ same v w)
      → (rows : Table V) → IsDistinct rows
      → IsDistinct (update i f rows)
  unfolding update
  IsDistinct-update i f left right [] k = tt
  IsDistinct-update i f left right ((j, v) ∷ rows) k =
      (head (j == i), IsDistinct-update i f left right rows k.1)
    where
      head : (b : Bool) → exists (same (if b then f v else v)) (update i f rows) ≡ false
      head true =
          exists-update (same (f v)) i f rows (λ w. right (f v) w)
          ∙ (exists-pointwise (same (f v)) (same v) rows (left v) ∙ k.0)
      head false = exists-update (same v) i f rows (λ w. right v w) ∙ k.0

  pub IsDistinct-remove : (i : ℕ) (rows : Table V) → IsDistinct rows → IsDistinct (remove i rows)
  unfolding remove
  IsDistinct-remove i [] k = tt
  IsDistinct-remove i ((j, v) ∷ rows) k =
      let gone = exists-remove (same v) i rows k.0 in ground (arith, IsDistinct-remove i rows k.1)
