-- ===== src/Common/Table.antt =====
-- A database table: rows by primary key, in insertion order. These are the statements that the
-- repositories send (SELECT, INSERT, UPDATE, DELETE), with a predicate in place of a WHERE clause.
pub mod Keys
pub mod Searches
pub mod Distinct
use mathlib.Core.Option
use mathlib.Core.Option.{or_else}
use sentinel_gpt.Common.{
  ℕ, ◌≡◌, refl, Bool, true, false, Option, none, some, List, [], ◌∷◌, arith, ◌==◌, nat_eq,
  if◌then◌else◌, ◌||◌, ◌&&◌, suc, ◌≢◌,
}

abbrev pub Table {ℓ} : Type ℓ → Type ℓ
Table V = List (ℕ × V)

module _ {ℓ} {V : Type ℓ} where
  -- `session.get(Model, id)`
  unfoldable pub get : ℕ → Table V → Option V
  get i [] = none
  get i ((j, v) ∷ t) = if j == i then some v else get i t

  -- `session.add(row)` and its flush
  unfoldable pub add : ℕ → V → Table V → Table V
  add i v [] = (i, v) ∷ []
  add i v (r ∷ t) = r ∷ add i v t

  -- UPDATE … WHERE id = i
  unfoldable pub update : ℕ → (V → V) → Table V → Table V
  update i f [] = []
  update i f ((j, v) ∷ t) = (j, if j == i then f v else v) ∷ update i f t

  -- UPDATE … WHERE p
  unfoldable pub update_where : (V → Bool) → (V → V) → Table V → Table V
  update_where p f [] = []
  update_where p f ((j, v) ∷ t) = (j, if p v then f v else v) ∷ update_where p f t

  -- DELETE … WHERE id = i
  unfoldable pub remove : ℕ → Table V → Table V
  remove i [] = []
  remove i ((j, v) ∷ t) = let rest = remove i t in if j == i then rest else (j, v) ∷ rest

  -- SELECT … WHERE p
  unfoldable pub select : (V → Bool) → Table V → Table V
  select p [] = []
  select p ((j, v) ∷ t) = let rest = select p t in if p v then (j, v) ∷ rest else rest

  -- the first row of such a SELECT
  unfoldable pub first : (V → Bool) → Table V → Option (ℕ × V)
  first p [] = none
  first p ((j, v) ∷ t) = if p v then some (j, v) else first p t

  unfoldable pub exists : (V → Bool) → Table V → Bool
  exists p [] = false
  exists p ((j, v) ∷ t) = p v || exists p t

  pub get-add :
      (i j : ℕ) (v : V) (t : Table V)
      → get j (add i v t) ≡ or_else (get j t) (if i == j then some v else none)
  unfolding get add or_else
  get-add i j v [] = refl
  get-add i j v ((k, w) ∷ t) = ground (arith, get-add i j v t)

  pub get-update :
      (i j : ℕ) (f : V → V) (t : Table V)
      → get j (update i f t) ≡ (if i == j then Option.map f (get j t) else get j t)
  unfolding get update Option.map
  get-update i j f [] = ground arith
  get-update i j f ((k, w) ∷ t) = ground (arith, get-update i j f t)

  pub get-update_where :
      (p : V → Bool) (f : V → V) (j : ℕ) (t : Table V)
      → get j (update_where p f t) ≡ Option.map (λ v. if p v then f v else v) (get j t)
  unfolding get update_where Option.map
  get-update_where p f j [] = refl
  get-update_where p f j ((k, w) ∷ t) = ground (arith, get-update_where p f j t)

  pub get-remove : (i j : ℕ) (t : Table V) → get j (remove i t) ≡ (if i == j then none else get j t)
  unfolding get remove
  get-remove i j [] = ground arith
  get-remove i j ((k, w) ∷ t) = ground (arith, get-remove i j t)

  pub first_sound :
      (p : V → Bool) (t : Table V) (i : ℕ) (v : V) → first p t ≡ some (i, v) → p v ≡ true
  unfolding first
  first_sound p [] i v h = ground arith
  first_sound p ((k, w) ∷ t) i v h = ground (arith, first_sound p t i v)

  pub exists-select : (p : V → Bool) (t : Table V) → select p t ≡ [] → exists p t ≡ false
  unfolding select exists
  exists-select p [] h = refl
  exists-select p ((k, w) ∷ t) h = ground (arith, exists-select p t)

-- UPDATE … WHERE id = i AND p, and the rows that it matches (`rowcount`)
module _ {ℓ} {V : Type ℓ} where
  unfoldable pub update_if : ℕ → (V → Bool) → (V → V) → Table V → Table V
  update_if i p f [] = []
  update_if i p f ((j, v) ∷ t) = (j, if j == i && p v then f v else v) ∷ update_if i p f t

  unfoldable pub matching : ℕ → (V → Bool) → Table V → ℕ
  matching i p [] = 0
  matching i p ((j, v) ∷ t) = let rest = matching i p t in if j == i && p v then suc rest else rest

  pub get-update_if :
      (i j : ℕ) (p : V → Bool) (f : V → V) (t : Table V)
      → get j (update_if i p f t)
        ≡ (if i == j then Option.map (λ v. if p v then f v else v) (get j t) else get j t)
  unfolding get update_if Option.map
  get-update_if i j p f [] = ground arith
  get-update_if i j p f ((k, w) ∷ t) = ground (arith, get-update_if i j p f t)
