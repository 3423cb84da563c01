-- ===== src/Common/Ordered.antt =====
-- ORDER BY a number, descending: a stable insertion sort.
use sentinel_gpt.Common.{ℕ, ◌≤◌, List, [], ◌∷◌, arith, ltb, if◌then◌else◌}

module _ {ℓ} {A : Type ℓ} (key : A → ℕ) where
  insert_desc : A → List A → List A
  insert_desc a [] = a ∷ []
  insert_desc a (x ∷ xs) =
      let rest = insert_desc a xs in if ltb (key a) (key x) then x ∷ rest else a ∷ x ∷ xs

  unfoldable pub order_desc : List A → List A
  unfolding insert_desc
  order_desc [] = []
  order_desc (x ∷ xs) = insert_desc x (order_desc xs)

  abbrev pub AtMost : ℕ → List A → Type 0
  AtMost n [] = Unit
  AtMost n (x ∷ xs) = (key x ≤ n) × AtMost n xs

  abbrev pub IsDescending : List A → Type 0
  IsDescending [] = Unit
  IsDescending (x ∷ xs) = AtMost (key x) xs × IsDescending xs

  AtMost-mono : (m n : ℕ) (xs : List A) → m ≤ n → AtMost m xs → AtMost n xs
  AtMost-mono m n [] le h = tt
  AtMost-mono m n (x ∷ xs) le h = (omega arith, AtMost-mono m n xs le h.1)

  AtMost-insert_desc :
      (n : ℕ) (a : A) (xs : List A) → key a ≤ n → AtMost n xs → AtMost n (insert_desc a xs)
  unfolding insert_desc
  AtMost-insert_desc n a [] le h = (le, tt)
  AtMost-insert_desc n a (x ∷ xs) le h = ground (arith, AtMost-insert_desc n a xs le h.1)

  insert_desc-IsDescending :
      (a : A) (xs : List A) → IsDescending xs → IsDescending (insert_desc a xs)
  unfolding insert_desc
  insert_desc-IsDescending a [] h = (tt, tt)
  insert_desc-IsDescending a (x ∷ xs) h = ground (
    arith,
    insert_desc-IsDescending a xs h.1,
    AtMost-insert_desc (key x) a xs,
    AtMost-mono (key x) (key a) xs,
  )

  pub order_desc-IsDescending : (xs : List A) → IsDescending (order_desc xs)
  unfolding order_desc
  order_desc-IsDescending [] = tt
  order_desc-IsDescending (x ∷ xs) =
      insert_desc-IsDescending x (order_desc xs) (order_desc-IsDescending xs)
