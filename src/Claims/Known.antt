-- ===== src/Claims/Known.antt =====
-- Of a list of identities, those that the evidence has, and what a loop over a section collects.
use sentinel_gpt.Common.{
  ℕ, suc, ◌≡◌, refl, ap, Bool, true, false, not, Option, none, some, List, [], ◌∷◌, keep_if,
  contains, all_of, All, All-append, arith, ◌&&◌, ◌||◌,
}
use sentinel_gpt.Common.Text.{Text, text_eq}
use sentinel_gpt.Scans.Comparison.{sorted, insert_text}
use sentinel_gpt.Errors.{Result, Returns, returned, Returns-bind, Returns-elim}
use sentinel_gpt.Claims.Json.{Json, list_of}
use sentinel_gpt.Claims.Models.{EvidenceStatus, unsupported}
use sentinel_gpt.Claims.Sections.{
  Section, each, joined, over, section, distinct, status_of, known_ids,
}

abbrev pub is_unsupported : EvidenceStatus → Bool
is_unsupported unsupported = true
is_unsupported _ = false

abbrev pub is_empty : List Text → Bool
is_empty [] = true
is_empty (i ∷ ids) = false

module _ (has : Text → Bool) where
  all_of-insert_text :
      (x : Text) (xs : List Text) → all_of has (insert_text x xs) ≡ (has x && all_of has xs)
  unfolding insert_text
  all_of-insert_text x [] = refl
  all_of-insert_text x (y ∷ xs) = ground (arith, all_of-insert_text x xs)

  pub all_of-sorted : (xs : List Text) → all_of has (sorted xs) ≡ all_of has xs
  unfolding sorted
  all_of-sorted [] = refl
  all_of-sorted (x ∷ xs) = ground (arith, all_of-insert_text x (sorted xs), all_of-sorted xs)

  pub all_of-distinct : (xs : List Text) → all_of has xs ≡ true → all_of has (distinct xs) ≡ true
  unfolding distinct
  all_of-distinct [] h = refl
  all_of-distinct (x ∷ xs) h = ground (arith, all_of-distinct xs)

  all_of-keep_if : (xs : List Text) → all_of has (keep_if has xs) ≡ true
  all_of-keep_if [] = refl
  all_of-keep_if (x ∷ xs) = ground (arith, all_of-keep_if xs)

  pub all_of-known_ids : (ids : List Text) → all_of has (known_ids has ids) ≡ true
  unfolding known_ids
  all_of-known_ids ids =
      rw (all_of-sorted (distinct (keep_if has ids)))
        (all_of-distinct (keep_if has ids) (all_of-keep_if ids))

  pub kept_has : (xs : List Text) (a : Text) → contains (keep_if has xs) a ≡ true → has a ≡ true
  kept_has [] a h = absurd (ground arith)
  kept_has (x ∷ xs) a h = elim (text_eq.dec a x) [
    | yes e ↦ let same = ap has e in ground (arith, kept_has xs a)
    | no n ↦ ground (arith, kept_has xs a)
  ]

  -- If nothing is unknown, everything is known.
  pub all_of-none_unknown :
      (known ids : List Text)
      → ((a : Text) → contains known a ≡ true → has a ≡ true)
      → keep_if (λ i. not (contains known i)) ids ≡ []
      → all_of has ids ≡ true
  all_of-none_unknown known [] h e = refl
  all_of-none_unknown known (i ∷ ids) h e =
      let here = h i in let rest = all_of-none_unknown known ids h in ground arith

  pub cited :
      (unknown known ids : List Text) (declared : Option EvidenceStatus) (cites : List Text)
      → (unknown ≡ [] → all_of has cites ≡ true)
      → is_unsupported (status_of unknown declared known ids) || all_of has cites ≡ true
  unfolding status_of
  cited [] known ids declared cites h = let all = h refl in ground arith
  cited (u ∷ unknown) known ids declared cites h = refl

-- What is collected, if nothing raises
abbrev pub Collects : {A : Type 0} → (A → Type 0) → Result (Section A) → Type 0
Collects P r = Returns (λ s. All P s.items) r

Collects-each :
    {A : Type 0} (P : A → Type 0) (body : ℕ → Json → Result (Section A))
    → ((i : ℕ) (j : Json) → Collects P (body i j))
    → (i : ℕ) (js : List Json) → Collects P (each body i js)
unfolding each joined
Collects-each P body h i [] = returned tt
Collects-each P body h i (j ∷ js) = Returns-bind (body i j) _ λ here e.
    Returns-bind (each body (suc i) js) _ λ rest e'. returned (
      All-append P here.items rest.items (Returns-elim (h i j) here e)
        (Returns-elim (Collects-each P body h (suc i) js) rest e'))

pub Collects-section :
    {A : Type 0} (P : A → Type 0) (name : Text) (body : ℕ → Json → Result (Section A))
    → ((i : ℕ) (j : Json) → Collects P (body i j))
    → (o : Option Json) → Collects P (section name body o)
unfolding section over
Collects-section P name body h o = listed (list_of o)
  where
    listed : (l : Option (List Json)) → Collects P (over name body l)
    listed none = returned tt
    listed (some js) = Collects-each P body h 0 js
