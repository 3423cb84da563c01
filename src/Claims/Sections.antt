-- ===== src/Claims/Sections.antt =====
-- The sections of a payload in backend/src/domain/scanning/analysis/validator.py. `has_finding`
-- is that of the evidence set.
use sentinel_gpt.Common.{
  ℕ, suc, Bool, not, ◌==◌, nat_eq, Option, none, some, List, [], ◌∷◌, ◌++◌, map, keep_if, contains,
  take, length, if◌then◌else◌,
}
use sentinel_gpt.Common.Text.{Text, codes, text_eq}
use sentinel_gpt.Errors.{Result, ok, ◌>>=◌}
use sentinel_gpt.Scans.Comparison.{sorted}
use sentinel_gpt.Engine.Findings.{Tables, bound_evidence, max_evidence_chars}
use sentinel_gpt.Claims.Json.{
  Json, string, object, Members, get_member, filled, texts_in, all_texts, list_of,
}
use sentinel_gpt.Claims.Models.{
  EvidenceStatus, supported, inferred, unsupported, Claim, CorrelatedGroup, RemediationItem,
  SchemaError, not_a_list, not_an_object, field_invalid, derive_group_id,
}

-- What a loop over a section adds: to its list, to the unsupported claims and to the errors
pub record Section (A : Type 0) : Type 0 where
  pub items : List A
  pub unsupported_claims : List Claim
  pub errors : List SchemaError

abbrev pub wrong : {A : Type 0} → SchemaError → Section A
wrong e = record { items = []; unsupported_claims = []; errors = e ∷ [] }

unfoldable pub joined : {A : Type 0} → Section A → Section A → Section A
joined here rest = record {
  items = here.items ++ rest.items;
  unsupported_claims = here.unsupported_claims ++ rest.unsupported_claims;
  errors = here.errors ++ rest.errors;
}

unfoldable pub each :
    {A : Type 0} → (ℕ → Json → Result (Section A)) → ℕ → List Json → Result (Section A)
unfolding joined
each body index [] = ok (record { items = []; unsupported_claims = []; errors = [] })
each body index (j ∷ js) = do
  here ← body index j
  rest ← each body (suc index) js
  ok (joined here rest)

-- Over the value of a section, if it is a list
unfoldable pub over :
    {A : Type 0} → Text → (ℕ → Json → Result (Section A)) → Option (List Json) → Result (Section A)
unfolding each
over name body none = ok (wrong (not_a_list name))
over name body (some js) = each body 0 js

unfoldable pub section :
    {A : Type 0} → Text → (ℕ → Json → Result (Section A)) → Option Json → Result (Section A)
unfolding over list_of
section name body value = over name body (list_of value)

-- `set(xs)`
unfoldable pub distinct : List Text → List Text
unfolding text_eq
distinct [] = []
distinct (x ∷ xs) = let rest = distinct xs in if contains rest x then rest else x ∷ rest

-- The identities that the evidence has, each once and in order
unfoldable pub known_ids : (Text → Bool) → List Text → List Text
unfolding distinct sorted
known_ids has ids = sorted (distinct (keep_if has ids))

unsupported_by : Text → Text → List Text → List Claim
unsupported_by text detail ids =
    map (λ i. record { text = text; finding_ids = i ∷ []; status = unsupported; detail = detail })
      ids

-- The texts of a list that holds nothing else
unfoldable pub texts_of : Option (List Json) → Option (List Text)
unfolding all_texts
texts_of none = none
texts_of (some js) = all_texts js

-- The texts of a field that is a list, and nothing of another
unfoldable pub ids_in : Option Json → List Text
unfolding list_of texts_in
ids_in value = elim (list_of value) [ none ↦ [] | some js ↦ texts_in js ]

unfoldable pub status_named : Option Json → Option EvidenceStatus
unfolding text_eq
status_named (some (string t)) =
    if t == codes "supported"
    then some supported
    else if t == codes "inferred"
    then some inferred
    else if t == codes "unsupported"
    then some unsupported
    else none
status_named _ = none

-- By the identities that are unknown, the status that is declared, and all identities
unfoldable pub status_of :
    List Text → Option EvidenceStatus → List Text → List Text → EvidenceStatus
unfolding nat_eq
status_of (u ∷ unknown) declared known ids = unsupported
status_of [] (some status) known ids = status
status_of [] none known [] = unsupported
status_of [] none known (i ∷ ids) = if length known == length (i ∷ ids) then supported else inferred

-- A group without a finding is dropped.
unfoldable pub grouped :
    (Text → Result Text) → Text → Result Text → List Text → Result (List CorrelatedGroup)
unfolding derive_group_id
grouped digest title shown_rationale [] = ok []
grouped digest title shown_rationale (i ∷ ids) = do
  group_id ← derive_group_id digest title (i ∷ ids)
  rationale ← shown_rationale
  ok (
      record { group_id = group_id; title = title; finding_ids = i ∷ ids; rationale = rationale }
      ∷ [])

-- `shown` is `str`, on a value that is no text.
module _ (k : Tables) (digest : Text → Result Text) (shown : Json → Result Text) where
  unfoldable pub safe_str : Option Json → Result Text
  unfolding bound_evidence
  safe_str none = ok []
  safe_str (some (string t)) = ok (bound_evidence k t max_evidence_chars)
  safe_str (some j) = do t ← shown j; ok (bound_evidence k t max_evidence_chars)

  module _ (has_finding : Text → Bool) where
    -- By the title and the identities, if they are valid
    unfoldable pub group_of :
        ℕ → Members → Option Text → Option (List Text) → Result (Section CorrelatedGroup)
    unfolding get_member grouped known_ids unsupported_by safe_str
    group_of index fields none ids =
        ok (wrong (field_invalid (codes "correlated_groups") index (codes "title")))
    group_of index fields (some title) none =
        ok (wrong (field_invalid (codes "correlated_groups") index (codes "finding_ids")))
    group_of index fields (some title) (some ids) = do
      items ←
          grouped digest title (safe_str (get_member (codes "rationale") fields))
            (known_ids has_finding ids)
      ok (record {
        items = items;
        unsupported_claims =
            unsupported_by (codes "Group '" ++ (title ++ codes "' references unknown finding"))
              (codes "ID absent from evidence set") (keep_if (λ i. not (has_finding i)) ids);
        errors = [];
      })

    unfoldable pub validate_group : ℕ → Json → Result (Section CorrelatedGroup)
    unfolding get_member filled list_of texts_of group_of
    validate_group index (object fields) =
        group_of index fields (filled k.unicode.is_space (get_member (codes "title") fields))
          (texts_of (list_of (get_member (codes "finding_ids") fields)))
    validate_group index _ = ok (wrong (not_an_object (codes "correlated_groups") index))

    unfoldable pub item_of : ℕ → Members → Option Text → Result (Section RemediationItem)
    unfolding get_member ids_in known_ids safe_str
    item_of index fields none =
        ok (wrong (field_invalid (codes "remediation") index (codes "title")))
    item_of index fields (some title) = do
      detail ← safe_str (get_member (codes "detail") fields)
      ok (record {
        items =
            record {
              title = title;
              detail = detail;
              finding_ids =
                  known_ids has_finding (ids_in (get_member (codes "finding_ids") fields));
            }
            ∷ [];
        unsupported_claims = [];
        errors = [];
      })

    unfoldable pub validate_remediation : ℕ → Json → Result (Section RemediationItem)
    unfolding get_member filled item_of
    validate_remediation index (object fields) =
        item_of index fields (filled k.unicode.is_space (get_member (codes "title") fields))
    validate_remediation index _ = ok (wrong (not_an_object (codes "remediation") index))

    -- By the status that is declared, the text, and the identities
    unfoldable pub claimed : Option EvidenceStatus → Text → List Text → Section Claim
    unfolding status_of distinct sorted unsupported_by bound_evidence text_eq
    claimed declared text id_list =
        let known = keep_if has_finding id_list in
        let unknown = keep_if (λ i. not (contains known i)) id_list in
        record {
          items =
              record {
                text = bound_evidence k text max_evidence_chars;
                finding_ids = sorted (distinct id_list);
                status = status_of unknown declared known id_list;
                detail = [];
              }
              ∷ [];
          unsupported_claims =
              unsupported_by (take 200 text) (codes "referenced finding does not exist") unknown;
          errors = [];
        }

    unfoldable pub claim_of : ℕ → Members → Option Text → Section Claim
    unfolding get_member ids_in status_named claimed
    claim_of index fields none = wrong (field_invalid (codes "claims") index (codes "text"))
    claim_of index fields (some text) =
        claimed (status_named (get_member (codes "status") fields)) text
          (ids_in (get_member (codes "finding_ids") fields))

    unfoldable pub validate_claim : ℕ → Json → Result (Section Claim)
    unfolding get_member filled claim_of
    validate_claim index (object fields) =
        ok (claim_of index fields (filled k.unicode.is_space (get_member (codes "text") fields)))
    validate_claim index _ = ok (wrong (not_an_object (codes "claims") index))
