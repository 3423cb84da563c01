-- ===== src/Claims/Grounded.antt =====
-- An accepted assessment rests on the evidence.
use sentinel_gpt.Common.{
  ℕ, ◌≡◌, refl, Bool, true, false, not, Option, none, some, List, [], ◌∷◌, keep_if, contains,
  all_of, All, if◌then◌else◌, ◌&&◌, ◌||◌,
}
use sentinel_gpt.Common.Text.{Text, codes, text_eq}
use sentinel_gpt.Scans.Comparison.{sorted}
use sentinel_gpt.Errors.{Result, Returns, returned, Returns-bind, Returns-elim, ok, ◌>>=◌}
use sentinel_gpt.Engine.Findings.{Tables, Severity}
use sentinel_gpt.Claims.Json.{
  Json, null, boolean, number, string, array, object, Members, get_member, filled, list_of,
}
use sentinel_gpt.Claims.Models.{
  AnalysisFailureKind, EvidenceStatus, Claim, CorrelatedGroup, RemediationItem, Assessment,
  SchemaError, ValidationResult, refused, accepted,
}
use sentinel_gpt.Claims.Sections.{
  Section, distinct, status_of, grouped, known_ids, validate_group, validate_remediation,
  validate_claim, ids_in, group_of, item_of, claim_of, claimed, texts_of,
}
use sentinel_gpt.Claims.Validator.{
  Codec, EvidenceSet, has_finding, Response, bytes, text, value, Field, valid, invalid, concluded,
  validate_structure, validate_parsed, validate_text, validate_analysis_response, assessed, digest,
}
use sentinel_gpt.Claims.Known.{
  is_unsupported, is_empty, all_of-known_ids, all_of-sorted, all_of-distinct, kept_has,
  all_of-none_unknown, cited, Collects, Collects-section,
}

-- Whatever the assessment rests on is a finding of the evidence. A claim that names something else
-- is unsupported.
pub record IsGrounded (evidence : EvidenceSet) (a : Assessment) : Type 0 where
  pub of_evidence : a.evidence_set_id ≡ evidence.evidence_set_id
  pub of_groups :
      All
        (λ g. not (is_empty g.finding_ids) && all_of (has_finding evidence) g.finding_ids ≡ true)
        a.correlated_groups
  pub of_remediation : All (λ r. all_of (has_finding evidence) r.finding_ids ≡ true) a.remediation
  pub of_claims :
      All
        (λ c. is_unsupported c.status || all_of (has_finding evidence) c.finding_ids ≡ true)
        a.claims

abbrev pub Accepts : (Assessment → Type 0) → ValidationResult → Type 0
Accepts P (refused kind errors claims) = Unit
Accepts P (accepted a claims) = P a

module _ (k : Tables) (digest : Text → Result Text) (shown : Json → Result Text)
    (has : Text → Bool) where
  abbrev Group : CorrelatedGroup → Type 0
  Group g = not (is_empty g.finding_ids) && all_of has g.finding_ids ≡ true

  abbrev Item : RemediationItem → Type 0
  Item r = all_of has r.finding_ids ≡ true

  abbrev Cites : Claim → Type 0
  Cites c = is_unsupported c.status || all_of has c.finding_ids ≡ true

  Group-grouped :
      (title : Text) (rationale : Result Text) (ids : List Text)
      → all_of has ids ≡ true
      → Returns (All Group) (grouped digest title rationale ids)
  unfolding grouped
  Group-grouped title rationale [] h = returned tt
  Group-grouped title rationale (i ∷ ids) h =
      Returns-bind _ _ λ group_id _. Returns-bind rationale _ λ t _. returned (h, tt)

  Group-validate : (i : ℕ) (j : Json) → Collects Group (validate_group k digest shown has i j)
  unfolding validate_group group_of
  Group-validate i null = returned tt
  Group-validate i (boolean b) = returned tt
  Group-validate i (number n) = returned tt
  Group-validate i (string t) = returned tt
  Group-validate i (array js) = returned tt
  Group-validate i (object fields) =
      built (filled k.unicode.is_space (get_member (codes "title") fields))
        (texts_of (list_of (get_member (codes "finding_ids") fields)))
    where
      built :
          (t : Option Text) (ids : Option (List Text))
          → Collects Group (group_of k digest shown has i fields t ids)
      built none ids = returned tt
      built (some title) none = returned tt
      built (some title) (some ids) = Returns-bind _ _ λ items e. returned (
          Returns-elim (Group-grouped title _ (known_ids has ids) (all_of-known_ids has ids)) items
            e)

  Item-validate : (i : ℕ) (j : Json) → Collects Item (validate_remediation k digest shown has i j)
  unfolding validate_remediation item_of
  Item-validate i null = returned tt
  Item-validate i (boolean b) = returned tt
  Item-validate i (number n) = returned tt
  Item-validate i (string t) = returned tt
  Item-validate i (array js) = returned tt
  Item-validate i (object fields) =
      built (filled k.unicode.is_space (get_member (codes "title") fields))
    where
      built : (t : Option Text) → Collects Item (item_of k digest shown has i fields t)
      built none = returned tt
      built (some title) = Returns-bind _ _ λ detail _. returned (all_of-known_ids has _, tt)

  Cites-claimed :
      (declared : Option EvidenceStatus) (ids : List Text)
      → (let known = keep_if has ids in
          is_unsupported (status_of (keep_if (λ i. not (contains known i)) ids) declared known ids)
          || all_of has (sorted (distinct ids)))
        ≡ true
  Cites-claimed declared ids =
      cited has _ (keep_if has ids) ids declared (sorted (distinct ids)) λ e.
        rw (all_of-sorted has (distinct ids)) (
          all_of-distinct has ids
            (all_of-none_unknown has (keep_if has ids) ids (kept_has has ids) e))

  Cites-validate : (i : ℕ) (j : Json) → Collects Cites (validate_claim k digest shown has i j)
  unfolding validate_claim claim_of claimed
  Cites-validate i null = returned tt
  Cites-validate i (boolean b) = returned tt
  Cites-validate i (number n) = returned tt
  Cites-validate i (string t) = returned tt
  Cites-validate i (array js) = returned tt
  Cites-validate i (object fields) =
      returned (built (filled k.unicode.is_space (get_member (codes "text") fields)))
    where
      built : (t : Option Text) → All Cites (claim_of k digest shown has i fields t).items
      built none = tt
      built (some t) = (Cites-claimed _ (ids_in (get_member (codes "finding_ids") fields)), tt)

module _ (k : Codec) (evidence : EvidenceSet) (base : List (Text × Text)) (now : ℕ) where
  abbrev Sound : Result ValidationResult → Type 0
  Sound r = Returns (Accepts (IsGrounded evidence)) r

  assessed-IsGrounded :
      (s : Text) (p : Severity) (l : List Text) (groups : List CorrelatedGroup)
      (items : List RemediationItem) (claims us : List Claim)
      → All
          (λ g. not (is_empty g.finding_ids) && all_of (has_finding evidence) g.finding_ids ≡ true)
          groups
      → All (λ r. all_of (has_finding evidence) r.finding_ids ≡ true) items
      → All
          (λ c. is_unsupported c.status || all_of (has_finding evidence) c.finding_ids ≡ true)
          claims
      → Returns (IsGrounded evidence) (assessed k evidence base now s p l groups items claims us)
  unfolding assessed
  assessed-IsGrounded s p l groups items claims us g r c = Returns-bind _ _ λ assessment_id _.
      returned (record { of_evidence = refl; of_groups = g; of_remediation = r; of_claims = c })

  concluded-Sound :
      (s : Field Text) (p : Option Severity) (l : Field (List Text))
      (groups : Section CorrelatedGroup) (items : Section RemediationItem) (claims : Section Claim)
      (errors : List SchemaError) (us : List Claim)
      → All
          (λ g. not (is_empty g.finding_ids) && all_of (has_finding evidence) g.finding_ids ≡ true)
          groups.items
      → All (λ r. all_of (has_finding evidence) r.finding_ids ≡ true) items.items
      → All
          (λ c. is_unsupported c.status || all_of (has_finding evidence) c.finding_ids ≡ true)
          claims.items
      → Sound (concluded k evidence base now s p l groups items claims errors us)
  unfolding concluded
  concluded-Sound (valid s) (some p) (valid l) groups items claims [] us g r c =
      Returns-bind (assessed k evidence base now s p l groups.items items.items claims.items us) _
        λ a e. returned (
          Returns-elim (assessed-IsGrounded s p l groups.items items.items claims.items us g r c) a
            e)
  concluded-Sound (valid s) (some p) (valid l) groups items claims (e ∷ es) us g r c = returned tt
  concluded-Sound (valid s) (some p) (invalid x) groups items claims errors us g r c = returned tt
  concluded-Sound (valid s) none l groups items claims errors us g r c = returned tt
  concluded-Sound (invalid x) p l groups items claims errors us g r c = returned tt

  structure-Sound : (payload : Members) → Sound (validate_structure k evidence base now payload)
  unfolding validate_structure
  structure-Sound payload =
      let has = has_finding evidence in
      Returns-bind _ _ λ groups g. Returns-bind _ _ λ items i. Returns-bind _ _ λ claims c.
        concluded-Sound _ _ _ groups items claims _ _
          (Returns-elim
            (Collects-section _ _ _ (Group-validate k.tables (digest k) k.shown has)
              (get_member (codes "correlated_groups") payload))
            groups g)
          (Returns-elim
            (Collects-section _ _ _ (Item-validate k.tables (digest k) k.shown has)
              (get_member (codes "remediation") payload))
            items i)
          (Returns-elim
            (Collects-section _ _ _ (Cites-validate k.tables (digest k) k.shown has)
              (get_member (codes "claims") payload))
            claims c)

  parsed-Sound : (j : Option Json) → Sound (validate_parsed k evidence base now j)
  unfolding validate_parsed
  parsed-Sound none = returned tt
  parsed-Sound (some null) = returned tt
  parsed-Sound (some (boolean b)) = returned tt
  parsed-Sound (some (number n)) = returned tt
  parsed-Sound (some (string t)) = returned tt
  parsed-Sound (some (array js)) = returned tt
  parsed-Sound (some (object payload)) = structure-Sound payload

  Sound-if :
      (b : Bool) (errors : List SchemaError) (kind : AnalysisFailureKind)
      (r : Result ValidationResult)
      → Sound r
      → Sound (if b then ok (refused kind errors []) else r)
  Sound-if true errors kind r h = returned tt
  Sound-if false errors kind r h = h

  text-Sound : (raw : Text) → Sound (validate_text k evidence base now raw)
  unfolding validate_text
  text-Sound raw = Returns-bind (k.encode raw) _ λ encoded _.
      Sound-if _ _ _ (k.loads raw >>= validate_parsed k evidence base now)
        (Returns-bind (k.loads raw) _ λ parsed _. parsed-Sound parsed)

  -- Whatever the provider returns, each finding that an accepted assessment rests on is one of the
  -- evidence: those of its groups, of which none is empty, those of its remediation, and those of
  -- every claim that is not marked as unsupported. (The validation may also raise.)
  pub validate_analysis_response-IsGrounded :
      (raw : Response)
      → Returns (Accepts (IsGrounded evidence)) (validate_analysis_response k evidence base now raw)
  unfolding validate_analysis_response
  validate_analysis_response-IsGrounded (bytes raw) = Sound-if _ _ _ _ (text-Sound (k.decode raw))
  validate_analysis_response-IsGrounded (text raw) = text-Sound raw
  validate_analysis_response-IsGrounded (value j) = parsed-Sound (some j)
