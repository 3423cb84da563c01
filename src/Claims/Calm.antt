-- ===== src/Claims/Calm.antt =====
-- A response is validated, if the reading of JSON, the coding of texts and `str` do not raise.
use sentinel_gpt.Common.{
  ℕ, suc, ◌≡◌, refl, Bool, true, false, Option, none, some, List, [], ◌∷◌, if◌then◌else◌,
}
use sentinel_gpt.Common.Text.{Text, codes}
use sentinel_gpt.Errors.{Result, ok, ◌>>=◌}
use sentinel_gpt.Engine.Findings.{Severity}
use sentinel_gpt.Claims.Json.{
  Json, null, boolean, number, string, array, object, Members, get_member, filled, list_of,
}
use sentinel_gpt.Claims.Models.{
  Claim, CorrelatedGroup, RemediationItem, SchemaError, derive_group_id, derive_assessment_id,
}
use sentinel_gpt.Claims.Sections.{
  Section, each, over, section, grouped, known_ids, safe_str, group_of, item_of, texts_of,
  validate_group, validate_remediation, validate_claim,
}
use sentinel_gpt.Claims.Validator.{
  Codec, EvidenceSet, has_finding, digest, Response, bytes, text, value, Field, valid, invalid,
  assessed, concluded, validate_structure, validate_parsed, validate_text,
  validate_analysis_response,
}

-- The call returns.
abbrev pub Gives : {A : Type 0} → Result A → Type 0
Gives {A} r = (a : A) × (r ≡ ok a)

pub record IsCalm (k : Codec) : Type 0 where
  pub encodes : (t : Text) → Gives (k.encode t)
  pub reads : (t : Text) → Gives (k.loads t)
  pub shows : (j : Json) → Gives (k.shown j)

Gives-bind :
    {A B : Type 0} (m : Result A) (f : A → Result B)
    → Gives m
    → ((a : A) → Gives (f a))
    → Gives (m >>= f)
unfolding ◌>>=◌
Gives-bind m f (a, e) g = rw e (g a)

Gives-if :
    {A : Type 0} (b : Bool) (r r' : Result A) → Gives r → Gives r' → Gives (if b then r else r')
Gives-if true r r' h h' = h
Gives-if false r r' h h' = h'

Gives-section :
    {A : Type 0} (name : Text) (body : ℕ → Json → Result (Section A))
    → ((i : ℕ) (j : Json) → Gives (body i j))
    → (o : Option Json) → Gives (section name body o)
unfolding section over each
Gives-section name body h o = listed (list_of o)
  where
    all : (i : ℕ) (js : List Json) → Gives (each body i js)
    all i [] = (_, refl)
    all i (j ∷ js) =
        Gives-bind (body i j) _ (h i j)
          λ here. Gives-bind (each body (suc i) js) _ (all (suc i) js) λ rest. (_, refl)

    listed : (l : Option (List Json)) → Gives (over name body l)
    listed none = (_, refl)
    listed (some js) = all 0 js

module _ (k : Codec) (calm : IsCalm k) where
  Gives-digest : (t : Text) → Gives (digest k t)
  Gives-digest t = Gives-bind (k.encode t) _ (calm.encodes t) λ b. (_, refl)

  Gives-safe_str : (o : Option Json) → Gives (safe_str k.tables (digest k) k.shown o)
  unfolding safe_str
  Gives-safe_str none = (_, refl)
  Gives-safe_str (some (string t)) = (_, refl)
  Gives-safe_str (some null) = Gives-bind _ _ (calm.shows null) λ t. (_, refl)
  Gives-safe_str (some (boolean b)) = Gives-bind _ _ (calm.shows (boolean b)) λ t. (_, refl)
  Gives-safe_str (some (number n)) = Gives-bind _ _ (calm.shows (number n)) λ t. (_, refl)
  Gives-safe_str (some (array js)) = Gives-bind _ _ (calm.shows (array js)) λ t. (_, refl)
  Gives-safe_str (some (object ms)) = Gives-bind _ _ (calm.shows (object ms)) λ t. (_, refl)

  Gives-grouped :
      (title : Text) (rationale : Result Text) (ids : List Text)
      → Gives rationale
      → Gives (grouped (digest k) title rationale ids)
  unfolding grouped derive_group_id
  Gives-grouped title rationale [] h = (_, refl)
  Gives-grouped title rationale (i ∷ ids) h =
      Gives-bind _ _ (Gives-digest _) λ group_id. Gives-bind rationale _ h λ t. (_, refl)

  module _ (has : Text → Bool) where
    Gives-group : (i : ℕ) (j : Json) → Gives (validate_group k.tables (digest k) k.shown has i j)
    unfolding validate_group group_of
    Gives-group i null = (_, refl)
    Gives-group i (boolean b) = (_, refl)
    Gives-group i (number n) = (_, refl)
    Gives-group i (string t) = (_, refl)
    Gives-group i (array js) = (_, refl)
    Gives-group i (object fields) =
        built (filled k.tables.unicode.is_space (get_member (codes "title") fields))
          (texts_of (list_of (get_member (codes "finding_ids") fields)))
      where
        built :
            (t : Option Text) (ids : Option (List Text))
            → Gives (group_of k.tables (digest k) k.shown has i fields t ids)
        built none ids = (_, refl)
        built (some title) none = (_, refl)
        built (some title) (some ids) =
            Gives-bind _ _ (Gives-grouped title _ (known_ids has ids) (Gives-safe_str _))
              λ items. (_, refl)

    Gives-item :
        (i : ℕ) (j : Json) → Gives (validate_remediation k.tables (digest k) k.shown has i j)
    unfolding validate_remediation item_of
    Gives-item i null = (_, refl)
    Gives-item i (boolean b) = (_, refl)
    Gives-item i (number n) = (_, refl)
    Gives-item i (string t) = (_, refl)
    Gives-item i (array js) = (_, refl)
    Gives-item i (object fields) =
        built (filled k.tables.unicode.is_space (get_member (codes "title") fields))
      where
        built : (t : Option Text) → Gives (item_of k.tables (digest k) k.shown has i fields t)
        built none = (_, refl)
        built (some title) = Gives-bind _ _ (Gives-safe_str _) λ detail. (_, refl)

    Gives-claim : (i : ℕ) (j : Json) → Gives (validate_claim k.tables (digest k) k.shown has i j)
    unfolding validate_claim
    Gives-claim i null = (_, refl)
    Gives-claim i (boolean b) = (_, refl)
    Gives-claim i (number n) = (_, refl)
    Gives-claim i (string t) = (_, refl)
    Gives-claim i (array js) = (_, refl)
    Gives-claim i (object fields) = (_, refl)

  module _ (evidence : EvidenceSet) (base : List (Text × Text)) (now : ℕ) where
    Gives-concluded :
        (s : Field Text) (p : Option Severity) (l : Field (List Text))
        (groups : Section CorrelatedGroup) (items : Section RemediationItem)
        (claims : Section Claim) (errors : List SchemaError) (us : List Claim)
        → Gives (concluded k evidence base now s p l groups items claims errors us)
    unfolding concluded assessed derive_assessment_id
    Gives-concluded (valid s) (some p) (valid l) groups items claims [] us =
        Gives-bind _ _ (Gives-bind _ _ (Gives-digest _) λ id. (_, refl)) λ a. (_, refl)
    Gives-concluded (valid s) (some p) (valid l) groups items claims (e ∷ es) us = (_, refl)
    Gives-concluded (valid s) (some p) (invalid x) groups items claims errors us = (_, refl)
    Gives-concluded (valid s) none l groups items claims errors us = (_, refl)
    Gives-concluded (invalid x) p l groups items claims errors us = (_, refl)

    Gives-structure : (payload : Members) → Gives (validate_structure k evidence base now payload)
    unfolding validate_structure
    Gives-structure payload =
        let has = has_finding evidence in
        Gives-bind _ _ (Gives-section _ _ (Gives-group has) _) λ groups.
          Gives-bind _ _ (Gives-section _ _ (Gives-item has) _) λ items.
            Gives-bind _ _ (Gives-section _ _ (Gives-claim has) _)
              λ claims. Gives-concluded _ _ _ groups items claims _ _

    Gives-parsed : (j : Option Json) → Gives (validate_parsed k evidence base now j)
    unfolding validate_parsed
    Gives-parsed none = (_, refl)
    Gives-parsed (some null) = (_, refl)
    Gives-parsed (some (boolean b)) = (_, refl)
    Gives-parsed (some (number n)) = (_, refl)
    Gives-parsed (some (string t)) = (_, refl)
    Gives-parsed (some (array js)) = (_, refl)
    Gives-parsed (some (object payload)) = Gives-structure payload

    Gives-text : (raw : Text) → Gives (validate_text k evidence base now raw)
    unfolding validate_text
    Gives-text raw = Gives-bind (k.encode raw) _ (calm.encodes raw) λ encoded.
        Gives-if _ _ (k.loads raw >>= validate_parsed k evidence base now) (_, refl)
          (Gives-bind (k.loads raw) _ (calm.reads raw) λ j. Gives-parsed j)

    pub Gives-response :
        (raw : Response) → Gives (validate_analysis_response k evidence base now raw)
    unfolding validate_analysis_response
    Gives-response (bytes raw) =
        Gives-if _ _ (validate_text k evidence base now (k.decode raw)) (_, refl)
          (Gives-text (k.decode raw))
    Gives-response (text raw) = Gives-text raw
    Gives-response (value j) = Gives-parsed (some j)
