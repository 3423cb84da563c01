-- ===== src/Engine/Cuts.antt =====
-- What is read of a cookie's text does not depend on its value.
use sentinel_gpt.Common.{
  ℕ, ◌≡◌, refl, sym, ap, ◌∙◌, Bool, true, false, not, ◌==◌, nat_eq, Option, none, some, [], ◌∷◌,
  ◌++◌, all_of, arith,
}
use sentinel_gpt.Common.Text.{Text, text_eq, lstrip, rstrip, strip}
use sentinel_gpt.Engine.Findings.{Tables, cut, or_empty, name_of, reduced, redact_cookie_value}
use sentinel_gpt.Engine.Cookies.{Cookie, read_cookie, flags_of}

-- The text has no `sep`.
abbrev pub Free : ℕ → Text → Type 0
Free sep s = all_of (λ c. not (c == sep)) s ≡ true

-- `; attributes`, if there are any
abbrev tail_of : Option Text → Text
tail_of none = []
tail_of (some attributes) = b';' ∷ attributes

-- `name=value; attributes`
abbrev pub cookie_text : Text → Text → Option Text → Text
cookie_text name value attributes = name ++ (b'=' ∷ (value ++ tail_of attributes))

cut-append :
    (sep : ℕ) (s t : Text)
    → Free sep s
    → cut sep (s ++ t) ≡ (let (before, after) = cut sep t in (s ++ before, after))
unfolding cut
cut-append sep [] t h = refl
cut-append sep (c ∷ s) t h = ground (arith, cut-append sep s t)

Free-append : (sep : ℕ) (s t : Text) → Free sep s → Free sep t → Free sep (s ++ t)
Free-append sep [] t h h' = h'
Free-append sep (c ∷ s) t h h' = ground (arith, Free-append sep s t)

append_full : (s : Text) (c : ℕ) (t : Text) → ((s ++ (c ∷ t)) == []) ≡ false
unfolding text_eq
append_full [] c t = refl
append_full (d ∷ s) c t = refl

append_nil : (s : Text) → s ++ [] ≡ s
append_nil [] = refl
append_nil (c ∷ s) = ap (λ t. c ∷ t) (append_nil s)

append_assoc : (s t r : Text) → (s ++ t) ++ r ≡ s ++ (t ++ r)
append_assoc [] t r = refl
append_assoc (c ∷ s) t r = ap (λ x. c ∷ x) (append_assoc s t r)

module _ (space : ℕ → Bool) (mark : space b'=' ≡ false) where
  lstrip-before :
      (name value : Text)
      → lstrip space (name ++ (b'=' ∷ value)) ≡ lstrip space name ++ (b'=' ∷ value)
  unfolding lstrip
  lstrip-before [] value = rw mark refl
  lstrip-before (c ∷ name) value = ground (arith, lstrip-before name value)

  rstrip-after :
      (name value : Text)
      → rstrip space (name ++ (b'=' ∷ value)) ≡ name ++ (b'=' ∷ rstrip space value)
  unfolding rstrip text_eq
  rstrip-after [] value = ground arith
  rstrip-after (c ∷ name) value =
      let rest = rstrip-after name value in
      let more = append_full name b'=' (rstrip space value) in rw rest (ground arith)

Free-lstrip : (space : ℕ → Bool) (sep : ℕ) (s : Text) → Free sep s → Free sep (lstrip space s)
unfolding lstrip
Free-lstrip space sep [] h = h
Free-lstrip space sep (c ∷ s) h = ground (arith, Free-lstrip space sep s)

module _ (k : Tables) (mark : k.unicode.is_space b'=' ≡ false) where
  -- What is kept of the name does not depend on the value.
  name_of-cookie :
      (name value : Text)
      → Free b'=' name
      → name_of k (strip k.unicode.is_space (name ++ (b'=' ∷ value)))
        ≡ strip k.unicode.is_space (lstrip k.unicode.is_space name ++ [])
  unfolding name_of strip cut nat_eq
  name_of-cookie name value h =
      let space = k.unicode.is_space in
      ap (λ t. name_of k (rstrip space t)) (lstrip-before space mark name value)
      ∙ (ap (name_of k) (rstrip-after space mark (lstrip space name) value)
          ∙ ap
              (λ c. elim c.1 [
                | none ↦ lstrip space name ++ (b'=' ∷ rstrip space value)
                | some v ↦ strip space c.0
              ])
              (cut-append b'=' (lstrip space name) (b'=' ∷ rstrip space value)
                (Free-lstrip space b'=' name h)))

  -- A cookie's text, cut at its attributes
  cut-cookie :
      (name value : Text) (attributes : Option Text)
      → Free b';' name
      → Free b';' value
      → cut b';' (cookie_text name value attributes) ≡ (name ++ (b'=' ∷ value), attributes)
  unfolding cut nat_eq
  cut-cookie name value attributes h h' =
      let pair = name ++ (b'=' ∷ value) in
      let whole =
        cut-append b';' (name ++ (b'=' ∷ value)) (tail_of attributes)
          (Free-append b';' name (b'=' ∷ value) h (ground arith)) in
      ap (cut b';') (sym (append_assoc name (b'=' ∷ value) (tail_of attributes)))
      ∙ (whole ∙ ends attributes)
    where
      ends :
          (o : Option Text)
          → ◌≡◌ {A = Text × Option Text}
              (let (before, after) = cut b';' (tail_of o) in
                ((name ++ (b'=' ∷ value)) ++ before, after))
              (name ++ (b'=' ∷ value), o)
      ends none = ap (λ t. (t, none)) (append_nil (name ++ (b'=' ∷ value)))
      ends (some a) = ap (λ t. (t, some a)) (append_nil (name ++ (b'=' ∷ value)))

  -- What is read of a cookie, by its name and its attributes
  abbrev pub kept : Text → Option Text → Cookie
  kept name attributes = record {
    redacted = reduced k name (or_empty attributes);
    flags = flags_of k (or_empty attributes);
  }

  pub read_cookie-kept :
      (name value : Text) (attributes : Option Text)
      → Free b'=' name
      → Free b';' name
      → Free b';' value
      → read_cookie k (cookie_text name value attributes)
        ≡ kept (strip k.unicode.is_space (lstrip k.unicode.is_space name ++ [])) attributes
  unfolding read_cookie redact_cookie_value
  read_cookie-kept name value attributes h free free_value =
      ap (λ c. kept (name_of k (strip k.unicode.is_space c.0)) c.1)
        (cut-cookie name value attributes free free_value)
      ∙ ap (λ n. kept n attributes) (name_of-cookie name value h)
