-- ===== src/Sandbox/Rules/Lines.antt =====
-- What the pattern of `_ACCEPT_DEST_RE` finds in a line.
use mathlib.Core.Path.{subst}
use sentinel_gpt.Common.{
  ℕ, zero, suc, ◌≡◌, ◌≢◌, ◌⊎◌, refl, Option-cases, sym, ap, ◌∙◌, Bool, true, false, not, ◌==◌,
  nat_eq, Option, none, some, [], ◌∷◌, ◌++◌, all_of, drop, length, arith, if◌then◌else◌, ◌&&◌,
  Bool-cases, inl, inr,
}
use sentinel_gpt.Common.Text.{Text, codes, text_eq, starts_with, has_infix}
use sentinel_gpt.Sandbox.Rules.{token, dest_here, last_dest, accept_dest}

abbrev tail : Text
tail = codes " -j ACCEPT"

-- The rule that accepts a destination, as iptables prints it
abbrev pub rule : Text → Text
rule dest = codes "-A OUTPUT -d " ++ (dest ++ codes " -j ACCEPT")

-- A destination: some characters, and no space among them
pub record IsDest (is_space : ℕ → Bool) (dest : Text) : Type 0 where
  pub full : (dest == []) ≡ false
  pub solid : all_of (λ c. not (is_space c)) dest ≡ true

-- The line appends a rule to OUTPUT, and names the destination in it.
abbrev pub accepts_in : Text → Text → Bool
accepts_in line dest =
    has_infix line (codes "-A OUTPUT ")
    && has_infix line (codes "-d " ++ (dest ++ codes " -j ACCEPT"))

both_true : {a b : Bool} → a ≡ true → b ≡ true → a && b ≡ true
both_true h g = ground arith

first_true : (a b : Bool) → a && b ≡ true → a ≡ true
first_true a b h = ground arith

second_true : (a b : Bool) → a && b ≡ true → b ≡ true
second_true a b h = ground arith

chosen :
    (b : Bool) (x y o : Option Text) → (if b then x else y) ≡ o → ((b ≡ true) × (x ≡ o)) ⊎ (y ≡ o)
chosen true x y o h = inl (refl, h)
chosen false x y o h = inr h

infix_head : (s p : Text) → starts_with s p ≡ true → has_infix s p ≡ true
unfolding starts_with has_infix text_eq
infix_head [] [] h = refl
infix_head [] (c ∷ p) h = ground arith
infix_head (d ∷ s) p h = rw h refl

infix_tail : (c : ℕ) (s p : Text) → has_infix s p ≡ true → has_infix (c ∷ s) p ≡ true
unfolding has_infix
infix_tail c s p h = rest (starts_with (c ∷ s) p) (has_infix s p) h
  where
    rest : (b i : Bool) → i ≡ true → (if b then true else i) ≡ true
    rest true i h = refl
    rest false i h = h

infix_drop : (n : ℕ) (s p : Text) → has_infix (drop n s) p ≡ true → has_infix s p ≡ true
infix_drop zero s p h = h
infix_drop (suc n) [] p h = h
infix_drop (suc n) (c ∷ s) p h = infix_tail c s p (infix_drop n s p h)

module _ (is_space : ℕ → Bool) (blank : is_space b' ' ≡ true) where
  token-dest :
      (dest : Text)
      → all_of (λ c. not (is_space c)) dest ≡ true
      → token is_space (dest ++ tail) ≡ (dest, tail)
  unfolding token
  token-dest [] h = rw blank refl
  token-dest (c ∷ dest) h =
      let rest = token-dest dest (ground arith) in
      let here : is_space c ≡ false = ground arith in rw here (rw rest refl)

  -- What follows `-j` is no ` -j ACCEPT`.
  after_flag : starts_with (token is_space (codes "-j ACCEPT")).1 tail ≡ false
  unfolding token starts_with nat_eq
  after_flag = elim (Bool-cases (is_space b'-')) [
    | inl h ↦ rw h refl
    | inr h ↦ elim (Bool-cases (is_space b'j')) [
      | inl g ↦ rw h (rw g refl)
      | inr g ↦ rw h (rw g (rw blank refl))
    ]
  ]

  solid_not_blank : (c : ℕ) → is_space c ≡ false → (c == b' ') ≡ false
  unfolding nat_eq
  solid_not_blank c h = elim (nat_eq.dec c b' ') [
    | yes e ↦ let same = ap is_space e in ground arith
    | no n ↦ ground arith
  ]

  dest_here-blank : (s : Text) → dest_here is_space (b' ' ∷ s) ≡ none
  unfolding dest_here starts_with nat_eq
  dest_here-blank s = refl

  dest_here-flag : (s : Text) → dest_here is_space (b'd' ∷ s) ≡ none
  unfolding dest_here starts_with nat_eq
  dest_here-flag s = refl

  dest_here-none :
      (dest : Text)
      → all_of (λ c. not (is_space c)) dest ≡ true
      → dest_here is_space (dest ++ tail) ≡ none
  unfolding dest_here starts_with nat_eq
  dest_here-none [] h = refl
  dest_here-none (c ∷ []) h = ground arith
  dest_here-none (c ∷ d ∷ []) h = let after = after_flag in ground arith
  dest_here-none (c ∷ d ∷ e ∷ dest) h = let apart = solid_not_blank e (ground arith) in ground arith

  last_dest-none :
      (dest : Text)
      → all_of (λ c. not (is_space c)) dest ≡ true
      → last_dest is_space (dest ++ tail) ≡ none
  unfolding last_dest dest_here starts_with nat_eq text_eq
  last_dest-none [] h = refl
  last_dest-none (c ∷ dest) h =
      let rest = last_dest-none dest (ground arith) in rw rest (dest_here-none (c ∷ dest) h)

  dest_here-dest :
      (dest : Text)
      → IsDest is_space dest
      → dest_here is_space (codes "-d " ++ (dest ++ tail)) ≡ some dest
  unfolding dest_here starts_with nat_eq
  dest_here-dest dest h =
      let split = token-dest dest h.solid in let full = h.full in rw split (rw full refl)

  last_dest-cons :
      (c : ℕ) (s : Text)
      → last_dest is_space s ≡ none
      → last_dest is_space (c ∷ s) ≡ dest_here is_space (c ∷ s)
  unfolding last_dest
  last_dest-cons c s e = ap found e
    where
      found : Option Text → Option Text
      found (some d) = some d
      found none = dest_here is_space (c ∷ s)

  pub accept_dest-rule :
      (dest : Text) → IsDest is_space dest → accept_dest is_space (rule dest) ≡ some dest
  unfolding accept_dest starts_with nat_eq
  accept_dest-rule dest h =
      let s = dest ++ tail in
      let two = last_dest-cons b' ' s (last_dest-none dest h.solid) ∙ dest_here-blank s in
      let three = last_dest-cons b'd' (b' ' ∷ s) two ∙ dest_here-flag (b' ' ∷ s) in
      last_dest-cons b'-' (b'd' ∷ b' ' ∷ s) three ∙ dest_here-dest dest h

  -- What the pattern finds stands in the line, between `-d ` and ` -j ACCEPT`.
  starts-append :
      (s p q : Text)
      → starts_with s p ≡ true
      → starts_with (drop (length p) s) q ≡ true
      → starts_with s (p ++ q) ≡ true
  unfolding starts_with
  starts-append s [] q h g = g
  starts-append [] (c ∷ p) q h g = ground arith
  starts-append (d ∷ s) (c ∷ p) q h g = ground (arith, starts-append s p q)

  starts-cut :
      (blank_here : Bool) (c : ℕ) (s t rest q : Text)
      → (starts_with rest q ≡ true → starts_with s (t ++ q) ≡ true)
      → starts_with (if◌then◌else◌ {A = Text × Text} blank_here ([], c ∷ s) (c ∷ t, rest)).1 q
        ≡ true
      → starts_with
          (c ∷ s)
          ((if◌then◌else◌ {A = Text × Text} blank_here ([], c ∷ s) (c ∷ t, rest)).0 ++ q)
        ≡ true
  unfolding starts_with
  starts-cut true c s t rest q k h = h
  starts-cut false c s t rest q k h = let step = k h in ground arith

  starts-token :
      (s q : Text)
      → starts_with (token is_space s).1 q ≡ true
      → starts_with s ((token is_space s).0 ++ q) ≡ true
  unfolding token starts_with
  starts-token [] q h = h
  starts-token (c ∷ s) q h =
      starts-cut (is_space c) c s (token is_space s).0 (token is_space s).1 q (starts-token s q) h

  found_parts :
      (a b c : Bool) (t dest : Text)
      → (if a && b && c then some t else none) ≡ some dest
      → (a ≡ true) × (c ≡ true) × (t ≡ dest)
  found_parts true true true t dest h = (refl, refl, cc)
  found_parts true true false t dest h = absurd (ground arith)
  found_parts true false c t dest h = absurd (ground arith)
  found_parts false b c t dest h = absurd (ground arith)

  dest_here-stands :
      (s dest : Text)
      → dest_here is_space s ≡ some dest
      → starts_with s (codes "-d " ++ (dest ++ tail)) ≡ true
  unfolding dest_here
  dest_here-stands s dest h =
      let (flag, accepts, same) =
        found_parts (starts_with s (codes "-d ")) _ (starts_with (token is_space (drop 3 s)).1 tail)
          (token is_space (drop 3 s)).0 dest h in
      starts-append s (codes "-d ") (dest ++ tail) flag (
        subst (λ t. starts_with (drop 3 s) (t ++ tail) ≡ true) same
          (starts-token (drop 3 s) tail accepts))

  last_dest-nil : (dest : Text) → last_dest is_space [] ≢ some dest
  unfolding last_dest
  last_dest-nil dest h = ground arith

  accept_dest-nil : (dest : Text) → accept_dest is_space [] ≢ some dest
  unfolding accept_dest
  accept_dest-nil dest h = ground arith

  last_dest-keeps :
      (c : ℕ) (s d : Text) → last_dest is_space s ≡ some d → last_dest is_space (c ∷ s) ≡ some d
  unfolding last_dest
  last_dest-keeps c s d e = ap found e
    where
      found : Option Text → Option Text
      found (some d) = some d
      found none = dest_here is_space (c ∷ s)

  last_dest-stands :
      (s dest : Text)
      → last_dest is_space s ≡ some dest
      → has_infix s (codes "-d " ++ (dest ++ tail)) ≡ true
  last_dest-stands [] dest h = absurd (last_dest-nil dest h)
  last_dest-stands (c ∷ s) dest h = elim (Option-cases (last_dest is_space s)) [
    | inl e ↦ infix_head (c ∷ s) _ (dest_here-stands (c ∷ s) dest (sym (last_dest-cons c s e) ∙ h))
    | inr (d, e) ↦
        infix_tail c s _ (last_dest-stands s dest (e ∙ (sym (last_dest-keeps c s d e) ∙ h)))
  ]

  accept_dest-cases :
      (c : ℕ) (s dest : Text)
      → accept_dest is_space (c ∷ s) ≡ some dest
      → ((starts_with (c ∷ s) (codes "-A OUTPUT ") ≡ true)
          × (last_dest is_space (drop 10 (c ∷ s)) ≡ some dest))
        ⊎ (accept_dest is_space s ≡ some dest)
  unfolding accept_dest
  accept_dest-cases c s dest h = chosen (starts_with (c ∷ s) (codes "-A OUTPUT ")) _ _ _ h

  -- A rule of the chain OUTPUT that accepts the destination stands in the line.
  pub accept_dest-stands :
      (line dest : Text) → accept_dest is_space line ≡ some dest → accepts_in line dest ≡ true
  accept_dest-stands [] dest h = absurd (accept_dest-nil dest h)
  accept_dest-stands (c ∷ s) dest h = elim (accept_dest-cases c s dest h) [
    | inl (chain, found) ↦
        let here = infix_head (c ∷ s) (codes "-A OUTPUT ") chain in
        let there =
          infix_drop 10 (c ∷ s) (codes "-d " ++ (dest ++ tail))
            (last_dest-stands (drop 10 (c ∷ s)) dest found) in
        both_true here there
    | inr later ↦
        let rest = accept_dest-stands s dest later in
        both_true (infix_tail c s (codes "-A OUTPUT ") (first_true _ _ rest))
          (infix_tail c s (codes "-d " ++ (dest ++ tail)) (second_true _ _ rest))
  ]
