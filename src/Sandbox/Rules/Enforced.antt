-- ===== src/Sandbox/Rules/Enforced.antt =====
-- The comparison with the policy, in terms of the lines of the dumps and of the addresses of the
-- policy.
use mathlib.Core.Bool.{true≢false}
use sentinel_gpt.Common.{
  ◌∙◌, ◌≢◌, sym, ap, ℕ, ◌≡◌, refl, Bool, true, false, not, Option-cases, Option, none, some, List,
  [], ◌∷◌, ◌++◌, map, keep_if, contains, any_of, arith, ◌||◌, ◌==◌, inl, inr, nat_eq,
}
use sentinel_gpt.Common.Text.{Text, codes, text_eq, starts_with}
use sentinel_gpt.Network.IpAddress.{IpAddress, v4, v6}
use sentinel_gpt.Network.Binding.{SandboxEgressPolicy, is_v4}
use sentinel_gpt.Sandbox.Rules.{
  accept_dest, accepted_dests, expected_v4, expected_v6, compare_against_policy,
}
use sentinel_gpt.Sandbox.Rules.Lines.{
  rule, IsDest, accepts_in, accept_dest-rule, accept_dest-stands,
}
use sentinel_gpt.Sandbox.Rules.Laws.{
  contains-head, contains-tail, Matches, compare_against_policy-Matches,
}

-- The destination is one of the IPv4 addresses as a network of its own, or one of the IPv6 addresses.
abbrev pub names_v4 : (IpAddress → Text) → List IpAddress → Text → Bool
names_v4 show_ip [] dest = false
names_v4 show_ip (v4 n ∷ addresses) dest =
    dest == (show_ip (v4 n) ++ codes "/32") || names_v4 show_ip addresses dest
names_v4 show_ip (v6 n ∷ addresses) dest = names_v4 show_ip addresses dest

abbrev pub names_v6 : (IpAddress → Text) → List IpAddress → Text → Bool
names_v6 show_ip [] dest = false
names_v6 show_ip (v4 n ∷ addresses) dest = names_v6 show_ip addresses dest
names_v6 show_ip (v6 n ∷ addresses) dest =
    dest == (show_ip (v6 n) ++ codes "/128") || names_v6 show_ip addresses dest

-- The dump drops what it does not accept; a rule for one destination, as iptables prints it, is for
-- one that is named; and for each that is named a line of the dump appends a rule that accepts it.
pub record Enforces (is_space : ℕ → Bool) (dump : List Text) (named : Text → Bool) : Type 0 where
  pub drops : any_of (λ line. starts_with line (codes "-P OUTPUT DROP")) dump ≡ true
  pub within :
      (dest : Text) → IsDest is_space dest → contains dump (rule dest) ≡ true → named dest ≡ true
  pub reaches :
      (dest : Text) → named dest ≡ true → any_of (λ line. accepts_in line dest) dump ≡ true

contains-other :
    (a x : Text) (xs : List Text) → a ≢ x → contains (x ∷ xs) a ≡ true → contains xs a ≡ true
contains-other a x xs n h = ground arith

or_left : (a b : Bool) → a ≡ true → a || b ≡ true
or_left a b h = ground arith

or_right : (a b : Bool) → b ≡ true → a || b ≡ true
or_right a b h = ground arith

module _ (show_ip : IpAddress → Text) (dest : Text) where
  contains-v4 :
      (addresses : List IpAddress)
      → contains (map (λ a. show_ip a ++ codes "/32") (keep_if is_v4 addresses)) dest
        ≡ names_v4 show_ip addresses dest
  contains-v4 [] = refl
  contains-v4 (v4 n ∷ addresses) =
      ap (λ b. dest == (show_ip (v4 n) ++ codes "/32") || b) (contains-v4 addresses)
  contains-v4 (v6 n ∷ addresses) = contains-v4 addresses

  contains-v6 :
      (addresses : List IpAddress)
      → contains
          (map (λ a. show_ip a ++ codes "/128") (keep_if (λ a. not (is_v4 a)) addresses))
          dest
        ≡ names_v6 show_ip addresses dest
  contains-v6 [] = refl
  contains-v6 (v4 n ∷ addresses) = contains-v6 addresses
  contains-v6 (v6 n ∷ addresses) =
      ap (λ b. dest == (show_ip (v6 n) ++ codes "/128") || b) (contains-v6 addresses)

  pub expected_v4-names :
      (policy : SandboxEgressPolicy)
      → contains (expected_v4 show_ip policy) dest ≡ names_v4 show_ip policy.allowed_addresses dest
  unfolding expected_v4
  expected_v4-names policy = contains-v4 policy.allowed_addresses

  pub expected_v6-names :
      (policy : SandboxEgressPolicy)
      → contains (expected_v6 show_ip policy) dest ≡ names_v6 show_ip policy.allowed_addresses dest
  unfolding expected_v6
  expected_v6-names policy = contains-v6 policy.allowed_addresses

module _ (is_space : ℕ → Bool) (blank : is_space b' ' ≡ true) where
  pub accepted_cons :
      (line : Text) (dump : List Text) (d : Text)
      → accept_dest is_space line ≡ some d
      → accepted_dests is_space (line ∷ dump) ≡ d ∷ accepted_dests is_space dump
  unfolding accepted_dests
  accepted_cons line dump d e = ap taken e
    where
      taken : Option Text → List Text
      taken (some d) = d ∷ accepted_dests is_space dump
      taken none = accepted_dests is_space dump

  pub accepted_skip :
      (line : Text) (dump : List Text)
      → accept_dest is_space line ≡ none
      → accepted_dests is_space (line ∷ dump) ≡ accepted_dests is_space dump
  unfolding accepted_dests
  accepted_skip line dump e = ap taken e
    where
      taken : Option Text → List Text
      taken (some d) = d ∷ accepted_dests is_space dump
      taken none = accepted_dests is_space dump

  accepted_later :
      (line : Text) (dump : List Text) (dest : Text)
      → contains (accepted_dests is_space dump) dest ≡ true
      → contains (accepted_dests is_space (line ∷ dump)) dest ≡ true
  accepted_later line dump dest h = elim (Option-cases (accept_dest is_space line)) [
    | inl e ↦ ap (λ l. contains l dest) (accepted_skip line dump e) ∙ h
    | inr (d, e) ↦
        ap (λ l. contains l dest) (accepted_cons line dump d e)
        ∙ contains-tail d (accepted_dests is_space dump) dest h
  ]

  accepted_of_rule :
      (dest : Text) (dump : List Text)
      → IsDest is_space dest
      → contains dump (rule dest) ≡ true
      → contains (accepted_dests is_space dump) dest ≡ true
  accepted_of_rule dest [] d h = absurd (true≢false (sym h))
  accepted_of_rule dest (line ∷ dump) d h = elim (text_eq.dec (rule dest) line) [
    | yes e ↦
        let found = ap (accept_dest is_space) (sym e) ∙ accept_dest-rule is_space blank dest d in
        ap (λ l. contains l dest) (accepted_cons line dump dest found)
        ∙ contains-head dest (accepted_dests is_space dump)
    | no n ↦ accepted_later line dump dest (accepted_of_rule dest dump d (contains-other _ _ _ n h))
  ]

  nothing_accepted : (dest : Text) → contains (accepted_dests is_space []) dest ≡ false
  unfolding accepted_dests
  nothing_accepted dest = refl

  stands_of_accepted :
      (dest : Text) (dump : List Text)
      → contains (accepted_dests is_space dump) dest ≡ true
      → any_of (λ line. accepts_in line dest) dump ≡ true
  stands_of_accepted dest [] h = absurd (true≢false (sym h ∙ nothing_accepted dest))
  stands_of_accepted dest (line ∷ dump) h = elim (Option-cases (accept_dest is_space line)) [
    | inl e ↦ or_right _ _ (
        stands_of_accepted dest dump
          (ap (λ l. contains l dest) (sym (accepted_skip line dump e)) ∙ h))
    | inr (d, e) ↦
        let held = ap (λ l. contains l dest) (sym (accepted_cons line dump d e)) ∙ h in
        elim (text_eq.dec dest d) [
          | yes same ↦
              or_left _ _
                (accept_dest-stands is_space blank line dest (e ∙ ap (λ t. some t) (sym same)))
          | no n ↦ or_right _ _ (stands_of_accepted dest dump (contains-other _ _ _ n held))
        ]
  ]

  Enforces-Matches :
      (dump expected : List Text) (named : Text → Bool)
      → ((dest : Text) → contains expected dest ≡ named dest)
      → Matches is_space dump expected
      → Enforces is_space dump named
  Enforces-Matches dump expected named same m = record {
    drops = m.drops;
    within = λ dest d h. sym (same dest) ∙ (sym (m.accepts dest) ∙ accepted_of_rule dest dump d h);
    reaches = λ dest h. stands_of_accepted dest dump (m.accepts dest ∙ (same dest ∙ h));
  }

  -- If nothing is wrong, the dumps enforce the policy.
  pub compare_against_policy-Enforces :
      (show_ip : IpAddress → Text) (policy : SandboxEgressPolicy) (v4_dump v6_dump : List Text)
      → compare_against_policy is_space show_ip policy v4_dump v6_dump ≡ []
      → Enforces is_space v4_dump (names_v4 show_ip policy.allowed_addresses)
        × Enforces is_space v6_dump (names_v6 show_ip policy.allowed_addresses)
  compare_against_policy-Enforces show_ip policy v4_dump v6_dump h =
      let (four, six) =
        (compare_against_policy-Matches is_space show_ip policy v4_dump v6_dump).0 h in
      (
        Enforces-Matches v4_dump _ _ (λ dest. expected_v4-names show_ip dest policy) four,
        Enforces-Matches v6_dump _ _ (λ dest. expected_v6-names show_ip dest policy) six,
      )
