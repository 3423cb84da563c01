-- ===== src/Sandbox/Rules/Tables.antt =====
-- The comparison of tables of the form that the sandbox installs.
use sentinel_gpt.Common.{
  ◌↔◌, ◌∙◌, sym, ap, ℕ, ◌≡◌, refl, Bool, true, none, List, [], ◌∷◌, map, contains, any_of, All,
  nat_eq,
}
use sentinel_gpt.Common.Text.{Text, codes, text_eq, starts_with}
use sentinel_gpt.Network.IpAddress.{IpAddress}
use sentinel_gpt.Network.Binding.{SandboxEgressPolicy}
use sentinel_gpt.Sandbox.Rules.{
  accept_dest, accepted_dests, last_dest, dest_here, compare_against_policy,
}
use sentinel_gpt.Sandbox.Rules.Lines.{rule, IsDest, accept_dest-rule}
use sentinel_gpt.Sandbox.Rules.Laws.{Matches, compare_against_policy-Matches}
use sentinel_gpt.Sandbox.Rules.Enforced.{
  names_v4, names_v6, expected_v4-names, expected_v6-names, accepted_cons, accepted_skip,
}

abbrev reply_rule : Text
reply_rule = codes "-A OUTPUT -m state --state RELATED,ESTABLISHED -j ACCEPT"

-- What iptables prints of the rules that the sandbox installs for some destinations
abbrev pub table : List Text → List Text
table dests = codes "-P OUTPUT DROP" ∷ reply_rule ∷ map rule dests

module _ (is_space : ℕ → Bool) (blank : is_space b' ' ≡ true) where
  accepted_of_rules :
      (dests : List Text)
      → All (IsDest is_space) dests
      → accepted_dests is_space (map rule dests) ≡ dests
  unfolding accepted_dests
  accepted_of_rules [] h = refl
  accepted_of_rules (dest ∷ dests) h =
      accepted_cons is_space blank (rule dest) (map rule dests) dest
        (accept_dest-rule is_space blank dest h.0)
      ∙ ap (λ l. dest ∷ l) (accepted_of_rules dests h.1)

  header-none : accept_dest is_space (codes "-P OUTPUT DROP") ≡ none
  unfolding accept_dest starts_with nat_eq
  header-none = refl

  reply-none : accept_dest is_space reply_rule ≡ none
  unfolding accept_dest last_dest dest_here starts_with nat_eq
  reply-none = refl

  accepted_of_table :
      (dests : List Text)
      → All (IsDest is_space) dests
      → accepted_dests is_space (table dests) ≡ dests
  accepted_of_table dests h =
      accepted_skip is_space blank (codes "-P OUTPUT DROP") (reply_rule ∷ map rule dests)
        header-none
      ∙ (accepted_skip is_space blank reply_rule (map rule dests) reply-none
          ∙ accepted_of_rules dests h)

  drops_of_table :
      (dests : List Text)
      → any_of (λ line. starts_with line (codes "-P OUTPUT DROP")) (table dests) ≡ true
  unfolding starts_with nat_eq
  drops_of_table dests = refl

  Matches-table_iff :
      (dests expected : List Text) (named : Text → Bool)
      → All (IsDest is_space) dests
      → ((dest : Text) → contains expected dest ≡ named dest)
      → Matches is_space (table dests) expected ↔ ((dest : Text) → contains dests dest ≡ named dest)
  Matches-table_iff dests expected named h same = (
    λ m dest.
        ap (λ l. contains l dest) (sym (accepted_of_table dests h)) ∙ (m.accepts dest ∙ same dest),
    λ g. record {
      drops = drops_of_table dests;
      accepts = λ dest.
          ap (λ l. contains l dest) (accepted_of_table dests h) ∙ (g dest ∙ sym (same dest));
    },
  )

  -- Two tables of the form that the sandbox installs, which drop what they do not accept and accept
  -- the replies and some destinations, are in order exactly if the destinations of the first are the
  -- IPv4 addresses of the policy, each as a network of its own, and those of the second its IPv6
  -- addresses. (Destinations are no empty texts and hold no spaces, and
  -- the space counts as white space.)
  pub compare_against_policy-table_iff :
      (show_ip : IpAddress → Text) (policy : SandboxEgressPolicy) (v4_dests v6_dests : List Text)
      → All (IsDest is_space) v4_dests
      → All (IsDest is_space) v6_dests
      → (compare_against_policy is_space show_ip policy (table v4_dests) (table v6_dests) ≡ [])
        ↔ ((dest : Text) → contains v4_dests dest ≡ names_v4 show_ip policy.allowed_addresses dest)
          × ((dest : Text)
              → contains v6_dests dest ≡ names_v6 show_ip policy.allowed_addresses dest)
  compare_against_policy-table_iff show_ip policy v4_dests v6_dests h h' =
      let whole =
        compare_against_policy-Matches is_space show_ip policy (table v4_dests) (table v6_dests) in
      let four = Matches-table_iff v4_dests _ _ h (λ dest. expected_v4-names show_ip dest policy) in
      let six = Matches-table_iff v6_dests _ _ h' (λ dest. expected_v6-names show_ip dest policy) in
      (λ e. let (m, n) = whole.0 e in (four.0 m, six.0 n), λ (m, n). whole.1 (four.1 m, six.1 n))
