-- ===== src/Sandbox/Rules/Laws.antt =====
-- When the comparison of the live rules with the policy finds nothing.
use sentinel_gpt.Common.{
  ◌↔◌, ◌∙◌, sym, ℕ, ◌≡◌, refl, Bool, true, false, List, [], ◌∷◌, ◌++◌, contains, any_of, all_of,
  arith, if◌then◌else◌, Bool-eq_of_iff,
}
use sentinel_gpt.Common.Text.{Text, codes, text_eq, starts_with}
use sentinel_gpt.Network.IpAddress.{IpAddress}
use sentinel_gpt.Network.Binding.{SandboxEgressPolicy}
use sentinel_gpt.Sandbox.Commands.{Tool, iptables, ip6tables}
use sentinel_gpt.Sandbox.Rules.{
  Problem, policy_not_drop, unexpected_accepts, missing_accepts, accepted_dests, problems_of,
  expected_v4, expected_v6, compare_against_policy,
}

-- The dump drops what it does not accept, and the destinations that are found in it are those that
-- are expected.
pub record Matches (is_space : ℕ → Bool) (dump expected : List Text) : Type 0 where
  pub drops : any_of (λ line. starts_with line (codes "-P OUTPUT DROP")) dump ≡ true
  pub accepts :
      (dest : Text) → contains (accepted_dests is_space dump) dest ≡ contains expected dest

all_of-within :
    (ys xs : List Text) (a : Text)
    → all_of (contains ys) xs ≡ true
    → contains xs a ≡ true
    → contains ys a ≡ true
all_of-within ys [] a h e = ground arith
all_of-within ys (x ∷ xs) a h e = elim (text_eq.dec a x) [
  | yes p ↦ ground arith
  | no n ↦ all_of-within ys xs a (ground arith) (ground arith)
]

pub contains-head : (a : Text) (xs : List Text) → contains (a ∷ xs) a ≡ true
contains-head a xs = elim (text_eq.dec a a) [ yes p ↦ ground arith | no n ↦ absurd (n refl) ]

pub contains-tail :
    (x : Text) (xs : List Text) (a : Text) → contains xs a ≡ true → contains (x ∷ xs) a ≡ true
contains-tail x xs a e = elim (text_eq.dec a x) [ yes p ↦ ground arith | no n ↦ ground arith ]

within-all_of :
    (ys xs : List Text)
    → ((a : Text) → contains xs a ≡ true → contains ys a ≡ true)
    → all_of (contains ys) xs ≡ true
within-all_of ys [] h = refl
within-all_of ys (x ∷ xs) h =
    let here = h x (contains-head x xs) in
    let rest = within-all_of ys xs (λ a e. h a (contains-tail x xs a e)) in ground arith

-- Three tests, with a problem for each that fails
module _ (tool : Tool) (drops within covers : Bool) where
  abbrev reported : List Problem
  reported =
      (if drops then [] else policy_not_drop tool ∷ [])
      ++ ((if within then [] else unexpected_accepts tool ∷ [])
          ++ (if covers then [] else missing_accepts tool ∷ []))

reported_nil :
    (tool : Tool) (drops within covers : Bool)
    → reported tool drops within covers ≡ []
    → (drops ≡ true) × (within ≡ true) × (covers ≡ true)
reported_nil tool true true true h = (refl, refl, refl)
reported_nil tool true true false h = ground arith
reported_nil tool true false covers h = ground arith
reported_nil tool false within covers h = ground arith

reported_of :
    (tool : Tool) {drops within covers : Bool}
    → drops ≡ true
    → within ≡ true
    → covers ≡ true
    → reported tool drops within covers ≡ []
reported_of tool d w c = rw d (rw w (rw c refl))

Matches-iff :
    (is_space : ℕ → Bool) (tool : Tool) (dump expected : List Text)
    → (problems_of is_space tool dump expected ≡ []) ↔ Matches is_space dump expected
unfolding problems_of
Matches-iff is_space tool dump expected = (to, from)
  where
    to : problems_of is_space tool dump expected ≡ [] → Matches is_space dump expected
    to h =
        let (drops, within, covers) = reported_nil tool _ _ _ h in
        record {
          drops = drops;
          accepts = λ dest.
              Bool-eq_of_iff (all_of-within expected _ dest within)
                (all_of-within (accepted_dests is_space dump) _ dest covers);
        }

    from : Matches is_space dump expected → problems_of is_space tool dump expected ≡ []
    from h =
        let drops = h.drops in
        let within =
          within-all_of expected (accepted_dests is_space dump) (λ a e. sym (h.accepts a) ∙ e) in
        let covers =
          within-all_of (accepted_dests is_space dump) expected (λ a e. h.accepts a ∙ e) in
        reported_of tool drops within covers

append_nil : (xs ys : List Problem) → (xs ++ ys ≡ []) ↔ (xs ≡ []) × (ys ≡ [])
append_nil [] ys = (λ h. (refl, h), λ h. h.1)
append_nil (x ∷ xs) ys = (λ h. ground arith, λ h. ground arith)

-- No problem is reported exactly if both dumps match what is expected of them.
pub compare_against_policy-Matches :
    (is_space : ℕ → Bool) (show_ip : IpAddress → Text) (policy : SandboxEgressPolicy)
    (v4_dump v6_dump : List Text)
    → (compare_against_policy is_space show_ip policy v4_dump v6_dump ≡ [])
      ↔ Matches is_space v4_dump (expected_v4 show_ip policy)
        × Matches is_space v6_dump (expected_v6 show_ip policy)
unfolding compare_against_policy
compare_against_policy-Matches is_space show_ip policy v4_dump v6_dump =
    let v4 = Matches-iff is_space iptables v4_dump (expected_v4 show_ip policy) in
    let v6 = Matches-iff is_space ip6tables v6_dump (expected_v6 show_ip policy) in
    let both = append_nil (problems_of is_space iptables v4_dump (expected_v4 show_ip policy)) _ in
    (
      λ h. let (four, six) = both.0 h in (v4.0 four, v6.0 six),
      λ (four, six). both.1 (v4.1 four, v6.1 six),
    )
