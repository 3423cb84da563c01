-- ===== src/Sandbox/Rules.antt =====
-- backend/src/scanning/sandbox/docker_sandbox.py: the live rules against the policy.
pub mod Lines
pub mod Laws
pub mod Enforced
pub mod Tables
use sentinel_gpt.Common.{
  ℕ, Bool, true, false, not, ◌&&◌, Option, none, some, List, [], ◌∷◌, ◌++◌, map, nat_eq, ◌==◌,
  contains, any_of, all_of, drop, if◌then◌else◌,
}
use sentinel_gpt.Common.Text.{Text, codes, text_eq, starts_with}
use sentinel_gpt.Network.IpAddress.{IpAddress}
use sentinel_gpt.Network.Binding.{SandboxEgressPolicy, allowed_v4, allowed_v6}
use sentinel_gpt.Sandbox.Commands.{Tool, iptables, ip6tables}

pub data Problem : Type 0 where
  policy_not_drop unexpected_accepts missing_accepts : Tool → Problem

-- The characters of `\S+` at the head, and what follows them
module _ (is_space : ℕ → Bool) where
  unfoldable pub token : Text → Text × Text
  token [] = ([], [])
  token (c ∷ s) = let (t, rest) = token s in if is_space c then ([], c ∷ s) else (c ∷ t, rest)

  -- `-d (\S+) -j ACCEPT` at the head
  unfoldable pub dest_here : Text → Option Text
  unfolding token starts_with
  dest_here s =
      let (t, rest) = token (drop 3 s) in
      if starts_with s (codes "-d ") && not (t == []) && starts_with rest (codes " -j ACCEPT")
      then some t
      else none

  -- The last such place, since `.*` takes as much as it can
  unfoldable pub last_dest : Text → Option Text
  unfolding dest_here
  last_dest [] = none
  last_dest (c ∷ s) = elim (last_dest s) [ some d ↦ some d | none ↦ dest_here (c ∷ s) ]

  -- `_ACCEPT_DEST_RE.search(line)`
  unfoldable pub accept_dest : Text → Option Text
  unfolding last_dest starts_with
  accept_dest [] = none
  accept_dest (c ∷ s) =
      let rest = accept_dest s in
      if starts_with (c ∷ s) (codes "-A OUTPUT ") then last_dest (drop 10 (c ∷ s)) else rest

  unfoldable pub accepted_dests : List Text → List Text
  unfolding accept_dest
  accepted_dests [] = []
  accepted_dests (line ∷ dump) =
      let rest = accepted_dests dump in elim (accept_dest line) [ some d ↦ d ∷ rest | none ↦ rest ]

  unfoldable pub problems_of : Tool → List Text → List Text → List Problem
  unfolding text_eq starts_with
  problems_of tool dump expected =
      let accepted = accepted_dests dump in
      (if any_of (λ line. starts_with line (codes "-P OUTPUT DROP")) dump
        then []
        else policy_not_drop tool ∷ [])
      ++ ((if all_of (contains expected) accepted then [] else unexpected_accepts tool ∷ [])
          ++ (if all_of (contains accepted) expected then [] else missing_accepts tool ∷ []))

-- The destinations that the rules are to accept: `{a}/32` and `{a}/128`
unfoldable pub expected_v4 : (IpAddress → Text) → SandboxEgressPolicy → List Text
unfolding allowed_v4
expected_v4 show_ip policy = map (λ a. show_ip a ++ codes "/32") (allowed_v4 policy)

unfoldable pub expected_v6 : (IpAddress → Text) → SandboxEgressPolicy → List Text
unfolding allowed_v6
expected_v6 show_ip policy = map (λ a. show_ip a ++ codes "/128") (allowed_v6 policy)

unfoldable pub compare_against_policy :
    (ℕ → Bool) → (IpAddress → Text) → SandboxEgressPolicy → List Text → List Text → List Problem
unfolding problems_of expected_v4 expected_v6
compare_against_policy is_space show_ip policy v4_dump v6_dump =
    problems_of is_space iptables v4_dump (expected_v4 show_ip policy)
    ++ problems_of is_space ip6tables v6_dump (expected_v6 show_ip policy)
