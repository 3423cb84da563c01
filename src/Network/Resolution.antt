-- ===== src/Network/Resolution.antt =====
-- backend/src/domain/scanning/resolver.py and resolution.py: from a name to a validated binding, at
-- scan time. The resolver is given, as an action on the world `S` that it asks.
pub mod Laws
use sentinel_gpt.Common.{
  ℕ, Bool, true, false, not, ◌&&◌, ◌||◌, Option, none, some, List, contains, all_of, if◌then◌else◌,
}
use sentinel_gpt.Common.Text.{Text}
use sentinel_gpt.Errors.{
  Error, Result, ok, err, raise_if, target_unresolved, target_resolution_blocked,
  dns_rebinding_detected,
}
use sentinel_gpt.Action.{Action, pure, raise, lift, ◌>>=◌, ◌>>◌}
use sentinel_gpt.Network.IpAddress.{IpAddress, ip_eq}
use sentinel_gpt.Network.IpPolicy.{PolicyVerdict, evaluate_all}
use sentinel_gpt.Network.Binding.{ValidatedTargetBinding, create, is_some}

pub data ResolutionFailureKind : Type 0 where
  name_not_found no_records transient_error : ResolutionFailureKind

-- `ResolutionSuccess | ResolutionFailure`; the detail for logs is not kept.
pub data ResolutionOutcome : Type 0 where
  resolved : Text → List IpAddress → ResolutionOutcome
  unresolved : Text → ResolutionFailureKind → ResolutionOutcome

-- `frozenset(xs) == frozenset(ys)`
unfoldable pub same_set : List IpAddress → List IpAddress → Bool
same_set xs ys = all_of (contains ys) xs && all_of (contains xs) ys

unfoldable pub policy_validate : List IpAddress → Result (Option PolicyVerdict)
policy_validate addresses =
    if is_some (evaluate_all addresses) then err target_resolution_blocked else ok none

quietly : Result ResolutionOutcome → Result ResolutionOutcome
quietly (ok outcome) = ok outcome
quietly (err e) = err target_unresolved

module _ {S : Type 0} (resolve_all : Text → Action S ResolutionOutcome) where
  -- Every exception of the resolver becomes `TargetUnresolvedError`.
  resolve_quietly : Text → Action S ResolutionOutcome
  unfolding quietly
  resolve_quietly hostname s = let (r, s') = resolve_all hostname s in (quietly r, s')

  bind_outcome : Option ℕ → Option ℕ → ℕ → ResolutionOutcome → Result ValidatedTargetBinding
  bind_outcome target_id now clock (unresolved _ _) = err target_unresolved
  bind_outcome target_id now clock (resolved hostname addresses) =
      if is_some (evaluate_all addresses)
      then err target_resolution_blocked
      else create hostname addresses policy_validate now target_id clock

  unfoldable pub resolve : Text → Option ℕ → Option ℕ → ℕ → Action S ValidatedTargetBinding
  unfolding resolve_quietly bind_outcome
  resolve hostname target_id now clock = do
    outcome ← resolve_quietly hostname
    lift (bind_outcome target_id now clock outcome)

  still_valid : ValidatedTargetBinding → ResolutionOutcome → Result (Unit {0})
  unfolding same_set
  still_valid binding (unresolved _ _) = err target_unresolved
  still_valid binding (resolved _ addresses) =
      if not (same_set addresses binding.addresses)
      then err dns_rebinding_detected
      else if is_some (evaluate_all addresses)
      then err dns_rebinding_detected
      else ok tt

  pub ensure_still_valid : ValidatedTargetBinding → Action S (Unit {0})
  ensure_still_valid binding = do
    outcome ← resolve_quietly binding.hostname
    lift (still_valid binding outcome)
