-- ===== src/Tests/Network.antt =====
-- backend/src/domain/scanning.
use sentinel_gpt.Common.{ℕ, ◌≡◌, refl, none, some, [], ◌∷◌, arith, nat_eq, ◌↔◌}
use sentinel_gpt.Common.Text.{Text}
use sentinel_gpt.Errors.{ok, Returns}
use sentinel_gpt.Action.{Action}
use sentinel_gpt.Network.IpAddress.{v4, classes, ip_eq}
use sentinel_gpt.Network.IpPolicy.{evaluate_ip, evaluate_all}
use sentinel_gpt.Network.IpPolicy.Bounds.{OutsideOf, special_use, IsAllowed, evaluate_ip_v4}
use sentinel_gpt.Network.Binding.{ScanNetworkContext}
use sentinel_gpt.Network.Binding.Laws.{IsValidated, IsSound}
use sentinel_gpt.Network.Resolution.{ResolutionOutcome, resolved, resolve, ensure_still_valid}
use sentinel_gpt.Network.Resolution.Laws.{IsStill, resolve-IsValidated, ensure_still_valid_lem}
use sentinel_gpt.Network.Redirects.{Parsers}
use sentinel_gpt.Tests.Samples.{ascii, no_ip, one_url, public_ip, example_binding, example_host}

public_ip-IsAllowed : IsAllowed public_ip
unfolding evaluate_ip classes nat_eq ip_eq
public_ip-IsAllowed = refl

evaluate_ip_v4_example : (IsAllowed public_ip) ↔ OutsideOf 1572394766 special_use
evaluate_ip_v4_example = evaluate_ip_v4 1572394766 (omega arith)

-- 127.0.0.1 stands second.
loopback_refused :
    evaluate_all (public_ip ∷ v4 2130706433 ∷ []) ≡ some (evaluate_ip (v4 2130706433))
unfolding evaluate_all evaluate_ip classes nat_eq ip_eq
loopback_refused = refl

abbrev example_context : ScanNetworkContext
example_context = record {
  binding = example_binding;
  egress = record { allowed_addresses = public_ip ∷ [] };
}

example_context-IsSound : IsSound example_context
example_context-IsSound = record {
  binding_validated = (public_ip-IsAllowed, tt);
  egress_derived = refl;
}

-- A resolver that answers with one public address, and leaves the world alone
abbrev one_answer : Text → Action ℕ ResolutionOutcome
one_answer name s = (ok (resolved name (public_ip ∷ [])), s)

resolve-IsValidated_example :
    Returns IsValidated (resolve one_answer example_host none none 100 0).0
resolve-IsValidated_example = resolve-IsValidated one_answer example_host none none 100 0

ensure_still_valid_example :
    Returns
      (λ _.
        (outcome : ResolutionOutcome) × ((one_answer example_host 0).0 ≡ ok outcome)
        × IsStill example_binding outcome)
      (ensure_still_valid one_answer example_binding 0).0
ensure_still_valid_example = ensure_still_valid_lem one_answer example_binding 0

abbrev parsers : Parsers
parsers = record { unicode = ascii; urls = one_url; parse_ip = no_ip; clock = 100 }
