-- ===== src/Tests/Targets.antt =====
-- backend/src/domain/targets/target_normalization.py.
use sentinel_gpt.Common.{◌≡◌, refl, false, nat_eq, option_eq, ◌↔◌, ◌⊎◌}
use sentinel_gpt.Common.Text.{codes, text_eq, ends_with, strip}
use sentinel_gpt.Errors.{ok, ◌>>=◌, raise_if}
use sentinel_gpt.Network.IpAddress.{v4}
use sentinel_gpt.Network.IpPolicy.Bounds.{IsAllowed}
use sentinel_gpt.Targets.Normalization.{
  validate_host, normalize_target, is_disallowed_ip, strip_trailing_dot, contains_non_ascii_numeric,
  looks_like_numeric_host, as_ip_literal,
}
use sentinel_gpt.Targets.Urls.{urlunsplit}
use sentinel_gpt.Targets.Normalization.Hosts.{validate_host_idem}
use sentinel_gpt.Targets.Normalization.Accepted.{IsNormalized, normalize_target-IsNormalized}
use sentinel_gpt.Targets.Normalization.Agreement.{IsShared, disallowed_v4_iff}
use sentinel_gpt.Tests.Samples.{ascii, no_ip, one_url, example_host}

example_accepted : validate_host ascii no_ip (codes "example.com.") ≡ ok example_host
unfolding validate_host text_eq nat_eq ◌>>=◌ raise_if strip_trailing_dot contains_non_ascii_numeric
    ends_with looks_like_numeric_host as_ip_literal
example_accepted = refl

example_normalized :
    normalize_target ascii no_ip one_url (codes "Example.com") (codes "https://example.com/")
    ≡ ok (record { hostname = example_host; normalized_url = codes "https://example.com/" })
unfolding normalize_target text_eq nat_eq ◌>>=◌ raise_if strip option_eq validate_host
    strip_trailing_dot contains_non_ascii_numeric ends_with looks_like_numeric_host as_ip_literal
    urlunsplit
example_normalized = refl

validate_host_idem_example : validate_host ascii no_ip example_host ≡ ok example_host
validate_host_idem_example =
    validate_host_idem ascii no_ip (codes "example.com.") example_host example_accepted

normalize_target-IsNormalized_example :
    IsNormalized ascii no_ip one_url
      (record { hostname = example_host; normalized_url = codes "https://example.com/" })
normalize_target-IsNormalized_example =
    normalize_target-IsNormalized ascii no_ip one_url (codes "Example.com")
      (codes "https://example.com/")
      (record { hostname = example_host; normalized_url = codes "https://example.com/" })
      example_normalized

-- 100.64.0.1
disallowed_v4_iff_example :
    ((is_disallowed_ip (v4 1681915905) ≡ false) ↔ (IsAllowed (v4 1681915905) ⊎ IsShared 1681915905))
    × (¬ (IsShared 1681915905 × IsAllowed (v4 1681915905)))
disallowed_v4_iff_example = disallowed_v4_iff 1681915905
