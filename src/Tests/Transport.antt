-- ===== src/Tests/Transport.antt =====
-- backend/src/scanning/sandbox/http_transport.py: an exchange over one redirect.
use sentinel_gpt.Common.{
  ◌≡◌, ◌≤◌, ◌+◌, refl, true, false, none, List, [], ◌∷◌, nat_eq, All, length, ◌==◌, if◌then◌else◌,
}
use sentinel_gpt.Common.Text.{Text, codes, text_eq}
use sentinel_gpt.Errors.{ok, err, Returns, value_error}
use sentinel_gpt.Network.IpAddress.{ip_eq, classes}
use sentinel_gpt.Network.IpPolicy.{evaluate_ip}
use sentinel_gpt.Network.IpPolicy.Bounds.{IsAllowed}
use sentinel_gpt.Network.Binding.Laws.{IsSound}
use sentinel_gpt.Network.Resolution.{resolved}
use sentinel_gpt.Network.Contract.{HttpScanRequest, default_limits}
use sentinel_gpt.Network.Transport.{Runtime, Traffic, Payload}
use sentinel_gpt.Network.Transport.Hops.{execute}
use sentinel_gpt.Network.Transport.Hops.Authorized.{IsAuthorized, execute-AllAuthorized}
use sentinel_gpt.Network.Transport.Hops.Limits.{IsHttps, execute-IsHttps}
use sentinel_gpt.Network.Transport.Hops.Budget.{execute-length}
use sentinel_gpt.Network.Transport.Hops.Locations.{IsDistinct, execute-IsDistinct}
use sentinel_gpt.Tests.Samples.{ascii, no_ip, one_url, public_ip, example_binding, example_host}

-- The first request is redirected to https://example.com/, and the second one answered.
abbrev redirected : Payload
redirected = record {
  status = 301;
  headers = (codes "Location", codes "https://example.com/") ∷ [];
  body = [];
  elapsed_ms = 1;
  truncated = false;
}

abbrev answered : Payload
answered = record { status = 200; headers = []; body = []; elapsed_ms = 1; truncated = false }

abbrev answer_line : List HttpScanRequest → Text
answer_line [] = codes "SGPT/1 r"
answer_line (r ∷ rs) = codes "SGPT/1 a"

abbrev payload_of : Text → Payload
payload_of [] = answered
payload_of (c ∷ s) = if c == b'r' then redirected else answered

abbrev runtime : Runtime
runtime = record {
  parsers = record { unicode = ascii; urls = one_url; parse_ip = no_ip; clock = 100 };
  established = true;
  show_ip = λ a. codes "93.184.215.14";
  spec_size = λ s. 100;
  run = λ sent s. ok (answer_line sent ∷ []);
  load_payload = λ s. ok (payload_of s);
  load_failure = λ s. err value_error;
  cancelled = λ n. false;
  lookup = λ t name. ok (resolved name (public_ip ∷ []));
}

abbrev request : HttpScanRequest
request = record {
  context = record {
    binding = example_binding;
    egress = record { allowed_addresses = public_ip ∷ [] };
  };
  spec = record { method = codes "GET"; path = codes "/start"; headers = []; body = none };
  target = record {
    address = public_ip;
    port = 443;
    scheme = codes "https";
    hostname = example_host;
  };
}

abbrev silent : Traffic
silent = record { sent = []; lookups = [] }

public_ip-IsAllowed : IsAllowed public_ip
unfolding evaluate_ip classes nat_eq ip_eq
public_ip-IsAllowed = refl

request-IsSound : IsSound request.context
request-IsSound = record { binding_validated = (public_ip-IsAllowed, tt); egress_derived = refl }

execute-AllAuthorized_example :
    All IsAuthorized (execute runtime request default_limits silent).1.sent
execute-AllAuthorized_example =
    execute-AllAuthorized runtime request default_limits silent request-IsSound tt

https_lower : ascii.lower (codes "https") ≡ codes "https"
https_lower = refl

execute-IsHttps_example : All IsHttps (execute runtime request default_limits silent).1.sent
execute-IsHttps_example = execute-IsHttps runtime https_lower request default_limits silent refl tt

execute-length_example : length (execute runtime request default_limits silent).1.sent ≤ 0 + 11
execute-length_example = execute-length runtime request default_limits silent

execute-IsDistinct_example :
    Returns
      (λ response. IsDistinct response.via_redirects × (length response.via_redirects ≤ 10))
      (execute runtime request default_limits silent).0
execute-IsDistinct_example = execute-IsDistinct runtime request default_limits silent
