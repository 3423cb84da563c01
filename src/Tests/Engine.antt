-- ===== src/Tests/Engine.antt =====
-- backend/src/scanning/engines/http_analysis.py over one response.
use sentinel_gpt.Common.{ℕ, ◌≡◌, refl, false, some, [], ◌∷◌, leb, map, nat_eq, suc}
use sentinel_gpt.Common.Text.{Text, codes, text_eq}
use sentinel_gpt.Errors.{ok, Returns}
use sentinel_gpt.Network.Binding.{ScanNetworkContext}
use sentinel_gpt.Network.Contract.{HttpResponseData, default_limits}
use sentinel_gpt.Sandbox.Services.{default_origin, EngineServices}
use sentinel_gpt.Engine.Findings.{Tables, both, create_finding}
use sentinel_gpt.Engine.Cookies.{
  assess_cookies, assess_read, missing, lacking, samesite_gaps, samesite_issues, samesite_issue,
}
use sentinel_gpt.Engine.Analysis.{HttpClient, answered, assess, run_engine}
use sentinel_gpt.Engine.Bounded.{AreBounded, run_engine-Bounded}
use sentinel_gpt.Engine.Traced.{AreTraced, run_engine-AreTraced}
use sentinel_gpt.Engine.Cuts.{cookie_text}
use sentinel_gpt.Engine.Secrets.{SameButValues, no_header, other_value, assess-secret}
use sentinel_gpt.Tests.Samples.{ascii, example_host, example_binding, public_ip}

abbrev pub tables : Tables
tables = record {
  unicode = ascii;
  is_printable = λ c. leb 32 c;
  digest = λ t. t;
  dumps = λ e. e.scheme;
}

abbrev with_cookie : Text → HttpResponseData
with_cookie secret = record {
  status = 200;
  headers = (codes "Set-Cookie", cookie_text (codes "sid") secret (some (codes " HttpOnly"))) ∷ [];
  body = [];
  elapsed_ms = 1;
  final_target = record {
    address = public_ip;
    port = 443;
    scheme = codes "https";
    hostname = example_host;
  };
  via_redirects = [];
  truncated = false;
}

abbrev context : ScanNetworkContext
context = record {
  binding = example_binding;
  egress = record { allowed_addresses = public_ip ∷ [] };
}

-- One cookie that lacks Secure and SameSite
two_gaps :
    map (λ f. f.title) (assess_cookies tables (codes "x") (with_cookie (codes "s3cret"))).findings
    ≡ codes "Cookies without the Secure attribute"
      ∷ codes "SameSite attribute missing or invalid"
      ∷ []
unfolding assess_cookies assess_read both missing lacking create_finding samesite_gaps
    samesite_issues samesite_issue
two_gaps = refl

abbrev services : EngineServices
services = record {
  is_cancelled = false;
  limits = default_limits;
  origin = default_origin;
  context = context;
}

-- The world is the number of requests made.
abbrev client : HttpClient ℕ
client request limits is_cancelled n = (ok (answered (with_cookie (codes "s3cret"))), suc n)

run_engine-Bounded_example :
    Returns
      (λ r. AreBounded r.observations r.findings)
      (run_engine tables client context services 0).0
run_engine-Bounded_example = run_engine-Bounded tables client context services 0

run_engine-AreTraced_example :
    Returns
      (λ r. AreTraced r.observations r.findings)
      (run_engine tables client context services 0).0
run_engine-AreTraced_example = run_engine-AreTraced tables client context services 0

other_cookie :
    SameButValues tables
      (with_cookie (codes "s3cret")).headers
      (with_cookie (codes "other")).headers
unfolding nat_eq
other_cookie =
    other_value (codes "Set-Cookie") (codes "sid") (codes "s3cret") (codes "other")
      (some (codes " HttpOnly")) refl refl refl refl refl no_header

blank : ascii.is_space b'=' ≡ false
unfolding nat_eq
blank = refl

assess-secret_example :
    assess tables context default_origin (with_cookie (codes "s3cret"))
    ≡ assess tables context default_origin (with_cookie (codes "other"))
assess-secret_example =
    assess-secret tables blank context default_origin (with_cookie (codes "s3cret"))
      (with_cookie (codes "other")).headers other_cookie
