-- ===== src/Tests/Samples.antt =====
-- Small stand-ins for what the model is given: ASCII tables, a splitter that knows one URL, and a
-- resolver and a sandbox with fixed answers.
use sentinel_gpt.Common.{
  ℕ, ◌+◌, ◌-◌, ◌&&◌, Option, none, some, [], ◌∷◌, map, ◌==◌, leb, if◌then◌else◌, nat_eq,
}
use sentinel_gpt.Common.Text.{Text, codes, text_eq, Unicode}
use sentinel_gpt.Errors.{ok}
use sentinel_gpt.Network.IpAddress.{IpAddress, v4}
use sentinel_gpt.Network.Binding.{ValidatedTargetBinding}
use sentinel_gpt.Targets.Urls.{SplitResult, UrlLib}

abbrev lower_char : ℕ → ℕ
lower_char c = if leb b'A' c && leb c b'Z' then c + 32 else c

abbrev upper_char : ℕ → ℕ
upper_char c = if leb b'a' c && leb c b'z' then c - 32 else c

abbrev pub ascii : Unicode
ascii = record {
  lower = map lower_char;
  upper = map upper_char;
  is_space = λ c. c == 32;
  is_digit = λ c. leb b'0' c && leb c b'9';
}

abbrev pub no_ip : Text → Option IpAddress
no_ip s = none

abbrev pub example_host : Text
example_host = codes "example.com"

abbrev pub example_parts : SplitResult
example_parts = record {
  scheme = codes "https";
  netloc = example_host;
  path = codes "/";
  query = [];
  username = none;
  password = none;
  hostname = some example_host;
  port = ok none;
}

abbrev pub one_url : UrlLib
one_url = record { urlsplit = λ s. ok example_parts; urljoin = λ base s. s }

-- 93.184.215.14
abbrev pub public_ip : IpAddress
public_ip = v4 1572394766

abbrev pub example_binding : ValidatedTargetBinding
example_binding = record {
  hostname = example_host;
  addresses = public_ip ∷ [];
  validated_at = 100;
  target_id = none;
  pinned_address = some public_ip;
}
