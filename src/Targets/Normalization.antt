-- ===== src/Targets/Normalization.antt =====
-- backend/src/domain/targets/target_normalization.py: the gate that every user-supplied target
-- passes. `u` carries the Unicode tables, `urls` the URL splitter, and `parse_ip` is
-- `ipaddress.ip_address` on a text (`none` where it raises `ValueError`).
pub mod Accepted
pub mod Hosts
pub mod Agreement
use mathlib.Core.Option
use sentinel_gpt.Common.{
  ℕ, suc, zero, ◌+◌, ◌-◌, ◌*◌, ◌^◌, Bool, true, false, not, ◌&&◌, ◌||◌, Option, none, some, List,
  [], ◌∷◌, ◌++◌, ◌==◌, contains, if◌then◌else◌, leb, ltb, length, take, any_of, all_of, nat_eq,
  option_eq,
}
use sentinel_gpt.Common.Text.{
  Text, codes, text_eq, Unicode, starts_with, ends_with, strip, rstrip, split,
}
use sentinel_gpt.Errors.{Error, Result, ok, err, invalid_target, raise_if, ◌>>=◌, ◌>>◌}
use sentinel_gpt.Network.IpAddress.{IpAddress, v4, v6, classes}
use sentinel_gpt.Targets.Urls.{SplitResult, UrlLib, or_text, text_or_empty, show, urlunsplit}

abbrev pub max_hostname_length : ℕ
max_hostname_length = 255

abbrev pub max_normalized_url_length : ℕ
max_normalized_url_length = 500

abbrev pub allowed_schemes : List Text
allowed_schemes = codes "http" ∷ codes "https" ∷ []

abbrev pub metadata_name_blocklist : List Text
metadata_name_blocklist = codes "metadata.google.internal" ∷ codes "metadata.goog" ∷ []

abbrev pub private_name_suffixes : List Text
private_name_suffixes =
    codes ".internal"
    ∷ codes ".local"
    ∷ codes ".localhost"
    ∷ codes ".localdomain"
    ∷ codes ".home.arpa"
    ∷ codes ".lan"
    ∷ []

abbrev is_ascii_digit : ℕ → Bool
is_ascii_digit c = leb b'0' c && leb c b'9'

is_ascii_digits : Text → Bool
unfolding text_eq
is_ascii_digits text = not (text == []) && all_of is_ascii_digit text

pub record NormalizedTarget : Type 0 where
  pub hostname : Text
  pub normalized_url : Text

-- `if refused: _reject(message)`; the messages are not kept.
abbrev pub reject_if : Bool → Result (Unit {0})
reject_if b = raise_if b invalid_target

-- `int(text)` for ASCII digits
decimal_value : ℕ → Text → ℕ
decimal_value acc [] = acc
decimal_value acc (c ∷ s) = decimal_value (acc * 10 + (c - b'0')) s

abbrev hex_digit : ℕ → Option ℕ
hex_digit c =
    if leb b'0' c && leb c b'9'
    then some (c - b'0')
    else if leb b'a' c && leb c b'f'
    then some (c - b'a' + 10)
    else if leb b'A' c && leb c b'F'
    then some (c - b'A' + 10)
    else none

-- `int(text, 16)` behind the prefix `0x`: hexadecimal digits, each with at most one `_` before it.
-- The flag says that a `_` may follow.
hex_value : Bool → ℕ → Text → Option ℕ
unfolding nat_eq
hex_value may acc [] = if may then some acc else none
hex_value may acc (c ∷ s) = elim (hex_digit c) [
  | some d ↦ hex_value true (acc * 16 + d) s
  | none ↦ let rest = hex_value false acc s in if may && c == b'_' then rest else none
]

-- The same with at least one character behind the prefix.
hex_literal : Text → Option ℕ
unfolding hex_value
hex_literal [] = none
hex_literal (c ∷ s) = hex_value true 0 (c ∷ s)

-- `ipaddress.ip_address(n)` on an integer
abbrev ip_of_int : ℕ → Option IpAddress
ip_of_int n = if ltb n (2 ^ 32) then some (v4 n) else if ltb n (2 ^ 128) then some (v6 n) else none

abbrev drop_prefix : ℕ → Text → Text
drop_prefix zero s = s
drop_prefix (suc n) [] = []
drop_prefix (suc n) (c ∷ s) = drop_prefix n s

unfoldable pub is_disallowed_ip : IpAddress → Bool
is_disallowed_ip a =
    let c = classes a in
    c.is_private
    || (c.is_loopback
        || (c.is_link_local || (c.is_reserved || (c.is_multicast || c.is_unspecified))))

unfoldable pub strip_trailing_dot : Text → Text
unfolding rstrip
strip_trailing_dot host = rstrip (λ c. c == b'.') host

abbrev is_hex_digit : ℕ → Bool
is_hex_digit c = elim (hex_digit c) [ some _ ↦ true | none ↦ false ]

is_numeric_label : Text → Bool
unfolding is_ascii_digits hex_digit text_eq
is_numeric_label label =
    is_ascii_digits label
    || (ltb 2 (length label)
        && (contains (codes "0x" ∷ codes "0X" ∷ []) (take 2 label)
            && all_of is_hex_digit (drop_prefix 2 label)))

unfoldable pub looks_like_numeric_host : Text → Bool
unfolding is_numeric_label split
looks_like_numeric_host host = all_of is_numeric_label (split b'.' host)

-- Of a label: decimal digits, no leading zero, at most 255.
is_canonical_octet : Text → Bool
unfolding is_ascii_digits decimal_value text_eq
is_canonical_octet label =
    is_ascii_digits label
    && (not (ltb 1 (length label) && take 1 label == codes "0") && leb (decimal_value 0 label) 255)

unfoldable pub is_canonical_dotted_quad : Text → Bool
unfolding is_canonical_octet split nat_eq
is_canonical_dotted_quad host =
    let labels = split b'.' host in length labels == 4 && all_of is_canonical_octet labels

-- `except ValueError: raise InvalidTargetError`
abbrev as_invalid_target {ℓ} : {A : Type ℓ} → Result A → Result A
as_invalid_target (ok a) = ok a
as_invalid_target (err _) = err invalid_target

-- The host in brackets if it is an IPv6 address, and an explicit port.
abbrev netloc_of : Text → Option ℕ → Text
netloc_of host port =
    let display_host = if contains host b':' then codes "[" ++ (host ++ codes "]") else host in
    elim port [ none ↦ display_host | some p ↦ display_host ++ (codes ":" ++ show p) ]

module _ (u : Unicode) where
  unfoldable pub contains_non_ascii_numeric : Text → Bool
  contains_non_ascii_numeric host = any_of (λ c. u.is_digit c && ltb 127 c) host

module _ (u : Unicode) (parse_ip : Text → Option IpAddress) where
  -- `host.strip("[]")`
  abbrev pub strip_brackets : Text → Text
  strip_brackets host = strip (λ c. c == b'[' || c == b']') host

  unfoldable pub as_ip_literal : Text → Option IpAddress
  unfolding is_ascii_digits decimal_value hex_literal starts_with strip
  as_ip_literal host =
      let candidate = strip_brackets host in
      elim (parse_ip candidate) [
        | some ip ↦ some ip
        | none ↦
            if is_ascii_digits candidate
            then ip_of_int (decimal_value 0 candidate)
            else if starts_with (u.lower candidate) (codes "0x") && ltb 2 (length candidate)
            then Option.bind (hex_literal (drop_prefix 2 (rstrip u.is_space candidate))) ip_of_int
            else none
      ]

  abbrev pub is_disallowed_literal : Option IpAddress → Bool
  is_disallowed_literal none = false
  is_disallowed_literal (some ip) = is_disallowed_ip ip

  -- The guards of `_validate_host` on the host without its trailing dots.
  check_host : Text → Result Text
  check_host host = do
    reject_if (host == [])
    reject_if (contains_non_ascii_numeric u host)
    reject_if (host == codes "localhost" || ends_with host (codes ".localhost"))
    reject_if
        (contains metadata_name_blocklist host || any_of (ends_with host) private_name_suffixes)
    reject_if (looks_like_numeric_host host && not (is_canonical_dotted_quad host))
    reject_if (is_disallowed_literal (as_ip_literal host))
    ok host

  unfoldable pub validate_host : Text → Result Text
  unfolding check_host
  validate_host host = check_host (strip_trailing_dot host)

  module _ (urls : UrlLib) where
    unfoldable pub normalize_target : Text → Text → Result NormalizedTarget
    normalize_target hostname_raw url_raw = do
      let hostname = strip u.is_space hostname_raw
      let url = strip u.is_space url_raw
      reject_if (hostname == [] || ltb max_hostname_length (length hostname))
      reject_if (url == [])
      parts ← as_invalid_target (urls.urlsplit url)
      let scheme = u.lower parts.scheme
      reject_if (not (contains allowed_schemes scheme))
      reject_if (not (parts.username == none) || not (parts.password == none))
      port ← as_invalid_target parts.port
      host ← validate_host (text_or_empty parts.hostname)
      reject_if (ltb max_hostname_length (length host))
      reject_if
          (not (host == strip_trailing_dot (strip_brackets (u.lower (strip u.is_space hostname)))))
      let normalized_url =
          urlunsplit scheme (netloc_of host port) (or_text parts.path (codes "/")) parts.query
      reject_if (ltb max_normalized_url_length (length normalized_url))
      ok (record { hostname = host; normalized_url = normalized_url })
