-- ===== src/Network/Redirects.antt =====
-- backend/src/domain/scanning/redirects.py: a redirect destination passes the whole gate again.
pub mod Laws
use sentinel_gpt.Common.{
  ℕ, Bool, true, false, ◌&&◌, ◌||◌, not, Option, none, some, List, [], ◌∷◌, ◌++◌, ◌==◌, nat_eq,
  contains, if◌then◌else◌,
}
use sentinel_gpt.Common.Text.{Text, codes, text_eq, Unicode, rstrip}
use sentinel_gpt.Errors.{Error, Result, ok, err, raise_if, redirect_destination_blocked}
use sentinel_gpt.Action.{Action, pure, raise, lift, ◌>>=◌, ◌>>◌}
use sentinel_gpt.Network.IpAddress.{IpAddress}
use sentinel_gpt.Network.Binding.{ValidatedTargetBinding, ScanNetworkContext, context_of}
use sentinel_gpt.Network.Resolution.{ResolutionOutcome, resolve}
use sentinel_gpt.Targets.Urls.{SplitResult, UrlLib, text_or_empty}
use sentinel_gpt.Targets.Normalization.{NormalizedTarget, normalize_target}

abbrev pub allowed_redirect_schemes : List Text
allowed_redirect_schemes = codes "http" ∷ codes "https" ∷ []

-- What the redirect policy is given: the tables and parsers, and the clock.
pub record Parsers : Type 0 where
  pub unicode : Unicode
  pub urls : UrlLib
  pub parse_ip : Text → Option IpAddress
  pub clock : ℕ

is_err {ℓ} : {A : Type ℓ} → Result A → Bool
is_err (ok a) = false
is_err (err e) = true

module _ (p : Parsers) where
  -- `normalize_target` raises nothing but `InvalidTargetError`.
  unfoldable pub is_prohibited_name : Text → Bool
  unfolding is_err
  is_prohibited_name host =
      is_err (
        normalize_target p.unicode p.parse_ip p.urls host (codes "https://" ++ (host ++ codes "/")))

-- `not parts.scheme and not parts.netloc`
unfoldable pub is_relative : SplitResult → Bool
unfolding text_eq
is_relative parts = parts.scheme == [] && parts.netloc == []

-- Both failures of the resolution become `RedirectDestinationBlockedError`; others pass.
fold_failure : Error → Error
fold_failure Error.target_unresolved = redirect_destination_blocked
fold_failure Error.target_resolution_blocked = redirect_destination_blocked
fold_failure Error.dns_rebinding_detected = redirect_destination_blocked
fold_failure e = e

folded {ℓ} : {A : Type ℓ} → Result A → Result A
folded (ok a) = ok a
folded (err e) = err (fold_failure e)

module _ (p : Parsers) {S : Type 0} (resolve_all : Text → Action S ResolutionOutcome) where
  -- The resolution, with its failures folded.
  resolve_folded : Text → Action S ValidatedTargetBinding
  resolve_folded host s =
      let (r, s') = resolve resolve_all host none none p.clock s in (folded r, s')

  evaluate_absolute : SplitResult → Action S ScanNetworkContext
  evaluate_absolute parts = do
    lift (
        raise_if (not (contains allowed_redirect_schemes (p.unicode.lower parts.scheme)))
          redirect_destination_blocked)
    let host = rstrip (λ c. c == b'.') (text_or_empty parts.hostname)
    lift (raise_if (host == []) redirect_destination_blocked)
    lift (raise_if (is_prohibited_name p host) redirect_destination_blocked)
    binding ← resolve_folded host
    pure (context_of binding)

  pub evaluate : ScanNetworkContext → Text → Action S ScanNetworkContext
  evaluate current_context location = do
    parts ← lift (p.urls.urlsplit location)
    if is_relative parts then pure current_context else evaluate_absolute parts
