-- ===== src/Network/Transport/Hops/Rules.antt =====
-- What holds of every request that is sent: the rules for one hop, one turn and the loop.
use sentinel_gpt.Common.{
  ◌≡◌, Option, List, true, false, contains, [], All, ℕ, zero, suc, true_of_not, ltb,
}
use sentinel_gpt.Common.Text.{Text, text_eq}
use sentinel_gpt.Errors.{ok, Returns, Returns-any, value_error}
use sentinel_gpt.Action.{Action, raise}
use sentinel_gpt.Action.Keeps.{
  Keeps, Keeps-bind, Keeps-lift, Keeps-lift_self, Keeps-pure, Keeps-raise, Keeps-if,
  Keeps-refuse_if, Keeps-asks,
}
use sentinel_gpt.Network.IpAddress.{ip_eq}
use sentinel_gpt.Network.Binding.{ValidatedTargetBinding, ScanNetworkContext, context_of}
use sentinel_gpt.Network.Binding.Laws.{IsValidated}
use sentinel_gpt.Network.Contract.{
  ConnectionTarget, HttpLimits, HttpRequestSpec, HttpScanRequest, HttpResponseData, for_context,
  allowed_http_schemes,
}
use sentinel_gpt.Network.Redirects.{is_relative}
use sentinel_gpt.Targets.Urls.{SplitResult}
use sentinel_gpt.Network.Redirects.Laws.{evaluate-Keeps}
use sentinel_gpt.Network.Transport.{
  Runtime, Traffic, pin_context, authorize_or_refuse, exchange, run_in_sandbox, resolve_all,
}
use sentinel_gpt.Network.Transport.Hops.{
  Turn, done, moved, relative_hop, absolute_hop, next_hop, downgrades, turn, stop_at, follow_turn,
  hop_loop, execute,
}

module _ (rt : Runtime) {P : Traffic → Type 0}
    (keep : (name : Text) (t : Traffic) → P t → P (resolve_all rt name t).1)
    (current : HttpScanRequest) (location : Text) {C : ScanNetworkContext → Type 0}
    {Q : HttpScanRequest → Type 0} (here : C current.context)
    (made : (b : ValidatedTargetBinding) → IsValidated b → C (context_of b))
    (pinned : (c : ScanNetworkContext) → C c → Returns C (pin_context c))
    (same : (spec : HttpRequestSpec)
      → Returns Q (authorize_or_refuse current.context spec current.target))
    (other : (c : ScanNetworkContext) (spec : HttpRequestSpec) (scheme : Text) (port : Option ℕ)
        (target : ConnectionTarget)
      → C c
      → contains allowed_http_schemes scheme ≡ true
      → downgrades rt current scheme ≡ false
      → for_context rt.parsers.unicode c scheme port ≡ ok target
      → Returns Q (authorize_or_refuse c spec target)) where
  relative_hop-Keeps : Keeps P Q (relative_hop rt current location)
  unfolding relative_hop
  relative_hop-Keeps = Keeps-bind _ _ (Keeps-lift_self _) λ spec _. Keeps-lift _ (same spec)

  absolute_hop-Keeps : (parts : SplitResult) → Keeps P Q (absolute_hop rt current location parts)
  unfolding absolute_hop
  absolute_hop-Keeps parts = Keeps-bind _ _ (Keeps-refuse_if _ _) λ _ known.
      Keeps-bind _ _ (Keeps-refuse_if _ _) λ _ upward. Keeps-bind _ _ (Keeps-lift_self _) λ port _.
        Keeps-bind _ _
          (evaluate-Keeps rt.parsers (resolve_all rt) keep current.context location here made)
          λ c h. Keeps-bind _ _ (Keeps-lift _ (pinned c h)) λ c' h'.
            Keeps-bind _ _ (Keeps-lift_self _) λ target e.
              Keeps-bind _ _ (Keeps-lift_self _) λ spec _.
                Keeps-lift _ (other c' spec _ port target h' (true_of_not _ known) upward e)

  -- A hop stays on the current context and destination, or takes those that passed the checks: it
  -- satisfies what both do.
  pub next_hop-Keeps : Keeps P Q (next_hop rt current location)
  unfolding next_hop
  next_hop-Keeps = Keeps-bind _ _ (Keeps-lift_self _) λ parts _.
      Keeps-if (is_relative parts) _ _ (λ _. relative_hop-Keeps) (λ _. absolute_hop-Keeps parts)

module _ (rt : Runtime) {Q : HttpScanRequest → Type 0} where
  exchange-Keeps :
      (request : HttpScanRequest) (limits : HttpLimits)
      → Q request
      → Keeps (λ t. All Q t.sent) (λ _. Unit) (exchange rt request limits)
  unfolding exchange run_in_sandbox
  exchange-Keeps request limits q =
      Keeps-if (ltb 65536 (rt.spec_size _)) (raise value_error) _ (λ _. Keeps-raise _)
        λ _.
          Keeps-bind {Q = λ _. Unit} _ _
            (record { state = λ t h. (q, h); value = λ t h. Returns-any _ })
            λ lines _. Keeps-lift _ (Returns-any _)

  turn-Keeps :
      (current : HttpScanRequest) (limits : HttpLimits) (via : List Text)
      → Q current
      → Keeps (λ t. All Q t.sent) (λ _. Unit) (turn rt current limits via)
  unfolding turn
  turn-Keeps current limits via q = Keeps-bind _ _ (Keeps-asks _) λ flagged _.
      Keeps-bind _ _ (Keeps-lift_self _) λ _ _.
        Keeps-bind _ _ (exchange-Keeps current limits q) λ response _. Keeps-lift _ (Returns-any _)

  module _
      (hop : (current : HttpScanRequest) (location : Text)
        → Q current
        → Keeps (λ t. All Q t.sent) Q (next_hop rt current location)) where
    follow_turn-Keeps :
        (current : HttpScanRequest) (via : List Text)
        (loop : HttpScanRequest → List Text → Action Traffic HttpResponseData) (next : Turn)
        → Q current
        → ((request : HttpScanRequest) (passed : List Text)
            → Q request
            → Keeps (λ t. All Q t.sent) (λ _. Unit) (loop request passed))
        → Keeps (λ t. All Q t.sent) (λ _. Unit) (follow_turn rt current via loop next)
    unfolding follow_turn
    follow_turn-Keeps current via loop (done response) q k = Keeps-pure _ tt
    follow_turn-Keeps current via loop (moved location) q k =
        Keeps-bind _ _ (hop current location q) λ request r. k request _ r

    stop_at-Keeps : (next : Turn) → Keeps (λ t. All Q t.sent) (λ _. Unit) (stop_at rt next)
    unfolding stop_at
    stop_at-Keeps (done response) = Keeps-pure _ tt
    stop_at-Keeps (moved location) = Keeps-raise _

    hop_loop-Keeps :
        (remaining : ℕ) (current : HttpScanRequest) (limits : HttpLimits) (via : List Text)
        → Q current
        → Keeps (λ t. All Q t.sent) (λ _. Unit) (hop_loop rt remaining current limits via)
    unfolding hop_loop
    hop_loop-Keeps zero current limits via q =
        Keeps-bind _ _ (turn-Keeps current limits via q) λ next _. stop_at-Keeps next
    hop_loop-Keeps (suc remaining) current limits via q =
        Keeps-bind _ _ (turn-Keeps current limits via q) λ next _.
          follow_turn-Keeps current via _ next q
            λ request passed r. hop_loop-Keeps remaining request limits passed r

  -- What holds of the first request, and of the next one whenever it holds of the current one, holds
  -- of all that are sent.
  pub execute-Keeps :
      (request : HttpScanRequest) (limits : HttpLimits)
      → Returns Q (authorize_or_refuse request.context request.spec request.target)
      → ((current : HttpScanRequest) (location : Text)
          → Q current
          → Keeps (λ t. All Q t.sent) Q (next_hop rt current location))
      → Keeps (λ t. All Q t.sent) (λ _. Unit) (execute rt request limits)
  unfolding execute
  execute-Keeps request limits first hop = Keeps-bind _ _ (Keeps-refuse_if _ _) λ _ _.
      Keeps-bind _ _ (Keeps-lift _ first)
        λ current q. hop_loop-Keeps hop limits.max_redirects current limits [] q
