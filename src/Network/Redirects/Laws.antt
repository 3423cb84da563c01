-- ===== src/Network/Redirects/Laws.antt =====
-- A redirect passes the whole gate again.
use sentinel_gpt.Common.{none, nat_eq}
use sentinel_gpt.Common.Text.{Text, text_eq}
use sentinel_gpt.Errors.{Result, Returns, returned, raised}
use sentinel_gpt.Action.{Action}
use sentinel_gpt.Action.Keeps.{Keeps, Keeps-bind, Keeps-lift_self, Keeps-pure, Keeps-if}
use sentinel_gpt.Network.Binding.{ValidatedTargetBinding, ScanNetworkContext, context_of}
use sentinel_gpt.Network.Binding.Laws.{IsValidated, IsSound, context_of-IsSound}
use sentinel_gpt.Network.Resolution.{ResolutionOutcome}
use sentinel_gpt.Network.Resolution.Laws.{Keeps-resolve}
use sentinel_gpt.Network.Redirects.{
  Parsers, folded, resolve_folded, evaluate_absolute, evaluate, is_relative,
}
use sentinel_gpt.Targets.Urls.{SplitResult}

folded_keeps {ℓ} : {A : Type ℓ} {Q : A → Type 0} {r : Result A} → Returns Q r → Returns Q (folded r)
unfolding folded
folded_keeps (returned q) = returned q
folded_keeps raised = raised

module _ {S : Type 0} {P : S → Type 0} (p : Parsers)
    (resolve_all : Text → Action S ResolutionOutcome)
    (keep : (name : Text) (s : S) → P s → P (resolve_all name s).1) where
  resolve_folded-IsValidated :
      (host : Text) → Keeps P IsValidated (resolve_folded p resolve_all host)
  unfolding resolve_folded
  resolve_folded-IsValidated host =
      let k = Keeps-resolve {P = P} resolve_all keep host none none p.clock in
      record { state = k.state; value = λ s h. folded_keeps (k.value s h) }

  evaluate_absolute-Keeps :
      {Q : ScanNetworkContext → Type 0} (parts : SplitResult)
      → ((b : ValidatedTargetBinding) → IsValidated b → Q (context_of b))
      → Keeps P Q (evaluate_absolute p resolve_all parts)
  unfolding evaluate_absolute
  evaluate_absolute-Keeps parts made = Keeps-bind _ _ (Keeps-lift_self _) λ _ _.
      Keeps-bind _ _ (Keeps-lift_self _) λ _ _.
        Keeps-bind _ _ (Keeps-lift_self _)
          λ _ _. Keeps-bind _ _ (resolve_folded-IsValidated _) λ b h. Keeps-pure _ (made b h)

  pub evaluate-Keeps :
      {Q : ScanNetworkContext → Type 0} (current : ScanNetworkContext) (location : Text)
      → Q current
      → ((b : ValidatedTargetBinding) → IsValidated b → Q (context_of b))
      → Keeps P Q (evaluate p resolve_all current location)
  unfolding evaluate
  evaluate-Keeps current location h made = Keeps-bind _ _ (Keeps-lift_self _) λ parts _.
      Keeps-if (is_relative parts) _ _ (λ _. Keeps-pure _ h)
        (λ _. evaluate_absolute-Keeps parts made)

-- A redirect leads only to a context that is sound: the current one, for a relative location, or one
-- made from a new binding whose addresses are all public. For every location, and whatever the
-- resolver answers.
evaluate-IsSound :
    {S : Type 0} (p : Parsers) (resolve_all : Text → Action S ResolutionOutcome)
    (current : ScanNetworkContext) (location : Text) (s : S)
    → IsSound current
    → Returns IsSound (evaluate p resolve_all current location s).0
evaluate-IsSound p resolve_all current location s h =
    (evaluate-Keeps {P = λ _. Unit} p resolve_all (λ _ _ _. tt) current location h
        context_of-IsSound).value
      s tt
