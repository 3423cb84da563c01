-- ===== src/Network/Resolution/Laws.antt =====
-- Scan-time resolution returns validated bindings only, and notices every change.
use sentinel_gpt.Common.{
  ◌≡◌, refl, ℕ, [], ◌∷◌, all_of, Bool-eq_of_iff, Bool-cases, inl, inr, true, false, not, Option,
  none, List, contains, All, arith, true_of_not,
}
use sentinel_gpt.Common.Text.{Text}
use sentinel_gpt.Errors.{
  Result, ok, err, Returns, returned, raised, Returns-elim, Returns-imp, Returns-if, Returns-any,
  target_resolution_blocked, dns_rebinding_detected,
}
use sentinel_gpt.Action.{Action, lift, proceed, ◌>>=◌}
use sentinel_gpt.Action.Keeps.{Keeps, Keeps-bind, Keeps-lift}
use sentinel_gpt.Network.IpAddress.{IpAddress, ip_eq}
use sentinel_gpt.Network.IpPolicy.{evaluate_all}
use sentinel_gpt.Network.IpPolicy.Bounds.{IsAllowed, evaluate_all_iff}
use sentinel_gpt.Network.Binding.{ValidatedTargetBinding, create, is_some}
use sentinel_gpt.Network.Binding.Laws.{IsValidated, none_of_is_some, create-validated}
use sentinel_gpt.Network.Resolution.{
  ResolutionOutcome, resolved, unresolved, same_set, policy_validate, resolve_quietly, quietly,
  bind_outcome, resolve, still_valid, ensure_still_valid,
}

accepted :
    (addresses : List IpAddress)
    → is_some (evaluate_all addresses) ≡ false
    → All IsAllowed addresses
accepted addresses h = (evaluate_all_iff addresses).0 (none_of_is_some _ h)

validated_policy :
    (addresses : List IpAddress)
    → Returns (λ o. All IsAllowed addresses) (policy_validate addresses)
unfolding policy_validate
validated_policy addresses = elim (Bool-cases (is_some (evaluate_all addresses))) [
  | inl e ↦ rw e raised
  | inr e ↦ rw e (returned (accepted addresses e))
]

IsValidated_of_policy :
    (addresses : List IpAddress) → policy_validate addresses ≡ ok none → All IsAllowed addresses
IsValidated_of_policy addresses e = Returns-elim (validated_policy addresses) none e

bind_resolved :
    (hostname : Text) (addresses : List IpAddress) (now target_id : Option ℕ) (clock : ℕ)
    → Returns IsValidated (create hostname addresses policy_validate now target_id clock)
bind_resolved hostname addresses now target_id clock =
    Returns-imp (create-validated hostname addresses policy_validate now target_id clock)
      λ b (approved, same, _, _). rw same (IsValidated_of_policy addresses approved)

bind_outcome-IsValidated :
    {S : Type 0} (resolve_all : Text → Action S ResolutionOutcome) (target_id now : Option ℕ)
    (clock : ℕ) (outcome : ResolutionOutcome)
    → Returns IsValidated (bind_outcome resolve_all target_id now clock outcome)
unfolding bind_outcome
bind_outcome-IsValidated resolve_all target_id now clock (unresolved _ _) = raised
bind_outcome-IsValidated resolve_all target_id now clock (resolved hostname addresses) =
    Returns-if (is_some (evaluate_all addresses)) (err target_resolution_blocked) _
      (λ refused. raised) (λ quiet. bind_resolved hostname addresses now target_id clock)

module _ {S : Type 0} {P : S → Type 0} (resolve_all : Text → Action S ResolutionOutcome) where
  quiet_step :
      ((name : Text) (s : S) → P s → P (resolve_all name s).1)
      → (hostname : Text) → Keeps P (λ _. Unit) (resolve_quietly resolve_all hostname)
  unfolding resolve_quietly
  quiet_step keep hostname = record {
    state = λ s h. keep hostname s h;
    value = λ s h. Returns-any _;
  }

  -- Resolution at scan time, as a step among others
  pub Keeps-resolve :
      ((name : Text) (s : S) → P s → P (resolve_all name s).1)
      → (hostname : Text) (target_id now : Option ℕ) (clock : ℕ)
      → Keeps P IsValidated (resolve resolve_all hostname target_id now clock)
  unfolding resolve
  Keeps-resolve keep hostname target_id now clock =
      Keeps-bind {Q = λ _. Unit} _ _ (quiet_step keep hostname) (λ outcome _.
        Keeps-lift _ (bind_outcome-IsValidated resolve_all target_id now clock outcome))

all_of-contains :
    (ys xs : List IpAddress) (a : IpAddress)
    → all_of (contains ys) xs ≡ true
    → contains xs a ≡ true
    → contains ys a ≡ true
all_of-contains ys [] a h e = cc
all_of-contains ys (x ∷ xs) a h e = elim (ip_eq.dec a x) [
  | yes p ↦ ground arith
  | no n ↦ all_of-contains ys xs a (ground arith) (ground arith)
]

same_set-contains :
    (xs ys : List IpAddress)
    → same_set xs ys ≡ true
    → (a : IpAddress) → contains xs a ≡ contains ys a
unfolding same_set
same_set-contains xs ys h a =
    Bool-eq_of_iff (all_of-contains ys xs a (ground arith)) (all_of-contains xs ys a (ground arith))

-- The answer that a check of a binding passes on
abbrev pub IsStill : ValidatedTargetBinding → ResolutionOutcome → Type 0
IsStill binding (unresolved _ _) = ⊥
IsStill binding (resolved _ addresses) =
    All IsAllowed addresses
    × ((a : IpAddress) → contains addresses a ≡ contains binding.addresses a)

still_valid_lem :
    {S : Type 0} (resolve_all : Text → Action S ResolutionOutcome)
    (binding : ValidatedTargetBinding) (outcome : ResolutionOutcome)
    → Returns (λ _. IsStill binding outcome) (still_valid resolve_all binding outcome)
unfolding still_valid
still_valid_lem resolve_all binding (unresolved _ _) = raised
still_valid_lem resolve_all binding (resolved _ addresses) =
    Returns-if (not (same_set addresses binding.addresses)) (err dns_rebinding_detected) _
      (λ changed. raised)
      λ same.
        Returns-if (is_some (evaluate_all addresses)) (err dns_rebinding_detected) (ok tt)
          (λ refused. raised)
          λ quiet. returned (
            accepted addresses quiet,
            same_set-contains addresses binding.addresses (true_of_not _ same),
          )

IsStill-after :
    {S : Type 0} (resolve_all : Text → Action S ResolutionOutcome)
    (binding : ValidatedTargetBinding) (s : S) (r : Result ResolutionOutcome)
    → Returns
        (λ _. (outcome : ResolutionOutcome) × (r ≡ ok outcome) × IsStill binding outcome)
        (proceed (λ outcome. lift (still_valid resolve_all binding outcome)) (quietly r) s).0
unfolding quietly
IsStill-after resolve_all binding s (ok outcome) =
    Returns-imp (still_valid_lem resolve_all binding outcome) λ _ h. (outcome, refl, h)
IsStill-after resolve_all binding s (err e) = raised

-- The check before a connection succeeds only if the resolver answers with a record set that has
-- exactly the addresses of the binding, all of them public: a failure of the resolver, an address
-- more or less, or a prohibited address makes it raise.
pub ensure_still_valid_lem :
    {S : Type 0} (resolve_all : Text → Action S ResolutionOutcome)
    (binding : ValidatedTargetBinding) (s : S)
    → Returns
        (λ _.
          (outcome : ResolutionOutcome) × ((resolve_all binding.hostname s).0 ≡ ok outcome)
          × IsStill binding outcome)
        (ensure_still_valid resolve_all binding s).0
unfolding ensure_still_valid resolve_quietly ◌>>=◌
ensure_still_valid_lem resolve_all binding s =
    IsStill-after resolve_all binding (resolve_all binding.hostname s).1
      (resolve_all binding.hostname s).0

-- Whatever the resolver answers or raises, resolution at scan time returns only a binding all of
-- whose addresses are public.
pub resolve-IsValidated :
    {S : Type 0} (resolve_all : Text → Action S ResolutionOutcome) (hostname : Text)
    (target_id now : Option ℕ) (clock : ℕ) (s : S)
    → Returns IsValidated (resolve resolve_all hostname target_id now clock s).0
resolve-IsValidated resolve_all hostname target_id now clock s =
    (Keeps-resolve {P = λ _. Unit} resolve_all (λ _ _ _. tt) hostname target_id now clock).value s
      tt
