-- ===== src/Sandbox/Docker/Cleanup/Stable.antt =====
-- What the steps that start no container change, and two properties that stand it.
use sentinel_gpt.Common.{
  suc, ◌≡◌, Bool, false, Option, none, some, ◌∷◌, arith, inl, inr, Bool-cases,
}
use sentinel_gpt.Common.Text.{Text}
use sentinel_gpt.Sandbox.Commands.{Command, remove_container}
use sentinel_gpt.Sandbox.Docker.{Sandbox}
use sentinel_gpt.Sandbox.Docker.Cleanup.{
  starts, awaits_removal, IsTracked, IsIdle, awaits_removal-quiet, awaits_removal-removed,
}

-- `P` survives every step of the object but the start of a container.
pub record IsStable (P : Sandbox → Type 0) : Type 0 where
  pub after_send :
      (c : Command) (s : Sandbox) → starts c ≡ none → P s → P (record s { sent = c ∷ s.sent })
  pub after_name : (s : Sandbox) → P s → P (record s { supply = suc s.supply })
  pub after_mark : (up : Bool) (s : Sandbox) → P s → P (record s { is_established = up })
  pub after_network : (o : Option Text) (s : Sandbox) → P s → P (record s { network = o })
  pub after_pending :
      (m : Text) (s : Sandbox)
      → s.pending_container ≡ some m
      → P s
      → P (record s { sent = remove_container m ∷ s.sent; pending_container = none })
  pub after_container :
      (m : Text) (s : Sandbox)
      → s.container ≡ some m
      → P s
      → P (record s { sent = remove_container m ∷ s.sent; container = none })

module _ (n : Text) where
  dead-quiet :
      (c : Command) (s : Sandbox)
      → starts c ≡ none
      → awaits_removal n s.sent ≡ false
      → awaits_removal n (c ∷ s.sent) ≡ false
  dead-quiet c s e dead = elim (Bool-cases (awaits_removal n (c ∷ s.sent))) [
    | inl live ↦ let before = awaits_removal-quiet n c s.sent e live in ground arith
    | inr h ↦ h
  ]

  removed_pending :
      (m : Text) (s : Sandbox)
      → s.pending_container ≡ some m
      → IsTracked n s
      → IsTracked n (record s { sent = remove_container m ∷ s.sent; pending_container = none })
  removed_pending m s e h live =
      let (before, other) = awaits_removal-removed n m s.sent live in
      elim (h before) [ inl p ↦ ground arith | inr c ↦ inr c ]

  removed_container :
      (m : Text) (s : Sandbox)
      → s.container ≡ some m
      → IsTracked n s
      → IsTracked n (record s { sent = remove_container m ∷ s.sent; container = none })
  removed_container m s e h live =
      let (before, other) = awaits_removal-removed n m s.sent live in
      elim (h before) [ inl p ↦ inl p | inr c ↦ ground arith ]

  pub IsTracked-IsStable : IsStable (IsTracked n)
  IsTracked-IsStable = record {
    after_send = λ c s e h live. h (awaits_removal-quiet n c s.sent e live);
    after_name = λ s h. h;
    after_mark = λ up s h. h;
    after_network = λ o s h. h;
    after_pending = removed_pending;
    after_container = removed_container;
  }

  pub IsIdle-IsStable : IsStable (IsIdle n)
  IsIdle-IsStable = record {
    after_send = λ c s e (p, k, dead). (p, k, dead-quiet c s e dead);
    after_name = λ s h. h;
    after_mark = λ up s h. h;
    after_network = λ o s h. h;
    after_pending = λ m s e (p, k, dead). ground arith;
    after_container = λ m s e (p, k, dead). ground arith;
  }
