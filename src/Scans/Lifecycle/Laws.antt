-- ===== src/Scans/Lifecycle/Laws.antt =====
-- The state machine of scans.
use sentinel_gpt.Common.{ℕ, ◌≤◌, ◌<◌, ◌≡◌, ◌↔◌, refl, sym, ◌∙◌, true, false, arith}
use mathlib.Core.Bool.{true≢false}
use sentinel_gpt.Scans.Lifecycle.{
  ScanStatus, pending_attestation, queued, running, ai_analysis, scan_complete, partially_complete,
  report_ready, report_ready_degraded, rejected, cancelled, can_transition, is_terminal,
}

-- A run of the state machine
pub data Reaches : ScanStatus → ScanStatus → Type 0 where
  stays : {s : ScanStatus} → Reaches s s
  moves : {s t u : ScanStatus} → can_transition s t ≡ true → Reaches t u → Reaches s u

pub Reaches-one : {s t : ScanStatus} → can_transition s t ≡ true → Reaches s t
Reaches-one e = moves e stays

pub Reaches-trans : {s t u : ScanStatus} → Reaches s t → Reaches t u → Reaches s u
Reaches-trans stays q = q
Reaches-trans (moves e p) q = moves e (Reaches-trans p q)

-- How far along a status is
abbrev pub rank : ScanStatus → ℕ
rank pending_attestation = 0
rank queued = 1
rank running = 2
rank scan_complete = 3
rank partially_complete = 3
rank ai_analysis = 4
rank _ = 5

rank-can_transition : (s t : ScanStatus) → can_transition s t ≡ true → rank s < rank t
unfolding can_transition
rank-can_transition s t h = ground arith

terminal_out : (s t : ScanStatus) → is_terminal s ≡ true → can_transition s t ≡ false
unfolding can_transition is_terminal
terminal_out s t h = ground arith

terminal_of_stuck :
    (s : ScanStatus) → ((t : ScanStatus) → can_transition s t ≡ false) → is_terminal s ≡ true
unfolding can_transition is_terminal
terminal_of_stuck pending_attestation h = ground (arith, h queued)
terminal_of_stuck queued h = ground (arith, h running)
terminal_of_stuck running h = ground (arith, h rejected)
terminal_of_stuck ai_analysis h = ground (arith, h report_ready)
terminal_of_stuck scan_complete h = ground (arith, h ai_analysis)
terminal_of_stuck partially_complete h = ground (arith, h ai_analysis)
terminal_of_stuck report_ready h = refl
terminal_of_stuck report_ready_degraded h = refl
terminal_of_stuck rejected h = refl
terminal_of_stuck cancelled h = refl

-- A status is terminal exactly if the state machine allows no move from it.
is_terminal_iff :
    (s : ScanStatus) → (is_terminal s ≡ true) ↔ ((t : ScanStatus) → can_transition s t ≡ false)
is_terminal_iff s = (λ h t. terminal_out s t h, terminal_of_stuck s)

-- No run of the state machine leads back: its last status is at least as far along as its first.
pub rank-Reaches : {s t : ScanStatus} → Reaches s t → rank s ≤ rank t
rank-Reaches stays = omega arith
rank-Reaches (moves {s} {t} e p) = omega (arith, rank-can_transition s t e, rank-Reaches p)

-- A scan in a terminal status stays there over every run of the state machine.
pub terminal-Reaches : {s t : ScanStatus} → Reaches s t → is_terminal s ≡ true → s ≡ t
terminal-Reaches stays h = refl
terminal-Reaches (moves {s} {t} e p) h = absurd (true≢false (sym e ∙ terminal_out s t h))
