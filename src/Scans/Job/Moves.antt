-- ===== src/Scans/Job/Moves.antt =====
-- The moves of a scan, whoever makes them.
use sentinel_gpt.Common.{
  ℕ, ◌≡◌, refl, true, ◌==◌, nat_eq, Option, some, List, if◌then◌else◌, arith, Bool-cases, inl, inr,
}
use sentinel_gpt.Common.Table.{get, update_if, get-update_if}
use sentinel_gpt.Common.Text.{Text}
use sentinel_gpt.Errors.{returned, Returns-any}
use sentinel_gpt.Action.{Action}
use sentinel_gpt.Action.Keeps.{Keeps}
use sentinel_gpt.Scans.Lifecycle.{ScanStatus, status_eq, can_transition}
use sentinel_gpt.Scans.Lifecycle.Laws.{Reaches, stays, Reaches-one, Reaches-trans}
use sentinel_gpt.Scans.Store.{Scan, Database, Value, ExecutionStatus}
use sentinel_gpt.Scans.Store.Session.{
  Session, commit, elsewhere, write, try_transition, record_audit, create_execution, mark_execution,
  has_status, moved_to,
}

-- The scan is in the database, in a status that a run of the state machine reaches from `start`.
abbrev pub IsReached : ScanStatus → ℕ → Database → Type 0
IsReached start id db = (c : Scan) × (get id db.scans ≡ some c) × Reaches start c.status

-- So it is for what is committed and for what the session sees.
abbrev pub Tracks : ScanStatus → ℕ → Session → Type 0
Tracks start id s = IsReached start id s.committed × IsReached start id s.working

-- Other sessions move scans by the state machine too, and delete none.
abbrev pub MovesOnly : (Database → Database) → Type 0
MovesOnly f =
    (db : Database) (id : ℕ) (c : Scan)
    → get id db.scans ≡ some c
    → (d : Scan) × (get id (f db).scans ≡ some d) × Reaches c.status d.status

moved-Reaches :
    (from to : ScanStatus) (started completed : Option ℕ) (c : Scan)
    → can_transition from to ≡ true
    → Reaches c.status (if has_status from c then moved_to to started completed c else c).status
unfolding moved_to
moved-Reaches from to started completed c e = elim (Bool-cases (has_status from c)) [
  | inl h ↦ let same : c.status ≡ from = ground arith in simp h (Reaches-one (rw same e))
  | inr h ↦ simp h stays
]

module _ (start : ScanStatus) (id : ℕ) where
  IsReached-update_if :
      (j : ℕ) (from to : ScanStatus) (started completed : Option ℕ) (db : Database)
      → can_transition from to ≡ true
      → IsReached start id db
      → IsReached start id (record db {
        scans = update_if j (has_status from) (moved_to to started completed) db.scans;
      })
  IsReached-update_if j from to started completed db e (c, stored, run) =
      let step = get-update_if j id (has_status from) (moved_to to started completed) db.scans in
      elim (Bool-cases (j == id)) [
        | inl same ↦ (
          _,
          (simp (same, stored) at step),
          Reaches-trans run (moved-Reaches from to started completed c e),
        )
        | inr other ↦ (c, (simp (other, stored) at step), run)
      ]

  pub Keeps-try_transition :
      (j : ℕ) (from to : ScanStatus) (started completed : Option ℕ)
      → can_transition from to ≡ true
      → Keeps (Tracks start id) (λ _. Unit) (try_transition j from to started completed)
  unfolding try_transition
  Keeps-try_transition j from to started completed e = record {
    state = λ s h. (h.0, IsReached-update_if j from to started completed s.working e h.1);
    value = λ s h. returned tt;
  }

  pub Keeps-commit : Keeps (Tracks start id) (λ _. Unit) commit
  unfolding commit
  Keeps-commit = record { state = λ s h. (h.1, h.1); value = λ s h. returned tt }

  pub Keeps-elsewhere :
      (f : Database → Database) → MovesOnly f → Keeps (Tracks start id) (λ _. Unit) (elsewhere f)
  unfolding elsewhere
  Keeps-elsewhere f m = record {
    state = λ s h. (continued f m s.committed h.0, continued f m s.working h.1);
    value = λ s h. returned tt;
  }
    where
      continued :
          (f : Database → Database)
          → MovesOnly f
          → (db : Database) → IsReached start id db
          → IsReached start id (f db)
      continued f m db (c, stored, run) =
          let (d, there, more) = m db id c stored in (d, there, Reaches-trans run more)

  -- A step that writes no scan
  pub Keeps-other :
      {A : Type 0} (m : Action Session A)
      → ((s : Session)
          → ((m s).1.committed.scans ≡ s.committed.scans)
            × ((m s).1.working.scans ≡ s.working.scans))
      → Keeps (Tracks start id) (λ _. Unit {0}) m
  Keeps-other m same = record {
    state = λ s h. (
      same_scans s.committed (m s).1.committed (same s).0 h.0,
      same_scans s.working (m s).1.working (same s).1 h.1,
    );
    value = λ s h. Returns-any _;
  }
    where
      same_scans :
          (db db' : Database)
          → db'.scans ≡ db.scans
          → IsReached start id db
          → IsReached start id db'
      same_scans db db' e (c, stored, run) = (c, rw e stored, run)

  pub Keeps-record_audit :
      (actor : Option ℕ) (action entity : Text) (e : ℕ) (metadata : List (Text × Value))
      → Keeps (Tracks start id) (λ _. Unit) (record_audit actor action entity e metadata)
  unfolding record_audit
  Keeps-record_audit actor action entity e metadata = Keeps-other _ λ s. (refl, refl)

  pub Keeps-create_execution :
      (scan : ℕ) (engine version : Text) (status : ExecutionStatus) (started : Option ℕ)
      → Keeps (Tracks start id) (λ _. Unit) (create_execution scan engine version status started)
  unfolding create_execution
  Keeps-create_execution scan engine version status started = Keeps-other _ λ s. (refl, refl)

  pub Keeps-mark_execution :
      (execution : ℕ) (status : ExecutionStatus) (error : Option Text)
      → Keeps (Tracks start id) (λ _. Unit) (mark_execution execution status error)
  unfolding mark_execution
  Keeps-mark_execution execution status error = Keeps-other _ λ s. (refl, refl)

  pub Keeps-write :
      (f : Database → Database)
      → ((db : Database) → (f db).scans ≡ db.scans)
      → Keeps (Tracks start id) (λ _. Unit) (write f)
  unfolding write
  Keeps-write f same = Keeps-other _ λ s. (refl, same s.working)
