-- ===== src/Scans/Store/Session.antt =====
-- One database session: what is committed, what it sees with its own uncommitted writes, a supply of
-- new primary keys (`uuid.uuid4`), the clock, and the scans for which the pipeline was run, the last
-- one first.
use sentinel_gpt.Common.{ℕ, suc, Bool, ◌==◌, nat_eq, Option, none, some, List, [], ◌∷◌, ◌++◌}
use sentinel_gpt.Common.Table.{add, update, update_if, matching}
use sentinel_gpt.Common.Text.{Text}
use sentinel_gpt.Errors.{ok}
use sentinel_gpt.Action.{Action}
use sentinel_gpt.Scans.Lifecycle.{ScanStatus, status_eq}
use sentinel_gpt.Scans.Store.{Scan, Execution, ExecutionStatus, AuditEntry, Value, Database}

pub record Session : Type 0 where
  pub committed : Database
  pub working : Database
  pub supply : ℕ
  pub clock : ℕ
  pub scanned : List ℕ

-- `session.commit()`
unfoldable pub commit : Action Session (Unit {0})
commit s = (ok tt, record s { committed = s.working })

-- The end of a session that was left by an exception: what is not committed is gone.
unfoldable pub rolled_back : Session → Session
rolled_back s = record s { working = s.committed }

-- What other sessions commit while this one holds no transaction
unfoldable pub elsewhere : (Database → Database) → Action Session (Unit {0})
elsewhere f s = (ok tt, record s { committed = f s.committed; working = f s.working })

unfoldable pub uuid4 : Action Session ℕ
uuid4 s = (ok s.supply, record s { supply = suc s.supply })

unfoldable pub write : (Database → Database) → Action Session (Unit {0})
write f s = (ok tt, record s { working = f s.working })

abbrev pub has_status : ScanStatus → Scan → Bool
has_status status scan = scan.status == status

-- `or_else` on the columns that a transition may set
unfoldable pub set_column : Option ℕ → Option ℕ → Option ℕ
set_column none old = old
set_column (some t) old = some t

unfoldable pub moved_to : ScanStatus → Option ℕ → Option ℕ → Scan → Scan
moved_to status started completed scan = record scan {
  status = status;
  started_at = set_column started scan.started_at;
  completed_at = set_column completed scan.completed_at;
}

-- `ScanRepository.try_transition`
unfoldable pub try_transition :
    ℕ → ScanStatus → ScanStatus → Option ℕ → Option ℕ → Action Session Bool
try_transition id from to started completed s = (
  ok (matching id (has_status from) s.working.scans == 1),
  record s {
    working = record s.working {
      scans = update_if id (has_status from) (moved_to to started completed) s.working.scans;
    };
  },
)

-- `AuditService.record`
unfoldable pub record_audit :
    Option ℕ → Text → Text → ℕ → List (Text × Value) → Action Session (Unit {0})
record_audit actor action entity id metadata s =
    let entry : AuditEntry = record {
      actor_user_id = actor;
      action_code = action;
      entity_type = entity;
      entity_id = id;
      metadata = metadata;
      occurred_at = s.clock;
    } in
    (ok tt, record s { working = record s.working { audit = s.working.audit ++ (entry ∷ []) } })

-- `ScanEngineExecutionRepository.create` and `mark`
unfoldable pub create_execution : ℕ → Text → Text → ExecutionStatus → Option ℕ → Action Session ℕ
create_execution scan_id engine version status started s =
    let row : Execution = record {
      scan_id = scan_id;
      engine_code = engine;
      tool_version_snapshot = version;
      status = status;
      started_at = started;
      completed_at = none;
      error_message = none;
    } in
    (
      ok s.supply,
      record s {
        supply = suc s.supply;
        working = record s.working { executions = add s.supply row s.working.executions };
      },
    )

unfoldable pub mark_execution : ℕ → ExecutionStatus → Option Text → Action Session (Unit {0})
mark_execution id status error s =
    let marked : Execution → Execution =
      λ e. record e { status = status; completed_at = some s.clock; error_message = error } in
    (
      ok tt,
      record s {
        working = record s.working { executions = update id marked s.working.executions };
      },
    )
