-- ===== src/ControlPlane.antt =====
-- packages/feather-control-plane/src/control_plane: the tables of the Postgres control plane, and
-- the records of the write-ahead log. A table is a dictionary behind its primary key, a NULL is
-- `none`, a time is a number of microseconds, and a JSON value is kept as its text. A record has
-- the fields that its kind reads.
pub mod Store
mod Keys
mod Folds
pub mod Replay
pub mod Wal
pub mod Lease
pub mod Holding
pub mod Shipper
pub mod Buffered
pub mod Context
pub mod Emitted
pub mod Starting
mod Tests
pub mod Tails
use feather_flow.Common.{ℕ, Bool, List, Option, String}
use feather_flow.Common.Dict.{Dict}

-- A row of `control.run`, behind its run id.
pub record RunRow : Type 0 where
  pub extractor : String
  pub mode : Option String
  pub host : Option String
  pub pid : Option ℕ
  pub started_at : ℕ
  pub finished_at : Option ℕ
  pub status : String
  pub stop_reason : Option String
  pub n_ok : Option ℕ
  pub n_err : Option ℕ
  pub n_skipped : Option ℕ
  pub reconciled_by : Option String
  pub wal_path : Option String
  pub extra : Option String

-- A row of `control.lease`, behind its extractor.
pub record LeaseRow : Type 0 where
  pub run_id : String
  pub lease_expires_at : ℕ

-- A row of `control.event`, behind its extractor and run id, and sequence number.
pub record EventRow : Type 0 where
  pub ran_at : ℕ
  pub entity : Option String
  pub unit : Option String
  pub business_date : Option ℕ
  pub status : String
  pub http_status : Option ℕ
  pub rows : Option ℕ
  pub source_attempts : Option ℕ
  pub sink_attempts : Option ℕ
  pub pull_ms : Option ℕ
  pub load_ms : Option ℕ
  pub error_detail : Option (List ℕ)
  pub extra : Option String

-- A row of `control.budget_usage`, behind its run id, extractor and budget name.
pub record BudgetRow : Type 0 where
  pub limit_val : Option ℕ
  pub used : Option ℕ
  pub remaining : Option ℕ
  pub hit : Option Bool
  pub ran_at : Option ℕ

pub record Plane : Type 0 where
  pub runs : Dict String RunRow
  pub leases : Dict String LeaseRow
  pub events : Dict ((String × String) × ℕ) EventRow
  pub budgets : Dict ((String × String) × String) BudgetRow

pub record RunStart : Type 0 where
  pub run_id : String
  pub extractor : String
  pub mode : Option String
  pub host : Option String
  pub pid : Option ℕ
  pub started_at : ℕ
  pub status : String
  pub wal_path : Option String
  pub extra : Option String

pub record RunFinish : Type 0 where
  pub run_id : String
  pub extractor : String
  pub started_at : Option ℕ
  pub finished_at : ℕ
  pub status : String
  pub stop_reason : Option String
  pub n_ok : Option ℕ
  pub n_err : Option ℕ
  pub n_skipped : Option ℕ
  pub extra : Option String

-- A record of the log by its `kind`; an event and a budget carry their keys in the order of the
-- table's key.
pub data Record : Type 0 where
  run_start : RunStart → Record
  run_finish : RunFinish → Record
  event : (String × String) × ℕ → EventRow → Record
  budget : (String × String) × String → BudgetRow → Record
  unknown : String → Record
