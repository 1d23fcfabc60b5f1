-- ===== src/ControlPlane/Context.antt =====
-- control_plane/run.py: what an extractor calls. A record is appended to the run's log and then
-- shipped, and a shipment that fails is only printed. The times come from the caller; the calls
-- for the lease are taken not to fail. `connected` is that a DSN was given.
use feather_flow.Common.{
  ℕ, zero, suc, Bool, true, false, List, [], ◌∷◌, Option, none, some, String, if◌then◌else◌, Result,
}
use feather_flow.ControlPlane.{
  Plane, EventRow, BudgetRow, Record, run_start, run_finish, event, budget,
}
use feather_flow.ControlPlane.Store.{reconcile_dead}
use feather_flow.ControlPlane.Wal.{append}
use feather_flow.ControlPlane.Lease.{lease_acquire, lease_release}
use feather_flow.ControlPlane.Shipper.{Host, log_of, set_log, ship, replay_prior}

pub record Session : Type 0 where
  pub extractor : String
  pub run_id : String
  pub connected : Bool
  pub seq : ℕ
  pub finished : Bool
  pub host : Host

-- How a run is started: `ControlPlane`'s fields, the arguments of `run`, the pid, the other logs
-- of the extractor in the order of their names, and the path of its own.
pub record Start : Type 0 where
  pub extractor : String
  pub run_id : String
  pub connected : Bool
  pub lease_ttl_s : ℕ
  pub mode : String
  pub hostname : String
  pub pid : ℕ
  pub wal_path : String
  pub wals : List String

pub data Entered : Type 0 where
  refused_start : Host → Entered
  running : Session → Entered

abbrev pub take : ℕ → List ℕ → List ℕ
take zero xs = []
take (suc n) [] = []
take (suc n) (x ∷ xs) = x ∷ take n xs

abbrev pub error_detail_cap : ℕ
error_detail_cap = 2000

-- `error_detail[:ERROR_DETAIL_CAP] if error_detail else None`
abbrev pub capped : Option (List ℕ) → Option (List ℕ)
capped none = none
capped (some []) = none
capped (some (c ∷ cs)) = some (take error_detail_cap (c ∷ cs))

module _ {E : Type 0} (dumps : Record → List ℕ) (loads : List ℕ → Result E Record)
    (fails : Option Record → Plane → Option E) where
  abbrev pub append_log : Record → Session → Session
  append_log r s =
      let l = log_of s.run_id s.host in
      record s { host = set_log s.run_id (record l { wal = append dumps r l.wal }) s.host }

  -- `_ship_now`
  abbrev pub ship_now : Session → Session
  ship_now s = record s {
    host = if s.connected then (ship loads fails s.run_id s.host).1 else s.host;
  }

  -- `_emit`
  unfoldable pub emit : Record → Session → Session
  emit r s = ship_now (append_log r s)

  -- `RunContext.event`
  unfoldable pub record_event : EventRow → Session → Session
  record_event row s =
      let capped_row = record row { error_detail = capped row.error_detail } in
      record (emit (event ((s.extractor, s.run_id), s.seq) capped_row) s) { seq = suc s.seq }

  -- `RunContext.budget`
  unfoldable pub record_budget : String → BudgetRow → Session → Session
  record_budget name row s = emit (budget ((s.run_id, s.extractor), name) row) s

  -- `RunContext.finish`
  unfoldable pub finish :
      String → String → Option ℕ → Option ℕ → Option ℕ → ℕ → ℕ → Session → Session
  finish status stop_reason n_ok n_err n_skipped started now s =
      let r = run_finish record {
        run_id = s.run_id;
        extractor = s.extractor;
        started_at = some started;
        finished_at = now;
        status = status;
        stop_reason = some stop_reason;
        n_ok = n_ok;
        n_err = n_err;
        n_skipped = n_skipped;
        extra = none;
      } in
      if s.finished then s else record (emit r s) { finished = true }

  abbrev pub start_record : Start → ℕ → Record
  start_record a started = run_start record {
    run_id = a.run_id;
    extractor = a.extractor;
    mode = some a.mode;
    host = some a.hostname;
    pid = some a.pid;
    started_at = started;
    status = "running";
    wal_path = some a.wal_path;
    extra = none;
  }

  abbrev pub begin_run : Start → ℕ → Host → Session
  begin_run a started h = emit (start_record a started) record {
    extractor = a.extractor;
    run_id = a.run_id;
    connected = a.connected;
    seq = 0;
    finished = false;
    host = h;
  }

  -- Behind the lease: the dead runs are marked, the run is recorded.
  abbrev pub enter_with : Start → ℕ → ℕ → Host → Bool × Plane → Entered
  enter_with a started now h (false, p) = refused_start (record h { plane = p })
  enter_with a started now h (true, p) =
      running
        (begin_run a started (record h { plane = (reconcile_dead a.extractor a.run_id now p).0 }))

  -- `ControlPlane.run`, up to the body
  unfoldable pub enter : Start → ℕ → ℕ → Host → Entered
  enter a started now h =
      let h' = (replay_prior loads fails a.run_id a.wals 0 h).1 in
      if a.connected
      then enter_with a started now h'
          (lease_acquire a.extractor a.run_id a.lease_ttl_s now h'.plane)
      else running (begin_run a started h)

  -- The last flush, behind the release of the lease.
  abbrev pub flush : ℕ → Session → Session
  flush now s =
      if s.connected
      then ship_now (record s {
        host = record s.host { plane = lease_release s.extractor s.run_id now s.host.plane };
      })
      else s

  -- `ControlPlane.run`, from the end of the body, which has raised or not
  unfoldable pub leave : Bool → ℕ → ℕ → Session → Session
  leave raised started now s =
      let failed = if raised then finish "failed" "error" none none none started now s else s in
      flush now (finish "ok" "clean" none none none started now failed)
