-- ===== src/ControlPlane/Tests.antt =====
-- Runs on a small control plane: a record's text is one letter.
use feather_flow.Common.{
  ℕ, ◌&&◌, not, is_some, ◌≡◌, refl, ◌≤◌, ◌+◌, true, false, List, [], ◌∷◌, ◌++◌, Option, none, some,
  String, ◌==◌, string_eq, nat_eq, if◌then◌else◌, All, Result, ok, err, length, arith,
}
use feather_flow.Common.Dict.{lookup, insert, apply}
use feather_flow.ControlPlane.{
  EventRow, Plane, RunStart, RunFinish, Record, run_start, run_finish, event, budget, unknown,
}
use feather_flow.ControlPlane.Store.{
  apply_all, apply_events_batch, write, refuse, reconcile_dead, opened, run_id_clash,
}
use feather_flow.ControlPlane.Store.{apply as apply_record}
use feather_flow.ControlPlane.Replay.{
  SameTables, write_all, reshipped, apply_events_batch-apply_all,
}
use feather_flow.ControlPlane.Wal.{newline, read_new, read_lines, splitlines, bytes_from}
use feather_flow.ControlPlane.Tails.{IsLogged, encode, read_new-encode, read_new-bounds}
use feather_flow.ControlPlane.Lease.{lease_acquire, lease_until}
use feather_flow.ControlPlane.Holding.{
  LeaseStep, acquiring, renewing, releasing, IsForeign, run_of, time_of, lease_steps,
  lease_exclusive, reconcile_dead-lookup,
}
use feather_flow.ControlPlane.Shipper.{
  Host, missing, offset, bad_line, ship, execute_all, replay_prior,
}
use feather_flow.ControlPlane.Buffered.{ship-failed, ship-again}
use feather_flow.ControlPlane.Context.{Session, Start, refused_start, enter}
use feather_flow.ControlPlane.Emitted.{numbered, wal_of, record_events, events_logged}
use feather_flow.ControlPlane.Starting.{enter-refused}

abbrev empty_plane : Plane
empty_plane = record { runs = []; leases = []; events = []; budgets = [] }

abbrev start : RunStart
start = record {
  run_id = "r1";
  extractor = "sap";
  mode = some "daily";
  host = none;
  pid = some 1;
  started_at = 5;
  status = "running";
  wal_path = none;
  extra = some "{}";
}

abbrev finished_run : RunFinish
finished_run = record {
  run_id = "r1";
  extractor = "sap";
  started_at = some 5;
  finished_at = 9;
  status = "ok";
  stop_reason = some "clean";
  n_ok = some 1;
  n_err = none;
  n_skipped = none;
  extra = none;
}

abbrev row_at : ℕ → EventRow
row_at t = record {
  ran_at = t;
  entity = some "orders";
  unit = none;
  business_date = none;
  status = "ok";
  http_status = none;
  rows = some 3;
  source_attempts = none;
  sink_attempts = none;
  pull_ms = none;
  load_ms = none;
  error_detail = none;
  extra = none;
}

abbrev event_at : ℕ → Record
event_at n = event (("sap", "r1"), n) (row_at n)

abbrev quota : Record
quota =
    budget (("r1", "sap"), "walltime")
      record {
        limit_val = some 60;
        used = some 9;
        remaining = some 51;
        hit = some false;
        ran_at = some 9;
      }

abbrev tail : List Record
tail = run_start start ∷ event_at 0 ∷ quota ∷ run_finish finished_run ∷ []

abbrev shipped_plane : Plane
shipped_plane = write_all tail empty_plane

tail-shipped : apply_all tail empty_plane ≡ ok shipped_plane
unfolding apply_all apply_record refuse write lookup insert
tail-shipped = refl

-- A finish without `extra` keeps the one of the start.
kept_extra :
    (lookup "r1" shipped_plane.runs
      ≡ some
          (record (opened finished_run) { mode = some "daily"; pid = some 1; extra = some "{}" }))
unfolding write lookup insert
kept_extra = refl

clash :
    apply_all tail (write (run_start (record start { extractor = "zakya" })) empty_plane)
    ≡ err (run_id_clash "r1")
unfolding apply_all apply_record refuse write lookup insert
clash = refl

reshipped_example :
    (again : Plane) × (apply_all tail shipped_plane ≡ ok again) × SameTables again shipped_plane
reshipped_example = reshipped tail empty_plane shipped_plane tail-shipped

abbrev two_events : List Record
two_events = event_at 0 ∷ event_at 1 ∷ []

apply_events_batch-apply_all_example :
    apply_events_batch two_events shipped_plane ≡ apply_all two_events shipped_plane
apply_events_batch-apply_all_example = apply_events_batch-apply_all two_events shipped_plane refl

-- A codec for the records above: a letter each.
abbrev letter : Record → List ℕ
letter (run_start s) = 83 ∷ []
letter (run_finish f) = 70 ∷ []
letter (event k row) = 69 ∷ []
letter (budget k row) = 66 ∷ []
letter (unknown kind) = 63 ∷ []

abbrev record_of : List ℕ → Result String Record
record_of [] = err "empty"
record_of (b ∷ bs) =
    if b == 83
    then ok (run_start start)
    else if b == 69
    then ok (event_at 0)
    else if b == 66
    then ok quota
    else if b == 70
    then ok (run_finish finished_run)
    else err "no JSON"

tail-Logged : All (IsLogged letter record_of) tail
unfolding IsLogged
tail-Logged =
    ((refl, refl, refl), ((refl, refl, refl), ((refl, refl, refl), ((refl, refl, refl), tt))))

read_new-encode_example :
    read_new record_of
      (some ((83 ∷ newline ∷ []) ++ (encode letter record_of tail ++ 69 ∷ 70 ∷ [])))
      2
    ≡ ok (tail, 10)
read_new-encode_example =
    read_new-encode letter record_of (83 ∷ newline ∷ []) (69 ∷ 70 ∷ []) tail tail-Logged refl

abbrev torn_file : List ℕ
torn_file = 83 ∷ 10 ∷ 69 ∷ 10 ∷ 66 ∷ []

torn-read : read_new record_of (some torn_file) 2 ≡ ok (event_at 0 ∷ [], 4)
unfolding read_new read_lines splitlines bytes_from
torn-read = refl

read_new-bounds_example : (2 ≤ 4) × (4 ≤ length torn_file)
read_new-bounds_example =
    read_new-bounds record_of torn_file 2 4 (event_at 0 ∷ []) (omega arith) torn-read

abbrev host_of : List ℕ → Host
host_of bytes = record {
  plane = empty_plane;
  logs = ("r1", record { wal = some bytes; off = missing }) ∷ [];
}

abbrev never : Option Record → Plane → Option String
never r p = none

abbrev full_host : Host
full_host = host_of (encode letter record_of tail)

abbrev after_ship : Host
after_ship = record {
  plane = shipped_plane;
  logs = ("r1", record { wal = some (encode letter record_of tail); off = offset 8 }) ∷ [];
}

shipped_once : ship record_of never "r1" full_host ≡ (ok 4, after_ship)
unfolding ship execute_all apply_record refuse write lookup insert read_new read_lines splitlines
    bytes_from
shipped_once = refl

ship-again_example :
    (again : Host) × (ship record_of never "r1" (record after_ship { logs = full_host.logs })
      ≡ (ok 4, again))
    × SameTables again.plane shipped_plane
ship-again_example =
    ship-again record_of never (λ r p. refl) "r1" 4 full_host after_ship shipped_once

abbrev bad_host : Host
bad_host = host_of (83 ∷ 10 ∷ 35 ∷ 10 ∷ [])

bad_shipment : ship record_of never "r1" bad_host ≡ (err (bad_line "no JSON"), bad_host)
unfolding ship lookup read_new read_lines splitlines bytes_from
bad_shipment = refl

ship-failed_example : bad_host ≡ bad_host
ship-failed_example =
    ship-failed record_of never "r1" bad_host bad_host (bad_line "no JSON") bad_shipment

abbrev leased_plane : Plane
leased_plane = record empty_plane { leases = ("sap", lease_until "r1" 300 1000) ∷ [] }

leased : lease_acquire "sap" "r1" 300 1000 empty_plane ≡ (true, leased_plane)
unfolding lease_acquire lookup insert
leased = refl

abbrev rivals : List LeaseStep
rivals = acquiring "r2" 300 2000 ∷ renewing "r2" 300 3000 ∷ releasing "r2" 0 4000 ∷ []

rivals-Foreign : All (IsForeign (lease_until "r1" 300 1000)) rivals
unfolding IsForeign run_of time_of
rivals-Foreign = ((refl, omega arith), ((refl, omega arith), ((refl, omega arith), tt)))

lease_exclusive_example :
    (lease_steps "sap" rivals leased_plane ≡ leased_plane)
    × (lease_acquire "sap" "r3" 300 5000 (lease_steps "sap" rivals leased_plane)
        ≡ (false, leased_plane))
lease_exclusive_example =
    lease_exclusive "sap" "r1" 300 1000 empty_plane leased_plane rivals "r3" 300 5000 leased
      rivals-Foreign (omega arith)

abbrev started_plane : Plane
started_plane = write (run_start start) empty_plane

reconcile_dead-lookup_example :
    let q = (reconcile_dead "sap" "r2" 77 started_plane).0 in
    (lookup "r1" q.runs
      ≡ apply
          (λ row.
            if row.extractor == "sap"
              && not (is_some row.finished_at)
              && not (◌==◌ {A = String} "r1" "r2")
            then record row {
              status = "died";
              stop_reason = some "died";
              finished_at = some 77;
              reconciled_by = some "r2";
            }
            else row)
          (lookup "r1" started_plane.runs))
    × (q.leases ≡ started_plane.leases)
    × (q.events ≡ started_plane.events)
    × (q.budgets ≡ started_plane.budgets)
reconcile_dead-lookup_example = reconcile_dead-lookup "sap" "r2" 77 started_plane "r1"

abbrev session : Session
session = record {
  extractor = "sap";
  run_id = "r1";
  connected = true;
  seq = 0;
  finished = false;
  host = host_of (83 ∷ 10 ∷ []);
}

session-wal : wal_of session ≡ some (83 ∷ 10 ∷ [])
unfolding lookup
session-wal = refl

abbrev two_rows : List EventRow
two_rows = row_at 0 ∷ row_at 1 ∷ []

events_logged_example :
    let s = record_events letter record_of never two_rows session in
    (wal_of s ≡ some ((83 ∷ 10 ∷ []) ++ encode letter record_of (numbered "sap" "r1" 0 two_rows)))
    × (s.seq ≡ 0 + length two_rows)
events_logged_example =
    events_logged letter record_of never two_rows session (83 ∷ 10 ∷ []) session-wal

abbrev second : Start
second = record {
  extractor = "sap";
  run_id = "r2";
  connected = true;
  lease_ttl_s = 300;
  mode = "daily";
  hostname = "h";
  pid = 1;
  wal_path = "r2.jsonl";
  wals = "r1" ∷ "r2" ∷ [];
}

abbrev leased_host : Host
leased_host = record full_host { plane = leased_plane }

held : lookup "sap" leased_plane.leases ≡ some (lease_until "r1" 300 1000)
unfolding lookup
held = refl

enter-refused_example :
    let replayed = (replay_prior record_of never "r2" ("r1" ∷ "r2" ∷ []) 0 leased_host).1 in
    (enter letter record_of never second 5 2000 leased_host ≡ refused_start replayed)
    × (replayed.plane.leases ≡ leased_plane.leases)
enter-refused_example =
    enter-refused record_of never letter second 5 2000 leased_host (lease_until "r1" 300 1000) refl
      held (omega arith)
