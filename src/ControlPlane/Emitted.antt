-- ===== src/ControlPlane/Emitted.antt =====
-- control_plane/run.py: what a run leaves in its log, and who may start.
use feather_flow.Common.{
  ◌≡◌, refl, sym, ap, ◌∙◌, ℕ, suc, ◌+◌, Bool, true, false, List, [], ◌∷◌, ◌++◌, Option, some,
  String, ==_refl, string_eq, if◌then◌else◌, Result, ok, err, ◌>>=◌, arith, length,
}
use mathlib.Core.List.{append_assoc, append-nil}
use feather_flow.Common.Dict.{lookup, lookup-insert}
use feather_flow.ControlPlane.{Plane, EventRow, Record, event}
use feather_flow.ControlPlane.Wal.{append, newline, append_bytes, read_new}
use feather_flow.ControlPlane.Tails.{encode}
use feather_flow.ControlPlane.Shipper.{
  Host, Log, log_of, log_or, set_log, ship, ship_tail, end_transaction, offset, execute_all, commit,
  read_off, ShipError,
}
use feather_flow.ControlPlane.Context.{Session, capped, emit, append_log, record_event}

log_of-set_log : (k : String) (l : Log) (h : Host) → log_of k (set_log k l h) ≡ l
log_of-set_log k l h =
    ap log_or
      (lookup-insert k k l h.logs ∙ ap (λ b. if b then some l else lookup k h.logs) (==_refl k))

module _ {E : Type 0} (loads : List ℕ → Result E Record)
    (fails : Option Record → Plane → Option E) where
  wal-transaction :
      (k : String) (l : Log) (n off : ℕ) (h : Host) (t : Result (ShipError E) Plane)
      → (log_of k h).wal ≡ l.wal
      → (log_of k (end_transaction loads fails k l n off h t).1).wal ≡ l.wal
  wal-transaction k l n off h (err e) same = same
  wal-transaction k l n off h (ok q) same =
      ap (λ x. x.wal) (log_of-set_log k (record l { off = offset off }) (record h { plane = q }))

  wal-tail :
      (k : String) (h : Host) (tail : Result E (List Record × ℕ))
      → (log_of k (ship_tail loads fails k (log_of k h) h tail).1).wal ≡ (log_of k h).wal
  wal-tail k h (err e) = refl
  wal-tail k h (ok ([], off)) = refl
  wal-tail k h (ok (r ∷ rs, off)) =
      wal-transaction k (log_of k h) (length (r ∷ rs)) off h
        (execute_all loads fails (r ∷ rs) h.plane >>= commit loads fails) refl

  -- A shipment writes nothing to the log.
  pub wal-ship :
      (k : String) (h : Host) → (log_of k (ship loads fails k h).1).wal ≡ (log_of k h).wal
  unfolding ship
  wal-ship k h = wal-tail k h (read_new loads (log_of k h).wal (read_off (log_of k h).off))

abbrev pub wal_of : Session → Option (List ℕ)
wal_of s = (log_of s.run_id s.host).wal

-- The records of a run's events, in the order of the calls.
pub numbered : String → String → ℕ → List EventRow → List Record
numbered extractor run_id seq [] = []
numbered extractor run_id seq (row ∷ rows) =
    event ((extractor, run_id), seq) (record row { error_detail = capped row.error_detail })
    ∷ numbered extractor run_id (suc seq) rows

module _ {E : Type 0} (dumps : Record → List ℕ) (loads : List ℕ → Result E Record)
    (fails : Option Record → Plane → Option E) where
  wal-shipped :
      (s : Session) (b : Bool)
      → (log_of s.run_id (if b then (ship loads fails s.run_id s.host).1 else s.host)).wal
        ≡ (log_of s.run_id s.host).wal
  wal-shipped s true = wal-ship loads fails s.run_id s.host
  wal-shipped s false = refl

  -- A record is in the log, whether its shipment fails or not.
  wal-emit :
      (r : Record) (s : Session) → wal_of (emit dumps loads fails r s) ≡ append dumps r (wal_of s)
  unfolding emit
  wal-emit r s =
      let l = log_of s.run_id s.host in
      wal-shipped (append_log dumps loads fails r s) s.connected
      ∙ ap (λ x. x.wal) (log_of-set_log s.run_id (record l { wal = append dumps r l.wal }) s.host)

  -- `event`, called for each row
  abbrev pub record_events : List EventRow → Session → Session
  record_events [] s = s
  record_events (row ∷ rows) s = record_events rows (record_event dumps loads fails row s)

  appended :
      (before : List ℕ) (r : Record) (o : Option (List ℕ))
      → o ≡ some before
      → append dumps r o ≡ some (before ++ (dumps r ++ newline ∷ []))
  unfolding append
  appended before r o h = ap (append_bytes (dumps r ++ newline ∷ [])) h

  -- The events of a run are appended to its log as complete lines, in the order of the calls and
  -- with consecutive sequence numbers, whether or not the database takes them; the next event
  -- gets the number behind them.
  pub events_logged :
      (rows : List EventRow) (s : Session) (before : List ℕ)
      → wal_of s ≡ some before
      → (wal_of (record_events rows s)
          ≡ some (before ++ encode dumps loads (numbered s.extractor s.run_id s.seq rows)))
        × ((record_events rows s).seq ≡ s.seq + length rows)
  unfolding numbered record_event emit
  events_logged [] s before h = (h ∙ ap some (sym (append-nil before)), omega arith)
  events_logged (row ∷ rows) s before h =
      let r =
        event ((s.extractor, s.run_id), s.seq)
          (record row { error_detail = capped row.error_detail }) in
      let (logged, count) =
        events_logged rows (record_event dumps loads fails row s)
          (before ++ (dumps r ++ newline ∷ [])) (wal-emit r s ∙ appended before r (wal_of s) h) in
      (
        logged
            ∙ ap some (
                append_assoc before (dumps r ++ newline ∷ [])
                  (encode dumps loads (numbered s.extractor s.run_id (suc s.seq) rows))),
        omega (arith, count),
      )
