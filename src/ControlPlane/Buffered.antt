-- ===== src/ControlPlane/Buffered.antt =====
-- control_plane/shipper.py and recovery.py: what a shipment that fails leaves, and what one that
-- is repeated changes.
use feather_flow.Common.{
  ◌≡◌, refl, sym, ap, ◌∙◌, ℕ, List, [], ◌∷◌, Option, none, some, String, string_eq, length, Result,
  ok, err, ◌>>=◌, ◌>>◌, >>=-eq-ok,
}
use feather_flow.ControlPlane.{Plane, Record}
use feather_flow.ControlPlane.Store.{ApplyError, apply, apply_all}
use feather_flow.ControlPlane.Replay.{SameTables, SameTables-refl, reshipped}
use feather_flow.ControlPlane.Wal.{read_new}
use feather_flow.ControlPlane.Shipper.{
  Host, Log, offset, ShipError, read_off, log_of, set_log, raise_some, or_refused, execute,
  execute_all, commit, end_transaction, ship_tail, ship,
}

module _ {E : Type 0} (loads : List ℕ → Result E Record)
    (fails : Option Record → Plane → Option E) where
  failed-transaction :
      (run_id : String) (l : Log) (n off : ℕ) (h h' : Host) (e : ShipError E)
      (t : Result (ShipError E) Plane)
      → end_transaction loads fails run_id l n off h t ≡ (err e, h')
      → h' ≡ h
  failed-transaction run_id l n off h h' e (err e') eq = sym (ap (λ x. x.1) eq)
  failed-transaction run_id l n off h h' e (ok q) eq = cc

  failed-tail :
      (run_id : String) (l : Log) (h h' : Host) (e : ShipError E)
      (tail : Result E (List Record × ℕ))
      → ship_tail loads fails run_id l h tail ≡ (err e, h')
      → h' ≡ h
  failed-tail run_id l h h' e (err e') eq = sym (ap (λ x. x.1) eq)
  failed-tail run_id l h h' e (ok ([], off)) eq = cc
  failed-tail run_id l h h' e (ok (r ∷ rs, off)) eq =
      failed-transaction run_id l (length (r ∷ rs)) off h h' e
        (execute_all loads fails (r ∷ rs) h.plane >>= commit loads fails) eq

  -- A shipment that raises, for a line that is no JSON, for a record that is refused or for the
  -- database, leaves the control plane, the log and its offset as they were.
  pub ship-failed :
      (run_id : String) (h h' : Host) (e : ShipError E)
      → ship loads fails run_id h ≡ (err e, h')
      → h' ≡ h
  unfolding ship
  ship-failed run_id h h' e eq =
      let l = log_of run_id h in
      failed-tail run_id l h h' e (read_new loads l.wal (read_off l.off)) eq

  executed-if :
      (f : Option E) (a : Result ApplyError Plane) (q : Plane)
      → (raise_some f >> or_refused a) ≡ ok q
      → a ≡ ok q
  executed-if none (ok p) q h = cc
  executed-if none (err e) q h = cc
  executed-if (some e) a q h = cc

  pub committed-if : (f : Option E) (p q : Plane) → (raise_some f >> ok p) ≡ ok q → p ≡ q
  committed-if none p q h = cc
  committed-if (some e) p q h = cc

  executed_all :
      (rs : List Record) (p q : Plane) → execute_all loads fails rs p ≡ ok q → apply_all rs p ≡ ok q
  unfolding execute_all apply_all
  executed_all [] p q h = cc
  executed_all (r ∷ rs) p q h =
      let (next, first, rest) =
        >>=-eq-ok (execute loads fails r p) (execute_all loads fails rs) h in
      ap (λ x. x >>= apply_all rs) (executed-if (fails (some r) p) (apply r p) next first)
      ∙ executed_all rs next q rest

  module _ (works : (r : Option Record) (p : Plane) → fails r p ≡ none) where
    works_all :
        (rs : List Record) (p q : Plane)
        → apply_all rs p ≡ ok q
        → execute_all loads fails rs p ≡ ok q
    unfolding execute_all apply_all
    works_all [] p q h = cc
    works_all (r ∷ rs) p q h =
        let (next, first, rest) = >>=-eq-ok (apply r p) (apply_all rs) h in
        ap (λ f. (raise_some f >> or_refused (apply r p)) >>= execute_all loads fails rs)
          (works (some r) p)
        ∙ ap (λ a. or_refused a >>= execute_all loads fails rs) first
        ∙ works_all rs next q rest

    again-transaction :
        (run_id : String) (l : Log) (n m off : ℕ) (h h' : Host) (rs : List Record)
        (t : Result (ShipError E) Plane)
        → (execute_all loads fails rs h.plane >>= commit loads fails) ≡ t
        → end_transaction loads fails run_id l m off h t ≡ (ok n, h')
        → (again : Host) × (end_transaction loads fails run_id l m off
              (record h' { logs = h.logs })
              (execute_all loads fails rs h'.plane >>= commit loads fails)
            ≡ (ok n, again))
          × SameTables again.plane h'.plane
    again-transaction run_id l n m off h h' rs (err e) t eq = cc
    again-transaction run_id l n m off h h' rs (ok q) t eq =
        let (p, executed, committed) =
          >>=-eq-ok (execute_all loads fails rs h.plane) (commit loads fails) t in
        let first =
          executed_all rs h.plane p executed
          ∙ ap ok (committed-if (fails none p) p q committed ∙ ap (λ x. x.1.plane) eq) in
        let (a, applied, same) = reshipped rs h.plane h'.plane first in
        (
          set_log run_id (record l { off = offset off }) (record { plane = a; logs = h.logs }),
          ap
                (λ x.
                  end_transaction loads fails run_id l m off (record h' { logs = h.logs })
                    (x >>= commit loads fails))
                (works_all rs h'.plane a applied)
              ∙ ap
                  (λ f.
                    end_transaction loads fails run_id l m off (record h' { logs = h.logs })
                      (raise_some f >> ok a))
                  (works none a)
              ∙ ap
                  (λ r. (
                    r,
                    set_log run_id (record l { off = offset off })
                        (record { plane = a; logs = h.logs }),
                  ))
                  (ap (λ x. x.0) eq),
          same,
        )

    again-tail :
        (run_id : String) (l : Log) (n : ℕ) (h h' : Host) (tail : Result E (List Record × ℕ))
        → ship_tail loads fails run_id l h tail ≡ (ok n, h')
        → (again : Host) × (ship_tail loads fails run_id l (record h' { logs = h.logs }) tail
            ≡ (ok n, again))
          × SameTables again.plane h'.plane
    again-tail run_id l n h h' (err e) eq = cc
    again-tail run_id l n h h' (ok ([], off)) eq = (
      record h' { logs = h.logs },
      ap (λ r. (r, record h' { logs = h.logs })) (ap (λ x. x.0) eq),
      SameTables-refl h'.plane,
    )
    again-tail run_id l n h h' (ok (r ∷ rs, off)) eq =
        again-transaction run_id l n (length (r ∷ rs)) off h h' (r ∷ rs)
          (execute_all loads fails (r ∷ rs) h.plane >>= commit loads fails) refl eq

    -- A shipment whose offset was lost, so that the sidecars are as before it, is repeated with
    -- the same number of records and changes no row of a run, an event or a budget, when the
    -- database does not fail.
    pub ship-again :
        (run_id : String) (n : ℕ) (h h' : Host)
        → ship loads fails run_id h ≡ (ok n, h')
        → (again : Host) × (ship loads fails run_id (record h' { logs = h.logs }) ≡ (ok n, again))
          × SameTables again.plane h'.plane
    unfolding ship
    ship-again run_id n h h' eq =
        let l = log_of run_id h in
        again-tail run_id l n h h' (read_new loads l.wal (read_off l.off)) eq
