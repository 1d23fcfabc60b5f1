-- ===== src/ControlPlane/Shipper.antt =====
-- control_plane/shipper.py and recovery.py: the projection of a log's unshipped tail, in one
-- transaction. The database may fail at a statement or at the commit: `fails` says whether it
-- does, for a record or for the commit.
use feather_flow.Common.{
  ℕ, ◌+◌, List, [], ◌∷◌, Option, none, some, String, ◌==◌, string_eq, if◌then◌else◌, length, Result,
  ok, err, ◌>>=◌, ◌>>◌,
}
use feather_flow.Common.Dict.{Dict, lookup, insert}
use feather_flow.ControlPlane.{Plane, Record}
use feather_flow.ControlPlane.Store.{ApplyError, apply}
use feather_flow.ControlPlane.Wal.{read_new}

-- The sidecar `<wal>.off`: it is not there, does not hold a number, or holds one.
pub data Sidecar : Type 0 where
  missing garbled : Sidecar
  offset : ℕ → Sidecar

-- The log of one run with its sidecar.
pub record Log : Type 0 where
  pub wal : Option (List ℕ)
  pub off : Sidecar

-- The control plane, and the logs on this host by their run.
pub record Host : Type 0 where
  pub plane : Plane
  pub logs : Dict String Log

pub data ShipError (E : Type 0) : Type 0 where
  bad_line database : E → ShipError E
  refused : ApplyError → ShipError E

-- `_read_off`
abbrev pub read_off : Sidecar → ℕ
read_off missing = 0
read_off garbled = 0
read_off (offset n) = n

abbrev pub log_or : Option Log → Log
log_or none = record { wal = none; off = missing }
log_or (some l) = l

abbrev pub log_of : String → Host → Log
log_of run_id h = log_or (lookup run_id h.logs)

abbrev pub set_log : String → Log → Host → Host
set_log run_id l h = record h { logs = insert run_id l h.logs }

module _ {E : Type 0} where
  abbrev pub raise_some : Option E → Result (ShipError E) (Unit {0})
  raise_some none = ok tt
  raise_some (some e) = err (database e)

  abbrev pub or_refused : Result ApplyError Plane → Result (ShipError E) Plane
  or_refused (ok p) = ok p
  or_refused (err e) = err (refused e)

module _ {E : Type 0} (loads : List ℕ → Result E Record)
    (fails : Option Record → Plane → Option E) where
  -- One statement of the transaction.
  abbrev pub execute : Record → Plane → Result (ShipError E) Plane
  execute r p = raise_some (fails (some r) p) >> or_refused (apply r p)

  unfoldable pub execute_all : List Record → Plane → Result (ShipError E) Plane
  execute_all [] p = ok p
  execute_all (r ∷ rs) p = execute r p >>= execute_all rs

  abbrev pub commit : Plane → Result (ShipError E) Plane
  commit p = raise_some (fails none p) >> ok p

  -- A transaction that fails is rolled back, one that is committed moves the offset.
  abbrev pub end_transaction :
      String → Log → ℕ → ℕ → Host → Result (ShipError E) Plane → Result (ShipError E) ℕ × Host
  end_transaction run_id l n new_off h (err e) = (err e, h)
  end_transaction run_id l n new_off h (ok q) =
      (ok n, set_log run_id (record l { off = offset new_off }) (record h { plane = q }))

  abbrev pub ship_tail :
      String → Log → Host → Result E (List Record × ℕ) → Result (ShipError E) ℕ × Host
  ship_tail run_id l h (err e) = (err (bad_line e), h)
  ship_tail run_id l h (ok ([], new_off)) = (ok 0, h)
  ship_tail run_id l h (ok (r ∷ rs, new_off)) =
      end_transaction run_id l (length (r ∷ rs)) new_off h (execute_all (r ∷ rs) h.plane >>= commit)

  -- `ship`
  unfoldable pub ship : String → Host → Result (ShipError E) ℕ × Host
  ship run_id h =
      let l = log_of run_id h in ship_tail run_id l h (read_new loads l.wal (read_off l.off))

  abbrev pub add_shipped : ℕ → Result (ShipError E) ℕ → ℕ
  add_shipped n (ok m) = n + m
  add_shipped n (err e) = n

  -- `replay_prior`, over the logs of the extractor in their order, after `shipped` records. A log
  -- that cannot be shipped does not stop the others.
  unfoldable pub replay_prior : String → List String → ℕ → Host → ℕ × Host
  replay_prior this [] shipped h = (shipped, h)
  replay_prior this (run_id ∷ run_ids) shipped h =
      let (r, h') = ship run_id h in
      let rest = replay_prior this run_ids (add_shipped shipped r) h' in
      if run_id == this then replay_prior this run_ids shipped h else rest
