-- ===== src/ControlPlane/Starting.antt =====
-- control_plane/run.py and recovery.py: a start that meets the lease of a live run.
use feather_flow.Common.{
  ◌≡◌, refl, sym, ap, ◌∙◌, ℕ, ◌≤◌, Bool, true, false, List, [], ◌∷◌, Option, none, some, String,
  ◌==◌, string_eq, if◌then◌else◌, Result, ok, err, ◌>>=◌, ◌>>◌, >>=-eq-ok, length,
}
use feather_flow.Common.Dict.{lookup}
use feather_flow.ControlPlane.{
  LeaseRow, Plane, Record, run_start, run_finish, event, budget, unknown,
}
use feather_flow.ControlPlane.Store.{ApplyError, write, refuse, apply}
use feather_flow.ControlPlane.Wal.{read_new}
use feather_flow.ControlPlane.Lease.{lease_acquire}
use feather_flow.ControlPlane.Holding.{fresh_refused}
use feather_flow.ControlPlane.Shipper.{
  Host, Log, ShipError, log_of, raise_some, or_refused, execute, execute_all, commit,
  end_transaction, ship_tail, ship, read_off, replay_prior, add_shipped,
}
use feather_flow.ControlPlane.Buffered.{committed-if}
use feather_flow.ControlPlane.Context.{Start, refused_start, enter, enter_with, begin_run, running}

leases-write : (r : Record) (p : Plane) → (write r p).leases ≡ p.leases
unfolding write
leases-write (run_start s) p = refl
leases-write (run_finish f) p = refl
leases-write (event k row) p = refl
leases-write (budget k row) p = refl
leases-write (unknown kind) p = refl

module _ {E : Type 0} (loads : List ℕ → Result E Record)
    (fails : Option Record → Plane → Option E) where
  leases-if :
      (r : Record) (f : Option E) (refusal : Result ApplyError (Unit {0})) (p q : Plane)
      → (raise_some f >> or_refused (refusal >> ok (write r p))) ≡ ok q
      → q.leases ≡ p.leases
  leases-if r none (ok u) p q h = ap (λ x. x.leases) (the_plane (write r p) q h) ∙ leases-write r p
    where
      the_plane : (a b : Plane) → Path (Result (ShipError E) Plane) (ok a) (ok b) → b ≡ a
      the_plane a b eq = cc
  leases-if r none (err e) p q h = cc
  leases-if r (some e) refusal p q h = cc

  leases-execute_all :
      (rs : List Record) (p q : Plane) → execute_all loads fails rs p ≡ ok q → q.leases ≡ p.leases
  unfolding execute_all apply
  leases-execute_all [] p q h = ap (λ x. x.leases) (the_same p q h)
    where
      the_same : (a b : Plane) → Path (Result (ShipError E) Plane) (ok a) (ok b) → b ≡ a
      the_same a b eq = cc
  leases-execute_all (r ∷ rs) p q h =
      let (next, first, rest) =
        >>=-eq-ok (execute loads fails r p) (execute_all loads fails rs) h in
      leases-execute_all rs next q rest ∙ leases-if r (fails (some r) p) (refuse r p) p next first

  leases-transaction :
      (k : String) (l : Log) (n off : ℕ) (h : Host) (t : Result (ShipError E) Plane)
      → ((q : Plane) → t ≡ ok q → q.leases ≡ h.plane.leases)
      → (end_transaction loads fails k l n off h t).1.plane.leases ≡ h.plane.leases
  leases-transaction k l n off h (err e) same = refl
  leases-transaction k l n off h (ok q) same = same q refl

  leases-commit :
      (rs : List Record) (p q : Plane)
      → (execute_all loads fails rs p >>= commit loads fails) ≡ ok q
      → q.leases ≡ p.leases
  leases-commit rs p q h =
      let (done, executed, committed) =
        >>=-eq-ok (execute_all loads fails rs p) (commit loads fails) h in
      ap (λ x. x.leases) (sym (committed-if loads fails (fails none done) done q committed))
      ∙ leases-execute_all rs p done executed

  leases-tail :
      (k : String) (l : Log) (h : Host) (tail : Result E (List Record × ℕ))
      → (ship_tail loads fails k l h tail).1.plane.leases ≡ h.plane.leases
  leases-tail k l h (err e) = refl
  leases-tail k l h (ok ([], off)) = refl
  leases-tail k l h (ok (r ∷ rs, off)) =
      leases-transaction k l (length (r ∷ rs)) off h
        (execute_all loads fails (r ∷ rs) h.plane >>= commit loads fails)
        (leases-commit (r ∷ rs) h.plane)

  leases-ship : (k : String) (h : Host) → (ship loads fails k h).1.plane.leases ≡ h.plane.leases
  unfolding ship
  leases-ship k h =
      leases-tail k (log_of k h) h (read_new loads (log_of k h).wal (read_off (log_of k h).off))

  leases-replayed :
      (b : Bool) (x y : ℕ × Host) (h : Host)
      → x.1.plane.leases ≡ h.plane.leases
      → y.1.plane.leases ≡ h.plane.leases
      → (if b then x else y).1.plane.leases ≡ h.plane.leases
  leases-replayed true x y h e f = e
  leases-replayed false x y h e f = f

  leases-replay_prior :
      (this : String) (ks : List String) (n : ℕ) (h : Host)
      → (replay_prior loads fails this ks n h).1.plane.leases ≡ h.plane.leases
  unfolding replay_prior
  leases-replay_prior this [] n h = refl
  leases-replay_prior this (k ∷ ks) n h =
      let (r, h') = ship loads fails k h in
      leases-replayed (k == this) (replay_prior loads fails this ks n h)
        (replay_prior loads fails this ks (add_shipped loads fails n r) h') h
        (leases-replay_prior this ks n h)
        (leases-replay_prior this ks (add_shipped loads fails n r) h' ∙ leases-ship k h)

  module _ (dumps : Record → List ℕ) where
    -- A start with a DSN that meets a lease of its extractor that has not lapsed, whichever run
    -- holds it, is refused: of the host it changes only what the replay of the other logs
    -- changes, so that no run is marked as died and no lease is touched.
    pub enter-refused :
        (a : Start) (started now : ℕ) (h : Host) (l : LeaseRow)
        → a.connected ≡ true
        → lookup a.extractor h.plane.leases ≡ some l
        → now ≤ l.lease_expires_at
        → let replayed = (replay_prior loads fails a.run_id a.wals 0 h).1 in
          (enter dumps loads fails a started now h ≡ refused_start replayed)
          × (replayed.plane.leases ≡ h.plane.leases)
    unfolding enter
    enter-refused a started now h l dsn held fresh =
        let h' = (replay_prior loads fails a.run_id a.wals 0 h).1 in
        let same = leases-replay_prior a.run_id a.wals 0 h in
        (
          ap
                (λ b.
                  if b
                  then enter_with dumps loads fails a started now h'
                      (lease_acquire a.extractor a.run_id a.lease_ttl_s now h'.plane)
                  else running (begin_run dumps loads fails a started h))
                dsn
              ∙ ap (enter_with dumps loads fails a started now h') (
                  fresh_refused a.extractor l a.run_id a.lease_ttl_s now h'.plane fresh
                    (ap (lookup a.extractor) same ∙ held)),
          same,
        )
