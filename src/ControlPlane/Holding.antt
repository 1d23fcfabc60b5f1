-- ===== src/ControlPlane/Holding.antt =====
-- control_plane/store.py: who holds the lease of an extractor, and which runs are found dead.
use feather_flow.Common.{
  ◌≡◌, not, is_some, ◌&&◌, Option, none, refl, sym, ap, ◌∙◌, ℕ, ◌+◌, ◌≤◌, ltb, ltb→lt, Bool, true,
  false, List, [], ◌∷◌, some, String, ◌==◌, ==_refl, string_eq, if◌then◌else◌, All, arith,
}
use feather_flow.Common.Dict.{Dict, lookup, insert, lookup-insert, apply}
use feather_flow.ControlPlane.{LeaseRow, Plane, RunRow}
use feather_flow.ControlPlane.Store.{unfinished, mark_dead, reconcile_dead, is_dead, died}
use feather_flow.ControlPlane.Lease.{
  lease_acquire, lease_renew, lease_release, lease_until, may_acquire, microseconds, holds,
  expire_at,
}

-- What a run does to the lease, with its time to live and the clock.
pub data LeaseStep : Type 0 where
  acquiring renewing releasing : String → ℕ → ℕ → LeaseStep

unfoldable pub run_of : LeaseStep → String
run_of (acquiring r ttl now) = r
run_of (renewing r ttl now) = r
run_of (releasing r ttl now) = r

unfoldable pub time_of : LeaseStep → ℕ
time_of (acquiring r ttl now) = now
time_of (renewing r ttl now) = now
time_of (releasing r ttl now) = now

abbrev pub lease_step : String → LeaseStep → Plane → Plane
lease_step e (acquiring r ttl now) p = (lease_acquire e r ttl now p).1
lease_step e (renewing r ttl now) p = (lease_renew e r ttl now p).1
lease_step e (releasing r ttl now) p = lease_release e r now p

abbrev pub lease_steps : String → List LeaseStep → Plane → Plane
lease_steps e [] p = p
lease_steps e (s ∷ ss) p = lease_steps e ss (lease_step e s p)

-- A step of another run, while the lease has not lapsed.
unfoldable pub IsForeign : LeaseRow → LeaseStep → Type 0
IsForeign l s = ((l.run_id == run_of s) ≡ false) × (time_of s ≤ l.lease_expires_at)

not_lapsed : (x now : ℕ) → now ≤ x → ltb x now ≡ false
not_lapsed x now h = ground (arith, ltb→lt x now)

module _ (e : String) (l : LeaseRow) where
  pub fresh_refused :
      (r : String) (ttl now : ℕ) (p : Plane)
      → now ≤ l.lease_expires_at
      → lookup e p.leases ≡ some l
      → lease_acquire e r ttl now p ≡ (false, p)
  unfolding lease_acquire
  fresh_refused r ttl now p fresh held =
      ap
        (λ b.
          (b, (if b then record p { leases = insert e (lease_until r ttl now) p.leases } else p)))
        (ap (may_acquire now) held ∙ not_lapsed l.lease_expires_at now fresh)

  not_held :
      (r : String) (time : ℕ) (p : Plane)
      → (l.run_id == r) ≡ false
      → lookup e p.leases ≡ some l
      → expire_at e r time p ≡ p
  not_held r time p other held =
      ap
        (λ b.
          if b
          then record p {
            leases = insert e (record { run_id = r; lease_expires_at = time }) p.leases;
          }
          else p)
        (ap (holds r) held ∙ other)

  foreign-step :
      (s : LeaseStep) (p : Plane)
      → IsForeign l s
      → lookup e p.leases ≡ some l
      → lease_step e s p ≡ p
  unfolding IsForeign run_of time_of lease_acquire lease_renew lease_release
  foreign-step (acquiring r ttl now) p (other, fresh) held =
      ap (λ x. x.1) (fresh_refused r ttl now p fresh held)
  foreign-step (renewing r ttl now) p (other, fresh) held =
      not_held r (now + microseconds ttl) p other held
  foreign-step (releasing r ttl now) p (other, fresh) held = not_held r now p other held

  foreign-steps :
      (ss : List LeaseStep) (p : Plane)
      → All (IsForeign l) ss
      → lookup e p.leases ≡ some l
      → lease_steps e ss p ≡ p
  foreign-steps [] p h held = refl
  foreign-steps (s ∷ ss) p (h, hs) held =
      ap (lease_steps e ss) (foreign-step s p h held) ∙ foreign-steps ss p hs held

held-after :
    (e : String) (l : LeaseRow) (b : Bool) (p q : Plane)
    → Path
        (Bool × Plane)
        (b, (if b then record p { leases = insert e l p.leases } else p))
        (true, q)
    → lookup e q.leases ≡ some l
held-after e l true p q h =
    sym (ap (λ x. lookup e x.1.leases) h)
    ∙ lookup-insert e e l p.leases
    ∙ ap (λ b. if b then some l else lookup e p.leases) (==_refl e)
held-after e l false p q h = cc

acquired-held :
    (e r : String) (ttl now : ℕ) (p q : Plane)
    → lease_acquire e r ttl now p ≡ (true, q)
    → lookup e q.leases ≡ some (lease_until r ttl now)
unfolding lease_acquire
acquired-held e r ttl now p q h =
    held-after e (lease_until r ttl now) (may_acquire now (lookup e p.leases)) p q h

-- A run that has acquired the lease of its extractor is not displaced before the lease lapses: as
-- long as the other runs' steps, which acquire, renew or release, come before that time, the
-- control plane stays as the acquisition left it, and one more acquisition by any run is refused.
pub lease_exclusive :
    (e r : String) (ttl now : ℕ) (p q : Plane) (ss : List LeaseStep) (other : String)
    (ttl' later : ℕ)
    → lease_acquire e r ttl now p ≡ (true, q)
    → All (IsForeign (lease_until r ttl now)) ss
    → later ≤ now + microseconds ttl
    → (lease_steps e ss q ≡ q)
      × (lease_acquire e other ttl' later (lease_steps e ss q) ≡ (false, q))
lease_exclusive e r ttl now p q ss other ttl' later h foreign fresh =
    let held = acquired-held e r ttl now p q h in
    let same = foreign-steps e (lease_until r ttl now) ss q foreign held in
    (
      same,
      ap (lease_acquire e other ttl' later) same
          ∙ fresh_refused e (lease_until r ttl now) other ttl' later q fresh held,
    )

lookup-mark_dead :
    (extractor run_id : String) (now : ℕ) (k : String) (d : Dict String RunRow)
    → lookup k (mark_dead extractor run_id now d).0
      ≡ apply
          (λ row. if is_dead extractor run_id k row then died run_id now row else row)
          (lookup k d)
unfolding mark_dead lookup
lookup-mark_dead extractor run_id now k [] = refl
lookup-mark_dead extractor run_id now k ((j, row) ∷ d) = ground (
  arith,
  lookup-mark_dead extractor run_id now k d,
  string_eq.decides j k,
  ap (λ i. is_dead extractor run_id i row) {x = j} {y = k},
)

-- The row of a run after a reconciliation by the run `run_id` of the extractor.
reconciled-row :
    (extractor run_id : String) (now : ℕ) (k : String) (row : RunRow)
    → (if is_dead extractor run_id k row then died run_id now row else row) ≡ (
        if row.extractor == extractor && not (is_some row.finished_at) && not (k == run_id)
        then record row {
          status = "died";
          stop_reason = some "died";
          finished_at = some now;
          reconciled_by = some run_id;
        }
        else row)
reconciled-row extractor run_id now k row =
    ap
      (λ b.
        if row.extractor == extractor && b && not (k == run_id) then died run_id now row else row)
      (unfinished-none row.finished_at)
  where
    unfinished-none : (o : Option ℕ) → unfinished o ≡ not (is_some o)
    unfinished-none none = refl
    unfinished-none (some t) = refl

reconciled-rows :
    (extractor run_id : String) (now : ℕ) (k : String) (o : Option RunRow)
    → apply (λ row. if is_dead extractor run_id k row then died run_id now row else row) o
      ≡ apply
          (λ row.
            if row.extractor == extractor && not (is_some row.finished_at) && not (k == run_id)
            then record row {
              status = "died";
              stop_reason = some "died";
              finished_at = some now;
              reconciled_by = some run_id;
            }
            else row)
          o
reconciled-rows extractor run_id now k none = refl
reconciled-rows extractor run_id now k (some row) =
    ap some (reconciled-row extractor run_id now k row)

-- After the reconciliation exactly the rows of the extractor that had no end and are not the
-- run's own get the status and the stop reason `died`, the present time as their end and the run
-- as the one that reconciled them; every other row is as it was, and no lease, event or
-- budget is touched.
pub reconcile_dead-lookup :
    (extractor run_id : String) (now : ℕ) (p : Plane) (k : String)
    → let q = (reconcile_dead extractor run_id now p).0 in
      (lookup k q.runs
        ≡ apply
            (λ row.
              if row.extractor == extractor && not (is_some row.finished_at) && not (k == run_id)
              then record row {
                status = "died";
                stop_reason = some "died";
                finished_at = some now;
                reconciled_by = some run_id;
              }
              else row)
            (lookup k p.runs))
      × (q.leases ≡ p.leases)
      × (q.events ≡ p.events)
      × (q.budgets ≡ p.budgets)
unfolding reconcile_dead
reconcile_dead-lookup extractor run_id now p k = (
  lookup-mark_dead extractor run_id now k p.runs
      ∙ reconciled-rows extractor run_id now k (lookup k p.runs),
  refl,
  refl,
  refl,
)
