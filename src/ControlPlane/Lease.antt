-- ===== src/ControlPlane/Lease.antt =====
-- control_plane/store.py: the lease of an extractor. `now` is the clock of the database.
use feather_flow.Common.{
  ℕ, ◌+◌, ◌*◌, ltb, Bool, true, false, Option, none, some, String, ◌==◌, string_eq, if◌then◌else◌,
}
use feather_flow.Common.Dict.{lookup, insert}
use feather_flow.ControlPlane.{LeaseRow, Plane}

abbrev pub microseconds : ℕ → ℕ
microseconds s = s * 1000000

-- `now() + make_interval(secs => ttl_s)`
abbrev pub lease_until : String → ℕ → ℕ → LeaseRow
lease_until run_id ttl_s now = record {
  run_id = run_id;
  lease_expires_at = now + microseconds ttl_s;
}

-- The UPDATE of `lease_acquire` finds no row, or one that has lapsed.
abbrev pub may_acquire : ℕ → Option LeaseRow → Bool
may_acquire now none = true
may_acquire now (some l) = ltb l.lease_expires_at now

unfoldable pub lease_acquire : String → String → ℕ → ℕ → Plane → Bool × Plane
lease_acquire extractor run_id ttl_s now p =
    let acquired = may_acquire now (lookup extractor p.leases) in
    (
      acquired,
      (if acquired
          then record p { leases = insert extractor (lease_until run_id ttl_s now) p.leases }
          else p),
    )

abbrev pub holds : String → Option LeaseRow → Bool
holds run_id none = false
holds run_id (some l) = l.run_id == run_id

-- The UPDATE of the row of the extractor and the run.
abbrev pub expire_at : String → String → ℕ → Plane → Plane
expire_at extractor run_id time p =
    if holds run_id (lookup extractor p.leases)
    then record p {
      leases = insert extractor (record { run_id = run_id; lease_expires_at = time }) p.leases;
    }
    else p

unfoldable pub lease_renew : String → String → ℕ → ℕ → Plane → Bool × Plane
lease_renew extractor run_id ttl_s now p = (
  holds run_id (lookup extractor p.leases),
  expire_at extractor run_id (now + microseconds ttl_s) p,
)

unfoldable pub lease_release : String → String → ℕ → Plane → Plane
lease_release extractor run_id now p = expire_at extractor run_id now p
