-- ===== src/State/Backoff.antt =====
-- Repeated failures and the backoff that they start.
use feather_flow.Common.{
  ℕ, ◌+◌, ◌*◌, ◌≡◌, ◌≢◌, ap, ◌∙◌, false, none, some, List, [], ◌∷◌, min, ltb, length, or_default,
  String, ◌==◌, string_eq, arith, ==_refl, ==_ne,
}
use feather_flow.Common.Dict.{lookup, lookup-insert, lookup-adjust}
use feather_flow.State.{Db}
use feather_flow.State.Retry.{
  minutes, backoff, failed_row, increment_retry, reset_retry, should_skip_retry,
}

abbrev pub failures : Db → String → ℕ
failures db table = elim (lookup table db.watermarks) [
  | none ↦ 0
  | some w ↦ or_default w.retry_count 0
]

-- The failures at the given times, the first first.
abbrev pub fail_at : List ℕ → String → Db → Db
fail_at [] table db = db
fail_at (t ∷ ts) table db = fail_at ts table (increment_retry t table db)

failures-failed_row :
    (t : ℕ) (table : String) (db : Db)
    → or_default (failed_row t (lookup table db.watermarks)).retry_count 0 ≡ failures db table + 1
unfolding failed_row
failures-failed_row t table db = ground arith

failures-increment :
    (t : ℕ) (table : String) (db : Db)
    → failures (increment_retry t table db) table ≡ failures db table + 1
unfolding increment_retry
failures-increment t table db =
    simp (failures, lookup-insert, ==_refl) (failures-failed_row t table db)

failures-fail_at :
    (ts : List ℕ) (table : String) (db : Db)
    → failures (fail_at ts table db) table ≡ failures db table + length ts
failures-fail_at [] table db = omega arith
failures-fail_at (t ∷ ts) table db =
    omega
      (arith, failures-fail_at ts table (increment_retry t table db), failures-increment t table db)

retry_after-failed_row :
    (t : ℕ) (table : String) (db : Db)
    → (failed_row t (lookup table db.watermarks)).retry_after
      ≡ some (t + backoff (failures db table + 1))
unfolding failed_row
retry_after-failed_row t table db = ground arith

skip-increment :
    (now t : ℕ) (table : String) (db : Db)
    → (should_skip_retry now (increment_retry t table db) table).0
      ≡ ltb now (t + backoff (failures db table + 1))
unfolding increment_retry should_skip_retry
skip-increment now t table db =
    simp (should_skip_retry, lookup-insert, ==_refl)
      (ground (arith, retry_after-failed_row t table db))

-- After any failures of a table, the last at `t`, it is skipped exactly until `t` plus 15 minutes
-- for each failure since its count was last reset, and at most 120 minutes.
pub backoff_exact :
    (now t : ℕ) (ts : List ℕ) (table : String) (db : Db)
    → (should_skip_retry now (increment_retry t table (fail_at ts table db)) table).0
      ≡ ltb now (t + minutes (min ((failures db table + length ts + 1) * 15) 120))
backoff_exact now t ts table db =
    skip-increment now t table (fail_at ts table db)
    ∙ unfold backoff in
      ap (λ n. ltb now (t + minutes (min ((n + 1) * 15) 120))) (failures-fail_at ts table db)

-- A reset ends the backoff at once and sets the count to zero; like a failure, it changes no other
-- table's watermark.
pub reset_ends_backoff :
    (now t : ℕ) (table other : String) (db : Db)
    → table ≢ other
    → (should_skip_retry now (reset_retry table db) table ≡ (false, none))
      × (failures (reset_retry table db) table ≡ 0)
      × (lookup other (reset_retry table db).watermarks ≡ lookup other db.watermarks)
      × (lookup other (increment_retry t table db).watermarks ≡ lookup other db.watermarks)
unfolding reset_retry increment_retry should_skip_retry
reset_ends_backoff now t table other db ne =
    let unlike : (table == other) ≡ false = ==_ne table other ne in
    (
      simp (should_skip_retry, lookup-adjust, ==_refl) (ground arith),
      simp (failures, lookup-adjust, ==_refl) (ground arith),
      simp (lookup-adjust, unlike),
      simp (lookup-insert, unlike),
    )
