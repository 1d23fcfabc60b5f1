-- ===== src/DriftScan/Held.antt =====
-- drift.py: a changed merge key keeps a relation out until its baseline.
use feather_flow.Common.{
  ◌≡◌, ◌==◌, All, refl, sym, ap, ◌∙◌, Bool, true, false, ◌||◌, none, some, List, [], ◌∷◌, ◌++◌, map,
  contains, contains-append, String, ==_refl, string_eq, pair_eq, arith, Result, ok, err,
}
use feather_flow.Common.Dict.{Dict, lookup}
use feather_flow.Selection.{SourceRelation, Relation}
use feather_flow.Lifecycle.{Lifecycle, LifecycleError, state_of, ensure}
use feather_flow.Lifecycle.Paths.{state_of-ensure}
use feather_flow.Common.Action.{and_then-ok}
use feather_flow.Publication.{Name}
use feather_flow.SchemaRegistry.{
  Signature, Drift, drift, drift_unless, same_names, project_signature, one_sided, renamed_to,
  retyped, only_in, in_both, classify_drift,
}
use feather_flow.DriftScan.Untouched.{round-Untouched, loop-Untouched}
use feather_flow.DriftScan.{
  DriftOutcome, Lasting, Scan, Denials, scan_loop, scan_relations, scan_start, outcome_or,
  relation_pair, baseline_due, is_pending, has_kind, ensure_result, block_key_change, chosen_action,
  is_withheld, block, emit_event, note_drifts, act_on, own_denials, drifts_since, scan_found,
}

kinds-append :
    (xs ys : List Drift)
    → map (λ d. d.kind) (xs ++ ys) ≡ map (λ d. d.kind) xs ++ map (λ d. d.kind) ys
kinds-append [] ys = refl
kinds-append (x ∷ xs) ys = ap (λ zs. x.kind ∷ zs) (kinds-append xs ys)

has_kind-append :
    (k : String) (xs ys : List Drift) → has_kind k (xs ++ ys) ≡ (has_kind k xs || has_kind k ys)
has_kind-append k xs ys =
    ap (λ zs. contains zs k) (kinds-append xs ys)
    ∙ contains-append (map (λ d. d.kind) xs) (map (λ d. d.kind) ys) k

-- A changed merge key is among the drifts.
classify_drift-key :
    (before : String → String → Bool) (old new : Signature)
    → same_names old.key new.key ≡ false
    → has_kind "key_change" (classify_drift before old new) ≡ true
unfolding classify_drift
classify_drift-key before old new h =
    let a = old.columns in
    let b = new.columns in
    let dropped = only_in before a b in
    let added = only_in before b a in
    let sides = one_sided b (renamed_to a b dropped added) dropped added in
    let types = retyped a b (in_both before a b) in
    let key_drift = drift "key_change" none "breaking" in
    let keyed = drift_unless (same_names old.key new.key) key_drift in
    let identity =
      drift_unless (old.replica_identity == new.replica_identity)
        (drift "replica_identity_change" none "info") in
    let is_keyed = ap (λ b. has_kind "key_change" (drift_unless b key_drift)) h in
    ground (
      arith,
      has_kind-append "key_change" sides (types ++ (keyed ++ identity)),
      has_kind-append "key_change" types (keyed ++ identity),
      has_kind-append "key_change" keyed identity,
      is_keyed,
    )

project_signature-key : (s : Signature) (own : List String) → (project_signature s own).key ≡ s.key
project_signature-key s [] = refl
project_signature-key s (d ∷ ds) = refl

abbrev blocked_of : Result LifecycleError DriftOutcome → List Name
blocked_of (ok out) = out.blocked
blocked_of (err e) = []

-- A changed key whose round returns.
abbrev Held : Relation → Scan → Scan → Type 0
Held rel s s' =
    (s'.signatures ≡ s.signatures)
    × (contains s'.blocked (relation_pair rel) ≡ true)
    × (state_of (relation_pair rel) s'.lifecycle ≡ some "resnapshot_required")

blocked-Held : (rel : Relation) (s s' : Scan) → block_key_change rel s ≡ (ok tt, s') → Held rel s s'
blocked-Held rel s s' h =
    let mid =
      emit_event rel "error" "schema_drift" "publication_removed" (block (relation_pair rel) s) in
    cases mid (ensure (relation_pair rel) "resnapshot_required" (some "key change") mid.lifecycle)
      (ground (arith, ==_refl (relation_pair rel)))
      (λ l e.
        state_of-ensure (relation_pair rel) "resnapshot_required" (some "key change") mid.lifecycle
          l e)
      h
  where
    cases :
        (mid : Scan) (r : Result LifecycleError Lifecycle)
        → contains mid.blocked (relation_pair rel) ≡ true
        → ((l : Lifecycle) → r ≡ ok l → state_of (relation_pair rel) l ≡ some "resnapshot_required")
        → ensure_result r mid ≡ (ok tt, s')
        → Held rel mid s'
    cases mid (ok l) there reached h = (
      sym (ap (λ q. q.1.signatures) h),
      ap (λ q. contains q.1.blocked (relation_pair rel)) (sym h) ∙ there,
      ap (λ q. state_of (relation_pair rel) q.1.lifecycle) (sym h) ∙ reached l refl,
    )
    cases mid (err e) there reached h = cc

acted-Held :
    (rel : Relation) (new : Signature) (own : List String) (ds : List Drift) (s s' : Scan)
    → has_kind "key_change" ds ≡ true
    → baseline_due (relation_pair rel) s ≡ false
    → act_on rel new own ds s ≡ (ok tt, s')
    → Held rel s s'
unfolding act_on
acted-Held rel new own [] s s' k due h = cc
acted-Held rel new own (d ∷ ds) s s' k due h =
    let mid = note_drifts (relation_pair rel) (d ∷ ds) s in
    let w = is_withheld own (d ∷ ds) in
    blocked-Held rel mid s' (
      sym (
        ap (λ p. chosen_action p (has_kind "key_change" (d ∷ ds)) w rel new (d ∷ ds) mid) due
        ∙ ap (λ b. chosen_action false b w rel new (d ∷ ds) mid) k)
      ∙ h)

module _ (before : String → String → Bool) (cfg : Denials)
    (sources : Dict String SourceRelation) where
  round-Held :
      (stored : Dict Name Signature) (rel : Relation) (old new : Signature) (s s' : Scan)
      → lookup (relation_pair rel) stored ≡ some old
      → same_names old.key new.key ≡ false
      → baseline_due (relation_pair rel) s ≡ false
      → scan_found before cfg sources stored rel (some new) s ≡ (ok tt, s')
      → Held rel s s'
  round-Held stored rel old new s s' found changed due h =
      let own = own_denials before cfg sources rel in
      let keys = ap (λ k. same_names k new.key) (project_signature-key old own) ∙ changed in
      acted-Held rel new own (classify_drift before (project_signature old own) new) s s'
        (classify_drift-key before (project_signature old own) new keys) due
        (sym (ap (λ o. act_on rel new own (drifts_since before cfg sources o new own) s) found) ∙ h)

  -- What the loop leaves for a relation with a changed key.
  abbrev Kept : Relation → Scan → Scan → Type 0
  Kept rel s s' =
      (lookup (relation_pair rel) s'.signatures ≡ lookup (relation_pair rel) s.signatures)
      × (contains s'.blocked (relation_pair rel) ≡ true)
      × (state_of (relation_pair rel) s'.lifecycle ≡ some "resnapshot_required")

  loop-Kept :
      (stored sigs : Dict Name Signature) (front rest : List Relation) (rel : Relation)
      (old new : Signature) (s s' : Scan)
      → lookup (relation_pair rel) stored ≡ some old
      → lookup (relation_pair rel) sigs ≡ some new
      → same_names old.key new.key ≡ false
      → baseline_due (relation_pair rel) s ≡ false
      → All (λ r. (relation_pair r == relation_pair rel) ≡ false) front
      → All (λ r. (relation_pair r == relation_pair rel) ≡ false) rest
      → scan_loop before cfg sources stored sigs (front ++ (rel ∷ rest)) s ≡ (ok tt, s')
      → Kept rel s s'
  unfolding scan_loop
  loop-Kept stored sigs [] rest rel old new s s' found fresh changed due fronts rests h =
      let p = relation_pair rel in
      let round = scan_found before cfg sources stored rel (lookup p sigs) s in
      let (u, done, h') =
        and_then-ok round.0 (λ u. scan_loop before cfg sources stored sigs rest) round.1 s' tt h in
      let (a, b, c) = round-Held stored rel old new s round.1 found changed due (
        sym (ap (λ o. scan_found before cfg sources stored rel o s) fresh)
        ∙ ap (λ r. (r, round.1)) done) in
      let (d, e, f) = loop-Untouched before cfg sources stored sigs p rest round.1 s' rests h' in
      (d ∙ ap (lookup p) a, f b, e ∙ c)
  loop-Kept stored sigs (r ∷ front) rest rel old new s s' found fresh changed due (apart, fronts)
        rests h =
      let p = relation_pair rel in
      let o = lookup (relation_pair r) sigs in
      let round = scan_found before cfg sources stored r o s in
      let (u, done, h') =
        and_then-ok round.0 (λ u. scan_loop before cfg sources stored sigs (front ++ (rel ∷ rest)))
          round.1 s' tt h in
      let (a, b, c) = round-Untouched before cfg sources stored p r o s apart in
      let (d, e, f) =
        loop-Kept stored sigs front rest rel old new round.1 s' found fresh changed
          (ap is_pending b ∙ due) fronts rests h' in
      (d ∙ a, e, f)

  -- A relation whose stored signature has another merge key than its fresh one, for which no
  -- baseline is due and which is scanned once, is blocked in the outcome of a scan that returns; its
  -- stored signature stands, whatever the other relations' drifts, and its state is
  -- resnapshot_required, for which no baseline is due either: the next scan finds the change again.
  pub key_change_held :
      (sigs : Dict Name Signature) (front rest : List Relation) (rel : Relation)
      (old new : Signature) (k k' : Lasting) (out : DriftOutcome)
      → lookup (relation_pair rel) k.signatures ≡ some old
      → lookup (relation_pair rel) sigs ≡ some new
      → same_names old.key new.key ≡ false
      → baseline_due (relation_pair rel) (scan_start before cfg sources k) ≡ false
      → All (λ r. (relation_pair r == relation_pair rel) ≡ false) front
      → All (λ r. (relation_pair r == relation_pair rel) ≡ false) rest
      → scan_relations before cfg sources sigs (front ++ (rel ∷ rest)) k ≡ (ok out, k')
      → (contains out.blocked (relation_pair rel) ≡ true)
        × (lookup (relation_pair rel) k'.signatures ≡ some old)
        × (state_of (relation_pair rel) k'.lifecycle ≡ some "resnapshot_required")
  unfolding scan_relations
  key_change_held sigs front rest rel old new k k' out found fresh changed due fronts rests h =
      let start = scan_start before cfg sources k in
      let loop = scan_loop before cfg sources k.signatures sigs (front ++ (rel ∷ rest)) start in
      let (ended, same) = returned loop.0 loop.1 out (ap (λ q. q.0) h) in
      let (a, b, c) =
        loop-Kept k.signatures sigs front rest rel old new start loop.1 found fresh changed due
          fronts rests (ap (λ r. (r, loop.1)) ended) in
      (
        ap (λ bs. contains bs (relation_pair rel)) same ∙ b,
        ap (λ q. lookup (relation_pair rel) q.1.signatures) (sym h) ∙ a ∙ found,
        ap (λ q. state_of (relation_pair rel) q.1.lifecycle) (sym h) ∙ c,
      )
    where
      returned :
          (r : Result LifecycleError (Unit {0})) (s : Scan) (out : DriftOutcome)
          → outcome_or before cfg sources r s ≡ ok out
          → (r ≡ ok tt) × (out.blocked ≡ s.blocked)
      returned (ok u) s out h = (refl, ap blocked_of (sym h))
      returned (err e) s out h = cc
