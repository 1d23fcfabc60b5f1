-- ===== src/DriftScan/Untouched.antt =====
-- drift.py: what a scan does about one relation leaves the others alone.
use feather_flow.Common.{
  ◌≡◌, Option, if◌then◌else◌, ◌==◌, All, refl, ap, subst, ◌∙◌, Bool, true, false, none, some, List,
  [], ◌∷◌, contains, String, string_eq, pair_eq, arith, Result, ok, err,
}
use feather_flow.Common.Dict.{Dict, lookup, lookup-insert}
use feather_flow.Selection.{SourceRelation, Relation}
use feather_flow.Lifecycle.{Lifecycle, LifecycleError, state_of, ensure}
use feather_flow.Lifecycle.Paths.{state_of-other}
use feather_flow.Common.Action.{and_then-ok, modify}
use feather_flow.Publication.{Name}
use feather_flow.SchemaRegistry.{Signature, Drift}
use feather_flow.DriftScan.{
  Scan, Denials, ensure_state, write_signature, add_review, review_breaking, evolve, joined,
  breaking_of, has_any, scan_loop, relation_pair, baseline_due, has_kind, ensure_result,
  chosen_action, is_withheld, block, emit_event, note_drifts, act_on, own_denials, drifts_since,
  scan_found,
}

-- What the rounds of other relations leave of a relation's pair.
abbrev pub Untouched : Name → Scan → Scan → Type 0
Untouched p s s' =
    (lookup p s'.signatures ≡ lookup p s.signatures)
    × (state_of p s'.lifecycle ≡ state_of p s.lifecycle)
    × (contains s.blocked p ≡ true → contains s'.blocked p ≡ true)

pub then-Untouched : (p : Name) (s t u : Scan) → Untouched p s t → Untouched p t u → Untouched p s u
then-Untouched p s t u (a, b, c) (d, e, f) = (d ∙ a, e ∙ b, λ h. f (c h))

ensure-other :
    (p q : Name) (state detail : String) (l l' : Lifecycle)
    → (q == p) ≡ false
    → ensure q state (some detail) l ≡ ok l'
    → state_of p l' ≡ state_of p l
ensure-other p q state detail l l' apart h = state_of-other q p state (some detail) l l' h apart

ensured-Untouched :
    (p : Name) (rel : Relation) (state detail : String) (s : Scan)
    → (relation_pair rel == p) ≡ false
    → Untouched p s (ensure_state rel state detail s).1
ensured-Untouched p rel state detail s apart =
    cases (ensure (relation_pair rel) state (some detail) s.lifecycle)
      (λ l h. ensure-other p (relation_pair rel) state detail s.lifecycle l apart h)
  where
    cases :
        (r : Result LifecycleError Lifecycle)
        → ((l : Lifecycle) → r ≡ ok l → state_of p l ≡ state_of p s.lifecycle)
        → Untouched p s (ensure_result r s).1
    cases (ok l) same = (refl, same l refl, λ h. h)
    cases (err e) same = (refl, refl, λ h. h)

written-Untouched :
    (p : Name) (rel : Relation) (new : Signature) (s : Scan)
    → (relation_pair rel == p) ≡ false
    → Untouched p s (write_signature (relation_pair rel) new s)
written-Untouched p rel new s apart = (
  lookup-insert (relation_pair rel) p new s.signatures
      ∙ ap (λ b. if b then some new else lookup p s.signatures) apart,
  refl,
  λ h. h,
)

evolved-Untouched :
    (b : Bool) (p : Name) (rel : Relation) (ds : List Drift) (s : Scan)
    → (relation_pair rel == p) ≡ false
    → Untouched p s
        ((if b
            then review_breaking rel ds
            else modify (emit_event rel "ok" "schema_drift" "auto_evolved"))
          s).1
evolved-Untouched true p rel ds s apart =
    let s' =
      emit_event rel "error" "schema_drift" "kept_loading" (add_review (relation_pair rel) s) in
    ensured-Untouched p rel "drift_review" (joined (breaking_of ds)) s' apart
evolved-Untouched false p rel ds s apart = (refl, refl, λ h. h)

chosen-Untouched :
    (due key withheld : Bool) (p : Name) (rel : Relation) (new : Signature) (ds : List Drift)
    (s : Scan)
    → (relation_pair rel == p) ≡ false
    → Untouched p s (chosen_action due key withheld rel new ds s).1
chosen-Untouched true key withheld p rel new ds s apart = written-Untouched p rel new s apart
chosen-Untouched false true withheld p rel new ds s apart =
    let s' =
      emit_event rel "error" "schema_drift" "publication_removed" (block (relation_pair rel) s) in
    then-Untouched p s s' (ensure_state rel "resnapshot_required" "key change" s').1
      (refl, refl, λ h. ground (arith, h))
      (ensured-Untouched p rel "resnapshot_required" "key change" s' apart)
chosen-Untouched false false true p rel new ds s apart =
    let s' =
      emit_event rel "error" "deny_columns" "withheld_pending_review"
        (add_review (relation_pair rel) s) in
    ensured-Untouched p rel "drift_review" "new column on a denied table" s' apart
chosen-Untouched false false false p rel new ds s apart =
    let s' = write_signature (relation_pair rel) new s in
    then-Untouched p s s' (evolve rel new ds s).1 (written-Untouched p rel new s apart)
      (evolved-Untouched (has_any (breaking_of ds)) p rel ds s' apart)

pub acted-Untouched :
    (p : Name) (rel : Relation) (new : Signature) (own : List String) (ds : List Drift) (s : Scan)
    → (relation_pair rel == p) ≡ false
    → Untouched p s (act_on rel new own ds s).1
unfolding act_on
acted-Untouched p rel new own [] s apart = written-Untouched p rel new s apart
acted-Untouched p rel new own (d ∷ ds) s apart =
    let s' = note_drifts (relation_pair rel) (d ∷ ds) s in
    chosen-Untouched (baseline_due (relation_pair rel) s') (has_kind "key_change" (d ∷ ds))
      (is_withheld own (d ∷ ds)) p rel new (d ∷ ds) s' apart

module _ (before : String → String → Bool) (cfg : Denials)
    (sources : Dict String SourceRelation) where
  pub round-Untouched :
      (stored : Dict Name Signature) (p : Name) (rel : Relation) (o : Option Signature) (s : Scan)
      → (relation_pair rel == p) ≡ false
      → Untouched p s (scan_found before cfg sources stored rel o s).1
  round-Untouched stored p rel none s apart = (refl, refl, λ h. h)
  round-Untouched stored p rel (some new) s apart =
      let own = own_denials before cfg sources rel in
      acted-Untouched p rel new own
        (drifts_since before cfg sources (lookup (relation_pair rel) stored) new own) s apart

  pub loop-Untouched :
      (stored sigs : Dict Name Signature) (p : Name) (rels : List Relation) (s s' : Scan)
      → All (λ r. (relation_pair r == p) ≡ false) rels
      → scan_loop before cfg sources stored sigs rels s ≡ (ok tt, s')
      → Untouched p s s'
  unfolding scan_loop
  loop-Untouched stored sigs p [] s s' apart h =
      subst (Untouched p s) (ap (λ q. q.1) h) (refl, refl, λ k. k)
  loop-Untouched stored sigs p (r ∷ rels) s s' (apart, aparts) h =
      let found = lookup (relation_pair r) sigs in
      let round = scan_found before cfg sources stored r found s in
      let (u, done, h') =
        and_then-ok round.0 (λ u. scan_loop before cfg sources stored sigs rels) round.1 s' tt h in
      then-Untouched p s round.1 s' (round-Untouched stored p r found s apart)
        (loop-Untouched stored sigs p rels round.1 s' aparts h')
