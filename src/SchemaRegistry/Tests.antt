-- ===== src/SchemaRegistry/Tests.antt =====
-- A relation with an integer and a text whose length grows.
use feather_flow.Common.{
  ◌≡◌, refl, ℕ, Bool, true, false, none, some, List, [], ◌∷◌, String, string_eq, nat_eq,
}
use feather_flow.Common.Dict.{lookup, insert}
use feather_flow.Common.Int.{ℤ, pos, negsuc, ◌-ℤ◌}
use feather_flow.Common.Sets.{sort}
use feather_flow.Selection.{SourceColumn, SourceRelation}
use feather_flow.SchemaRegistry.{
  DltType, Signature, Drift, drift, compile_column, shapes, project_signature, signature, is_widen,
  retyped, classify_drift,
}
use feather_flow.SchemaRegistry.Agreement.{type_of, undrifted_agree}
use feather_flow.SchemaRegistry.Denied.{deny_is_no_drift}

abbrev as_text : ℕ → ℤ → DltType
as_text oid typmod = record { data_type = "text"; precision = none; scale = none; timezone = none }

abbrev unsorted : String → String → Bool
unsorted a b = true

abbrev source_column : String → ℕ → ℤ → SourceColumn
source_column name type_oid typmod = record {
  name = name;
  attnum = type_oid;
  type_oid = type_oid;
  typmod = typmod;
  not_null = false;
  type_name = "";
  is_array = false;
}

abbrev orders : List SourceColumn → SourceRelation
orders columns = record {
  schema = "erp";
  table = "orders";
  oid = 16384;
  columns = columns;
  primary_key = "id" ∷ [];
  unique_indexes = [];
  replica_identity = "d";
  kind = "r";
}

abbrev id_column : SourceColumn
id_column = source_column "id" 20 (negsuc 0)

abbrev short_note : SourceRelation
short_note = orders (id_column ∷ source_column "note" 1043 (pos 14) ∷ [])

abbrev long_note : SourceRelation
long_note = orders (id_column ∷ source_column "note" 1043 (pos 24) ∷ [])

abbrev signed : SourceRelation → Signature
signed relation = signature as_text relation ("id" ∷ []) []

abbrev drifts : Signature → Signature → List Drift
drifts = classify_drift unsorted

widened :
    drifts (signed short_note) (signed long_note) ≡ drift "type_widen" (some "note") "additive" ∷ []
unfolding classify_drift signature shapes sort retyped is_widen lookup insert compile_column ◌-ℤ◌
widened = refl

narrowed :
    drifts (signed long_note) (signed short_note)
    ≡ drift "type_incompatible" (some "note") "breaking" ∷ []
unfolding classify_drift signature shapes sort retyped is_widen lookup insert compile_column ◌-ℤ◌
narrowed = refl

dropped_column :
    drifts (signed short_note) (signed (orders (id_column ∷ [])))
    ≡ drift "drop_column" (some "note") "breaking" ∷ []
unfolding classify_drift signature shapes sort retyped is_widen lookup insert compile_column
dropped_column = refl

deny_is_no_drift_example :
    (project_signature (signed short_note) ("note" ∷ [])
      ≡ signature as_text short_note ("id" ∷ []) ("note" ∷ []))
    × (drifts
          (project_signature (signed short_note) ("note" ∷ []))
          (signature as_text short_note ("id" ∷ []) ("note" ∷ []))
        ≡ [])
deny_is_no_drift_example = deny_is_no_drift as_text unsorted short_note ("id" ∷ []) ("note" ∷ [])

abbrev with_deny : Signature
with_deny = project_signature (signed short_note) ("note" ∷ [])

abbrev without_note : Signature
without_note = signed (orders (id_column ∷ []))

no_drift : drifts with_deny without_note ≡ []
unfolding classify_drift signature shapes sort retyped lookup insert compile_column
no_drift = refl

undrifted_agree_example :
    (type_of (lookup "id" with_deny.columns) ≡ type_of (lookup "id" without_note.columns))
    × (with_deny.key ≡ without_note.key)
    × (with_deny.replica_identity ≡ without_note.replica_identity)
undrifted_agree_example = undrifted_agree unsorted with_deny without_note "id" no_drift
