-- ===== src/SchemaRegistry.antt =====
-- packages/feather-cdc-postgres/src/feather_cdc_postgres/schema_registry.py: the types that the
-- columns of a relation get, the signature of a relation, and the drift between two signatures.
-- `before` is the order of names, `dlt_type` what pg_replication's `_to_dlt_column_type` returns.
-- A drift keeps its kind, its column and its severity; its sentence is left out.
pub mod Agreement
pub mod Denied
mod Tests
use feather_flow.Common.{
  ℕ, ◌/◌, ◌%◌, ◌-◌, ◌+◌, nat_eq, Bool, true, false, not, ◌&&◌, ◌||◌, Option, none, some, List, [],
  ◌∷◌, ◌++◌, map, select, contains, String, ◌==◌, string_eq, if◌then◌else◌, ltb, leb,
}
use feather_flow.Common.Dict.{Dict, lookup, insert, keys}
use feather_flow.Common.Int.{ℤ, pos, negsuc, pos_part, neg_part, ltb_ℤ, ◌-ℤ◌}
use feather_flow.Common.Sets.{sort, minus}
use feather_flow.Selection.{Problem, SourceColumn, SourceRelation}

pub record DltType : Type 0 where
  pub data_type : String
  pub precision : Option ℤ
  pub scale : Option ℤ
  pub timezone : Option Bool

pub record CompiledType : Type 0 where
  pub dest_type : String
  pub precision : Option ℤ
  pub scale : Option ℤ
  pub mapping : String
  pub timezone : Option Bool

pub record CompiledColumn : Type 0 where
  pub name : String
  pub type_oid : ℕ
  pub typmod : ℤ
  pub not_null : Bool
  pub key_role : String
  pub compiled : CompiledType

-- `_MAPPING`
abbrev known_mappings : Dict ℕ String
known_mappings =
    (16, "exact")
    ∷ (17, "exact")
    ∷ (20, "exact")
    ∷ (21, "widened")
    ∷ (23, "widened")
    ∷ (25, "exact")
    ∷ (26, "widened")
    ∷ (114, "exact")
    ∷ (700, "widened")
    ∷ (701, "exact")
    ∷ (1042, "exact")
    ∷ (1043, "exact")
    ∷ (1082, "exact")
    ∷ (1083, "exact")
    ∷ (1114, "exact")
    ∷ (1184, "exact")
    ∷ (1700, "exact")
    ∷ (3802, "exact")
    ∷ (19, "exact_as_text")
    ∷ (2950, "exact_as_text")
    ∷ (1186, "lossy_text")
    ∷ (1266, "lossy_text")
    ∷ []

abbrev mapping_or : Option String → String
mapping_or none = "text_fallback"
mapping_or (some mapping) = mapping

module _ (dlt_type : ℕ → ℤ → DltType) where
  unfoldable pub compile_column : ℕ → ℤ → Bool → CompiledType
  compile_column type_oid typmod is_array =
      let t = dlt_type type_oid typmod in
      if is_array
      then record {
        dest_type = "text";
        precision = none;
        scale = none;
        mapping = "text_fallback";
        timezone = none;
      }
      else record {
        dest_type = t.data_type;
        precision = t.precision;
        scale = t.scale;
        mapping = mapping_or (lookup type_oid known_mappings);
        timezone = t.timezone;
      }

  abbrev pub compiled_column : List String → SourceColumn → CompiledColumn
  compiled_column key c = record {
    name = c.name;
    type_oid = c.type_oid;
    typmod = c.typmod;
    not_null = c.not_null;
    key_role = if contains key c.name then "key" else "none";
    compiled = compile_column c.type_oid c.typmod c.is_array;
  }

  abbrev fallbacks : List SourceColumn → List Problem
  fallbacks [] = []
  fallbacks (c ∷ cs) =
      let rest = fallbacks cs in
      if (compile_column c.type_oid c.typmod c.is_array).mapping == "text_fallback"
      then record { code = "type_fallback"; severity = "warning"; subject = c.name } ∷ rest
      else rest

  -- `compile_relation`
  abbrev pub compiled_columns : SourceRelation → List String → List CompiledColumn × List Problem
  compiled_columns relation key =
      (map (compiled_column key) relation.columns, fallbacks relation.columns)

-- What a signature holds of a column.
pub record Shape : Type 0 where
  pub type_oid : ℕ
  pub typmod : ℤ
  pub not_null : Bool
  pub dest_type : String
  pub precision : Option ℤ
  pub scale : Option ℤ
  pub mapping : String

pub record Signature : Type 0 where
  pub schema : String
  pub table : String
  pub key : List String
  pub replica_identity : String
  pub oid : ℕ
  pub columns : Dict String Shape

-- `project`
abbrev pub project : SourceRelation → List String → SourceRelation
project relation [] = relation
project relation (d ∷ ds) = record relation {
  columns = select (λ c. not (contains (d ∷ ds) c.name)) relation.columns;
}

abbrev pub kept_shapes : List String → Dict String Shape → Dict String Shape
kept_shapes exclude = select (λ (k, v). not (contains exclude k))

-- `project_signature`, on a signature that is stored
abbrev pub project_signature : Signature → List String → Signature
project_signature sig [] = sig
project_signature sig (d ∷ ds) = record sig { columns = kept_shapes (d ∷ ds) sig.columns }

abbrev pub shape_of : CompiledColumn → Shape
shape_of c = record {
  type_oid = c.type_oid;
  typmod = c.typmod;
  not_null = c.not_null;
  dest_type = c.compiled.dest_type;
  precision = c.compiled.precision;
  scale = c.compiled.scale;
  mapping = c.compiled.mapping;
}

-- `{c.name: … for c in cols}`
unfoldable pub shapes : Dict String Shape → List CompiledColumn → Dict String Shape
shapes d [] = d
shapes d (c ∷ cs) = shapes (insert c.name (shape_of c) d) cs

abbrev signature_of : (ℕ → ℤ → DltType) → SourceRelation → List String → Signature
signature_of dlt_type relation key = record {
  schema = relation.schema;
  table = relation.table;
  key = key;
  replica_identity = relation.replica_identity;
  oid = relation.oid;
  columns = shapes [] (compiled_columns dlt_type relation key).0;
}

unfoldable pub signature :
    (ℕ → ℤ → DltType) → SourceRelation → List String → List String → Signature
signature dlt_type relation key exclude = signature_of dlt_type (project relation exclude) key

abbrev pub same_ℤ : ℤ → ℤ → Bool
same_ℤ a b = pos_part a + neg_part b == pos_part b + neg_part a

abbrev is_char : ℕ → Bool
is_char oid = oid == 1043 || oid == 1042

-- `_INT_RANK`
abbrev int_rank : ℕ → Option ℕ
int_rank oid =
    if oid == 21
    then some 1
    else (if oid == 23 then some 2 else (if oid == 20 then some 3 else none))

-- `_varchar_len`
abbrev varchar_len : ℕ → ℤ → Option ℤ
varchar_len oid typmod =
    if is_char oid && not (same_ℤ typmod (negsuc 0)) then some (typmod -ℤ pos 4) else none

-- `n >> 16` and `n & 65535`
abbrev high_bits : ℤ → ℤ
high_bits (pos n) = pos (n / 65536)
high_bits (negsuc n) = negsuc (n / 65536)

abbrev low_bits : ℤ → ℕ
low_bits (pos n) = n % 65536
low_bits (negsuc n) = 65535 - n % 65536

-- `_numeric_ps`
abbrev numeric_ps : ℤ → Option (ℕ × ℕ)
numeric_ps typmod =
    let n = typmod -ℤ pos 4 in
    if same_ℤ typmod (negsuc 0) then none else some (low_bits (high_bits n), low_bits n)

abbrev longer : Option ℤ → Option ℤ → Bool
longer none new = false
longer (some old) none = true
longer (some old) (some new) = ltb_ℤ old new

abbrev more_digits : Option (ℕ × ℕ) → Option (ℕ × ℕ) → Bool
more_digits none new = false
more_digits (some old) none = true
more_digits (some (op, o_scale)) (some (np, n_scale)) =
    leb op np && (n_scale == o_scale && ltb op np)

abbrev outranks : Option ℕ → Option ℕ → Bool → Bool
outranks (some o) (some n) other = ltb o n
outranks (some o) none other = other
outranks none n other = other

-- `_is_widen`
unfoldable pub is_widen : Shape → Shape → Bool
is_widen old new =
    let o = old.type_oid in
    let n = new.type_oid in
    if o == n
    then (if is_char o
        then longer (varchar_len o old.typmod) (varchar_len n new.typmod)
        else (o == 1700 && more_digits (numeric_ps old.typmod) (numeric_ps new.typmod)))
    else outranks (int_rank o) (int_rank n) ((is_char o && n == 25) || (o == 700 && n == 701))

pub record Drift : Type 0 where
  pub kind : String
  pub column : Option String
  pub severity : String

abbrev pub drift : String → Option String → String → Drift
drift kind column severity = record { kind = kind; column = column; severity = severity }

abbrev same_dest : Option Shape → Option Shape → Bool
same_dest (some o) (some n) = o.dest_type == n.dest_type
same_dest (some o) none = false
same_dest none n = false

-- The one column that appeared where one of the same type disappeared.
abbrev pub renamed_to :
    Dict String Shape → Dict String Shape → List String → List String → Option String
renamed_to old new (d ∷ []) (a ∷ []) =
    if same_dest (lookup d old) (lookup a new) then some a else none
renamed_to old new [] added = none
renamed_to old new (d ∷ e ∷ ds) added = none
renamed_to old new (d ∷ []) [] = none
renamed_to old new (d ∷ []) (a ∷ b ∷ bs) = none

abbrev is_not_null : Option Shape → Bool
is_not_null none = false
is_not_null (some s) = s.not_null

abbrev added_column : Dict String Shape → String → Drift
added_column new name =
    if is_not_null (lookup name new)
    then drift "add_not_null_column" (some name) "warning"
    else drift "add_nullable_column" (some name) "additive"

abbrev pub one_sided : Dict String Shape → Option String → List String → List String → List Drift
one_sided new (some name) dropped added = drift "rename_column" (some name) "warning" ∷ []
one_sided new none dropped added =
    map (added_column new) added ++ map (λ name. drift "drop_column" (some name) "breaking") dropped

abbrev pub same_type : Shape → Shape → Bool
same_type o n = o.type_oid == n.type_oid && same_ℤ o.typmod n.typmod

abbrev pub retyped_column : String → Option Shape → Option Shape → List Drift → List Drift
retyped_column name (some o) (some n) rest =
    if same_type o n
    then rest
    else (if is_widen o n
        then drift "type_widen" (some name) "additive" ∷ rest
        else drift "type_incompatible" (some name) "breaking" ∷ rest)
retyped_column name (some o) none rest = rest
retyped_column name none n rest = rest

unfoldable pub retyped : Dict String Shape → Dict String Shape → List String → List Drift
retyped old new [] = []
retyped old new (name ∷ names) =
    retyped_column name (lookup name old) (lookup name new) (retyped old new names)

abbrev pub same_names : List String → List String → Bool
same_names [] [] = true
same_names [] (y ∷ ys) = false
same_names (x ∷ xs) [] = false
same_names (x ∷ xs) (y ∷ ys) = x == y && same_names xs ys

abbrev pub drift_unless : Bool → Drift → List Drift
drift_unless true d = []
drift_unless false d = d ∷ []

module _ (before : String → String → Bool) where
  abbrev pub only_in : Dict String Shape → Dict String Shape → List String
  only_in a b = sort before (minus (keys a) (keys b))

  abbrev pub in_both : Dict String Shape → Dict String Shape → List String
  in_both a b = sort before (select (contains (keys b)) (keys a))

  -- `classify_drift`
  unfoldable pub classify_drift : Signature → Signature → List Drift
  classify_drift old_sig new_sig =
      let old = old_sig.columns in
      let new = new_sig.columns in
      let dropped = only_in old new in
      let added = only_in new old in
      one_sided new (renamed_to old new dropped added) dropped added
      ++ (retyped old new (in_both old new)
          ++ (drift_unless (same_names old_sig.key new_sig.key) (drift "key_change" none "breaking")
              ++ drift_unless (old_sig.replica_identity == new_sig.replica_identity)
                  (drift "replica_identity_change" none "info")))
