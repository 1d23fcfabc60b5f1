-- ===== src/Selection/Compile.antt =====
-- selectors.py: `compile` and `diff_publication`.
use feather_flow.Common.{
  Bool, true, false, not, ◌&&◌, Option, none, some, List, [], ◌∷◌, ◌++◌, map, select, String, ◌==◌,
  string_eq, pair_eq, if◌then◌else◌,
}
use feather_flow.Common.Dict.{Dict, lookup, insert, has, keys}
use feather_flow.Common.Sets.{distinct, minus, sort}
use feather_flow.Common.Text.{◌<>◌}
use feather_flow.Curation.{join}
use feather_flow.Selection.{
  Problem, SourceRelation, AdapterRelation, Manifest, Relation, qualified, qualified_of, target,
  matches, included, target_schema_of,
}
use feather_flow.Selection.Keys.{KeyChoice, problem, key_for, deny_columns_for, table_class_of}

-- The functions of Python: `fnmatchcase`, the search for a secret-bearing name, `sha256` of a text,
-- and the orders of texts and of pairs.
pub record Python : Type 0 where
  pub fnmatch : String → String → Bool
  pub is_secret : String → Bool
  pub sha256 : String → String
  pub text_before : String → String → Bool
  pub name_before : String × String → String × String → Bool

pub record CompiledPlan : Type 0 where
  pub relations : List Relation
  pub selection_hash : String
  pub publication_add : List (String × String)
  pub publication_drop : List (String × String)
  pub replica_identity_alters : List (String × String)
  pub denied_hits : List String
  pub problems : List Problem

-- What the loop over the catalog makes of a relation.
pub data Verdict : Type 0 where
  passed_over parent_skipped denied_hit candidate : Verdict

abbrev pub name_of : SourceRelation → String × String
name_of r = (r.schema, r.table)

abbrev pub pair_of : Relation → String × String
pair_of r = (r.schema, r.table)

-- `{r.qualified: r for r in …}`
unfoldable pub by_qualified :
    Dict String SourceRelation → List SourceRelation → Dict String SourceRelation
by_qualified d [] = d
by_qualified d (r ∷ rs) = by_qualified (insert (qualified_of r) r d) rs

unfoldable pub adapter_meta :
    Dict String AdapterRelation → List AdapterRelation → Dict String AdapterRelation
adapter_meta d [] = d
adapter_meta d (a ∷ adapters) = adapter_meta (insert (qualified a.schema a.table) a d) adapters

module _ (py : Python) (m : Manifest) where
  -- Of the adapter's relations, `none` where the manifest names no adapter.
  abbrev pub is_allowed : Option (Dict String AdapterRelation) → String → Bool
  is_allowed none name = true
  is_allowed (some meta) name = has meta name

  abbrev pub is_wanted : Option (Dict String AdapterRelation) → SourceRelation → Bool
  is_wanted meta rel =
      included py.fnmatch (qualified_of rel) rel.schema m.include
      && (not (matches py.fnmatch (qualified_of rel) rel.schema m.exclude)
          && is_allowed meta (qualified_of rel))

  unfoldable pub verdict : Option (Dict String AdapterRelation) → SourceRelation → Verdict
  verdict meta rel =
      if not (is_wanted meta rel)
      then passed_over
      else if rel.kind == "p"
      then parent_skipped
      else if matches py.fnmatch (qualified_of rel) rel.schema m.deny
      then denied_hit
      else candidate

  abbrev pub is_candidate : Verdict → Bool
  is_candidate candidate = true
  is_candidate passed_over = false
  is_candidate parent_skipped = false
  is_candidate denied_hit = false

  abbrev pub is_denied_hit : Verdict → Bool
  is_denied_hit denied_hit = true
  is_denied_hit passed_over = false
  is_denied_hit parent_skipped = false
  is_denied_hit candidate = false

  abbrev pub is_parent_skipped : Verdict → Bool
  is_parent_skipped parent_skipped = true
  is_parent_skipped passed_over = false
  is_parent_skipped denied_hit = false
  is_parent_skipped candidate = false

  abbrev pub meta_of : Option (Dict String AdapterRelation) → String → Option AdapterRelation
  meta_of none name = none
  meta_of (some meta) name = lookup name meta

  abbrev pub module_of : Option AdapterRelation → Option String
  module_of none = none
  module_of (some a) = a.module_name

  abbrev pub description_of : Option AdapterRelation → Option String
  description_of none = none
  description_of (some a) = a.description

  abbrev pub origin_of : Option AdapterRelation → Option String
  origin_of none = none
  origin_of (some a) = a.origin

  abbrev pub relation_of :
      SourceRelation → Option AdapterRelation → KeyChoice → List String → Relation
  relation_of rel meta k denied = record {
    schema = rel.schema;
    table = rel.table;
    key = k.key;
    key_policy = k.policy;
    table_class = table_class_of py.fnmatch m rel.schema rel.table (origin_of meta);
    module_name = module_of meta;
    target_schema = target_schema_of py.fnmatch m rel.schema rel.table;
    key_index = k.index_name;
    description = description_of meta;
    origin = origin_of meta;
    deny_columns = denied;
  }

  abbrev pub with_columns :
      SourceRelation
      → Option AdapterRelation
      → KeyChoice
      → Option (List String) × List Problem
      → List Relation × List Problem
  with_columns rel meta k (none, problems) = ([], k.problems ++ problems)
  with_columns rel meta k (some denied, problems) =
      (relation_of rel meta k denied ∷ [], k.problems ++ problems)

  -- A candidate that keeps a key and whose denied columns can be withheld.
  unfoldable pub compile_relation :
      SourceRelation → Option AdapterRelation → List Relation × List Problem
  compile_relation rel meta =
      let k = key_for m rel in
      if k.keep
      then with_columns rel meta k (deny_columns_for py.text_before py.is_secret m rel k.key)
      else ([], k.problems)

  unfoldable pub compile_relations :
      Option (Dict String AdapterRelation) → List SourceRelation → List Relation × List Problem
  compile_relations meta [] = ([], [])
  compile_relations meta (rel ∷ rels) =
      let (rs, ps) = compile_relation rel (meta_of meta (qualified_of rel)) in
      let (more, others) = compile_relations meta rels in (rs ++ more, ps ++ others)

  -- The loop over the targets; a name that was seen is never the empty text.
  unfoldable pub collisions : Dict String String → List Relation → List Problem
  collisions seen [] = []
  collisions seen (r ∷ rs) =
      let rest = collisions (insert (target r) (qualified r.schema r.table) seen) rs in
      if has seen (target r) then problem "target_collision" "error" (target r) ∷ rest else rest

  -- `diff_publication`
  unfoldable pub diff_publication :
      List (String × String)
      → Option (List (String × String))
      → List (String × String) × List (String × String)
  diff_publication desired none = (sort py.name_before (distinct desired), [])
  diff_publication desired (some published) = (
    sort py.name_before (minus (distinct desired) published),
    sort py.name_before (minus published desired),
  )

  abbrev pub needs_full : Option SourceRelation → Bool
  needs_full none = false
  needs_full (some rel) = not (rel.replica_identity == "f")

  abbrev pub hash_line : Relation → String
  hash_line r =
      qualified r.schema r.table
      <> "|"
      <> join "," r.key
      <> "|"
      <> r.key_policy
      <> deny_text r.deny_columns
    where
      deny_text : List String → String
      deny_text [] = ""
      deny_text (c ∷ cs) = "|deny=" <> join "," (c ∷ cs)

  -- `selection_hash`
  unfoldable pub selection_hash_of : List Relation → String
  selection_hash_of relations =
      py.sha256 (join "\n" (sort py.text_before (map hash_line relations)))

  abbrev pub adapters : List AdapterRelation → Option (Dict String AdapterRelation)
  adapters found = if m.has_discovery then some (adapter_meta [] found) else none

  abbrev pub phantoms :
      Option (Dict String AdapterRelation) → Dict String SourceRelation → List Problem
  phantoms none known = []
  phantoms (some meta) known =
      map (problem "adapter_phantom" "warning")
        (sort py.text_before (minus (keys meta) (keys known)))

  -- The catalog in the order of its names: `sort_relations` is `sorted` with `name_of`.
  abbrev pub sort_relations : List SourceRelation → List SourceRelation
  sort_relations = sort (λ a b. py.name_before (name_of a) (name_of b))

  -- `compile`
  unfoldable pub compile :
      List SourceRelation → List AdapterRelation → Option (List (String × String)) → CompiledPlan
  compile discovered adapter_relations published =
      let known = by_qualified [] discovered in
      let meta = adapters adapter_relations in
      let ordered = sort_relations discovered in
      let denied = map qualified_of (select (λ r. is_denied_hit (verdict meta r)) ordered) in
      let skipped = map qualified_of (select (λ r. is_parent_skipped (verdict meta r)) ordered) in
      let (relations, problems) =
        compile_relations meta (select (λ r. is_candidate (verdict meta r)) ordered) in
      let (add, drop) = diff_publication (map pair_of relations) published in
      record {
        relations = relations;
        selection_hash = selection_hash_of relations;
        publication_add = add;
        publication_drop = drop;
        replica_identity_alters =
            (if m.replica_identity == "full"
              then sort py.name_before (
                  map pair_of (
                    select (λ r. needs_full (lookup (qualified r.schema r.table) known)) relations))
              else []);
        denied_hits = denied;
        problems =
            phantoms meta known
            ++ (map (problem "partitioned_parent_skipped" "warning") skipped
                ++ (map (problem "deny_hit" "error") denied
                    ++ (problems ++ collisions [] relations)));
      }
