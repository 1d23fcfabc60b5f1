-- ===== src/Publication.antt =====
-- packages/feather-cdc-postgres/src/feather_cdc_postgres/publication.py: the publication of a
-- source is brought to the desired relations. The server keeps its publications by name and the
-- replica identity of each table; whether a table can be published, and the order of pairs of
-- texts, are parameters. A statement commits by itself.
pub mod Members
pub mod Reconciled
mod Tests
use feather_flow.Common.{
  Bool, true, false, not, ◌&&◌, Option, none, some, is_some, List, [], ◌∷◌, ◌++◌, contains, select,
  if◌then◌else◌, String, ◌==◌, string_eq, pair_eq, Result, ok, err,
}
use feather_flow.Common.Dict.{Dict, lookup, insert}
use feather_flow.Common.Sets.{distinct, minus, sort}
use feather_flow.Common.Text.{◌<>◌}

-- schema and table
abbrev pub Name : Type 0
Name = String × String

-- A row of `pg_publication` with the members of the publication.
pub record Publication : Type 0 where
  pub pubinsert : Bool
  pub pubupdate : Bool
  pub pubdelete : Bool
  pub pubtruncate : Bool
  pub generated_stored : Bool
  pub tables : List Name

pub record Server : Type 0 where
  -- `server_version >= 180000`
  pub has_gencols : Bool
  pub publications : Dict String Publication
  pub replica_identity : Dict Name String

abbrev pub publication_exists : String → Server → Bool
publication_exists publication s = is_some (lookup publication s.publications)

abbrev members_of : Option Publication → List Name
members_of none = []
members_of (some p) = p.tables

abbrev pub published_relations : String → Server → List Name
published_relations publication s = members_of (lookup publication s.publications)

-- The publish list is `insert, update, delete, truncate`.
abbrev pub has_all_ops : Publication → Bool
has_all_ops p = p.pubinsert && (p.pubupdate && (p.pubdelete && p.pubtruncate))

abbrev pub with_all_ops : Publication → Publication
with_all_ops p = record p {
  pubinsert = true;
  pubupdate = true;
  pubdelete = true;
  pubtruncate = true;
}

-- The two ALTERs of a publication that is there: its operations and its generated columns.
abbrev pub altered_options : Bool → Publication → Publication
altered_options gencols p =
    let q = if has_all_ops p then p else with_all_ops p in
    if gencols && not q.generated_stored then record q { generated_stored = true } else q

abbrev pub created : Bool → Publication
created gencols = record {
  pubinsert = true;
  pubupdate = true;
  pubdelete = true;
  pubtruncate = true;
  generated_stored = gencols;
  tables = [];
}

abbrev pub set_publication : String → Publication → Server → Server
set_publication publication p s = record s { publications = insert publication p s.publications }

-- ALTER PUBLICATION … ADD TABLE, which raises for a table that cannot be published.
unfoldable pub add_tables :
    (Name → Bool) → List Name → Publication → Result String (Unit {0}) × Publication
add_tables publishable [] p = (ok tt, p)
add_tables publishable (r ∷ rs) p =
    let rest = add_tables publishable rs (record p { tables = p.tables ++ (r ∷ []) }) in
    if publishable r then rest else (err ("cannot add relation " <> r.1), p)

-- ALTER PUBLICATION … DROP TABLE
unfoldable pub drop_tables : List Name → Publication → Publication
drop_tables [] p = p
drop_tables (r ∷ rs) p = drop_tables rs (record p { tables = select (λ x. not (x == r)) p.tables })

module _ (before : Name → Name → Bool) (publishable : Name → Bool) where
  abbrev pub to_add : List Name → List Name → List Name
  to_add desired current = sort before (minus (distinct desired) current)

  abbrev pub to_drop : List Name → List Name → List Name
  to_drop desired current = sort before (minus current desired)

  -- The publication that the statements on the members start from.
  abbrev pub based : Bool → Option Publication → Publication
  based gencols none = created gencols
  based gencols (some p) = altered_options gencols p

  abbrev pub drop_rest :
      List Name
      → List Name
      → Result String (Unit {0}) × Publication
      → Result String (List Name × List Name) × Publication
  drop_rest added dropped (ok u, p) = (ok (added, dropped), drop_tables dropped p)
  drop_rest added dropped (err e, p) = (err e, p)

  -- `reconcile`: what is added and dropped, both sorted.
  unfoldable pub reconcile :
      String → List Name → Bool → Server → Result String (List Name × List Name) × Server
  reconcile publication desired plan_only s =
      let current = published_relations publication s in
      let added = to_add desired current in
      let dropped = to_drop desired current in
      let start = based s.has_gencols (lookup publication s.publications) in
      let (r, p) = drop_rest added dropped (add_tables publishable added start) in
      if plan_only then (ok (added, dropped), s) else (r, set_publication publication p s)

  -- The tables whose identity other_identity from the wanted one.
  abbrev pub other_identity : String → Server → Name → Bool
  other_identity want s r = differing (lookup r s.replica_identity)
    where
      differing : Option String → Bool
      differing none = false
      differing (some identity) = not (identity == want)

  unfoldable pub alter_identities : String → List Name → Server → Server
  alter_identities want [] s = s
  alter_identities want (r ∷ rs) s =
      alter_identities want rs (record s { replica_identity = insert r want s.replica_identity })

  abbrev pub wanted_identity : String → Result String String
  wanted_identity mode =
      if mode == "full"
      then ok "f"
      else if mode == "default"
      then ok "d"
      else err ("replica_identity must be 'full' or 'default', not " <> mode)

  abbrev pub identity_plan : String → List Name → Bool → Server → List Name × Server
  identity_plan want relations plan_only s =
      let needs = select (other_identity want s) (distinct relations) in
      (sort before needs, if plan_only then s else alter_identities want needs s)

  abbrev pub identity_for :
      Result String String → List Name → Bool → Server → Result String (List Name) × Server
  identity_for (err e) relations plan_only s = (err e, s)
  identity_for (ok want) relations plan_only s =
      let (needs, s') = identity_plan want relations plan_only s in (ok needs, s')

  -- `ensure_replica_identity`
  unfoldable pub ensure_replica_identity :
      String → List Name → Bool → Server → Result String (List Name) × Server
  ensure_replica_identity mode relations plan_only s =
      identity_for (wanted_identity mode) relations plan_only s
