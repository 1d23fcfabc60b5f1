-- ===== src/Curation/Tests.antt =====
-- Names that resolve.
use feather_flow.Common.{◌≡◌, refl, true, none, some, [], ◌∷◌, string_eq, ok}
use feather_flow.Curation.{SourceConfig, owns, bind_db, choose, resolve_source}

abbrev pub server : SourceConfig
server = record {
  name = "erp";
  type = "sqlserver";
  database = none;
  databases = some ("sales" ∷ "stock" ∷ []);
  batch_size = none;
  explicit_name = true;
  parent_name = none;
}

abbrev pub sales : SourceConfig
sales = bind_db server "sales"

pub sales_resolves : resolve_source "sales" (server ∷ []) ≡ ok sales
unfolding resolve_source owns choose
sales_resolves = refl
