-- ===== src/Publication/Tests.antt =====
-- A publication that is brought from two tables to two others.
use feather_flow.Common.{
  ◌≡◌, refl, Bool, true, false, not, ◌||◌, some, List, [], ◌∷◌, contains, ◌==◌, string_eq, pair_eq,
  ok,
}
use feather_flow.Common.Dict.{lookup}
use feather_flow.Common.Sets.{sort, distinct}
use feather_flow.Publication.{
  Name, Publication, Server, has_all_ops, reconcile, add_tables, drop_tables,
}
use feather_flow.Publication.Reconciled.{reconcile_exact, reconcile_again}

abbrev equal_name : Name → Name → Bool
equal_name a b = a == b

-- `orders` before the others.
abbrev orders_first : Name → Name → Bool
orders_first a b = equal_name a ("erp", "orders")

abbrev any_table : Name → Bool
any_table r = true

abbrev narrow : Server
narrow = record {
  has_gencols = true;
  publications =
      (
        "pub",
        record {
          pubinsert = true;
          pubupdate = true;
          pubdelete = true;
          pubtruncate = false;
          generated_stored = false;
          tables = ("erp", "items") ∷ ("erp", "old") ∷ [];
        },
      )
      ∷ [];
  replica_identity = [];
}

abbrev new_tables : List Name
new_tables = ("erp", "items") ∷ ("erp", "orders") ∷ []

moved_tables :
    (reconcile orders_first any_table "pub" new_tables false narrow).0
    ≡ ok (("erp", "orders") ∷ [], ("erp", "old") ∷ [])
unfolding reconcile add_tables drop_tables sort distinct lookup
moved_tables = refl

reconcile_exact_example :
    let (result, s') = reconcile orders_first any_table "pub" new_tables false narrow in
    (result ≡ (reconcile orders_first any_table "pub" new_tables true narrow).0)
    × ((p : Publication) × (lookup "pub" s'.publications ≡ some p)
        × (contains p.tables ("erp", "old") ≡ contains new_tables ("erp", "old"))
        × (has_all_ops p ≡ true)
        × ((not narrow.has_gencols || p.generated_stored) ≡ true))
reconcile_exact_example =
    reconcile_exact orders_first any_table "pub" new_tables narrow ("erp", "old") refl

reconcile_again_example :
    (reconcile orders_first any_table "pub" new_tables true
      (reconcile orders_first any_table "pub" new_tables false narrow).1).0
    ≡ ok ([], [])
reconcile_again_example = reconcile_again orders_first any_table "pub" new_tables narrow refl
