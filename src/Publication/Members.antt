-- ===== src/Publication/Members.antt =====
-- feather_cdc_postgres/publication.py: what adding and dropping tables makes of the members.
use feather_flow.Common.{
  ◌≡◌, refl, sym, ap, ◌∙◌, Bool, true, not, ◌&&◌, List, [], ◌∷◌, ◌++◌, contains, contains-append,
  select, all, if◌then◌else◌, ◌==◌, Eq, string_eq, pair_eq, ok, err, arith,
}
use mathlib.Core.List.{append_assoc, append-nil}
use feather_flow.Common.Text.{◌<>◌}
use feather_flow.Common.Sets.{distinct, minus, contains-sort, contains-distinct, contains-select}
use feather_flow.Publication.{Name, Publication, add_tables, drop_tables, to_add, to_drop}

abbrev pub name_eq : Eq Name
name_eq = pair_eq

all-head : (p : Name → Bool) (r : Name) (rs : List Name) → all p (r ∷ rs) ≡ true → p r ≡ true
all-head p r rs h = ground (arith, h)

all-tail : (p : Name → Bool) (r : Name) (rs : List Name) → all p (r ∷ rs) ≡ true → all p rs ≡ true
all-tail p r rs h = ground (arith, h)

name_eq_sym : (k r : Name) → (k == r) ≡ (r == k)
name_eq_sym k r = ground (arith, name_eq.decides k r, name_eq.decides r k)

pub added_members :
    (publishable : Name → Bool) (rs : List Name) (p : Publication)
    → all publishable rs ≡ true
    → add_tables publishable rs p ≡ (ok tt, record p { tables = p.tables ++ rs })
unfolding add_tables
added_members publishable [] p h =
    ap (λ ts. (ok tt, record p { tables = ts })) (sym (append-nil p.tables))
added_members publishable (r ∷ rs) p h =
    ap
      (λ b.
        if b
        then add_tables publishable rs (record p { tables = p.tables ++ (r ∷ []) })
        else (err ("cannot add relation " <> r.1), p))
      (all-head publishable r rs h)
    ∙ added_members publishable rs (record p { tables = p.tables ++ (r ∷ []) })
        (all-tail publishable r rs h)
    ∙ ap (λ ts. (ok tt, record p { tables = ts })) (append_assoc p.tables (r ∷ []) rs)

pub dropped_rest :
    (rs : List Name) (p : Publication)
    → drop_tables rs p ≡ record p { tables = (drop_tables rs p).tables }
unfolding drop_tables
dropped_rest [] p = refl
dropped_rest (r ∷ rs) p =
    dropped_rest rs (record p { tables = select (λ x. not (x == r)) p.tables })

dropped_members :
    (rs : List Name) (p : Publication) (k : Name)
    → contains (drop_tables rs p).tables k ≡ (contains p.tables k && not (contains rs k))
unfolding drop_tables
dropped_members [] p k = ground arith
dropped_members (r ∷ rs) p k =
    dropped_members rs (record p { tables = select (λ x. not (x == r)) p.tables }) k
    ∙ ap (λ b. b && not (contains rs k)) (contains-select (λ x. not (x == r)) p.tables k)
    ∙ ground (arith, name_eq_sym k r)

module _ (before : Name → Name → Bool) (publishable : Name → Bool) where
  pub contains-to_add :
      (desired current : List Name) (k : Name)
      → contains (to_add before publishable desired current) k
        ≡ (contains desired k && not (contains current k))
  contains-to_add desired current k =
      contains-sort before (minus (distinct desired) current) k
      ∙ contains-select (λ x. not (contains current x)) (distinct desired) k
      ∙ ap (λ b. not (contains current k) && b) (contains-distinct desired k)
      ∙ ground arith

  pub contains-to_drop :
      (desired current : List Name) (k : Name)
      → contains (to_drop before publishable desired current) k
        ≡ (contains current k && not (contains desired k))
  contains-to_drop desired current k =
      contains-sort before (minus current desired) k
      ∙ contains-select (λ x. not (contains desired x)) current k
      ∙ ground arith

  pub exactly :
      (desired current : List Name) (p : Publication) (k : Name)
      → contains
          (drop_tables
            (to_drop before publishable desired current)
            (record p { tables = current ++ to_add before publishable desired current })).tables
          k
        ≡ contains desired k
  exactly desired current p k =
      dropped_members (to_drop before publishable desired current)
        (record p { tables = current ++ to_add before publishable desired current }) k
      ∙ ground (
        arith,
        contains-append current (to_add before publishable desired current) k,
        contains-to_add desired current k,
        contains-to_drop desired current k,
      )
