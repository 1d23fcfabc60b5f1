-- ===== src/Extract/Tests.antt =====
-- Extracts of a table of four numbers in two windows.
use feather_flow.Common.{
  ℕ, if◌then◌else◌, ◌==◌, ◌≡◌, refl, true, false, ◌&&◌, Option, none, some, List, [], ◌∷◌, select,
  inl, inr, String, string_eq, ok, err, arith,
}
use feather_flow.Common.Dict.{lookup, insert}
use feather_flow.Common.Text.{str_nat}
use feather_flow.Curation.{choose, join, resolve_source}
use feather_flow.Curation.Tests.{server}
use feather_flow.State.{empty_db}
use feather_flow.State.CommitLog.{is_committed}
use feather_flow.State.Meta.{init_state}
use feather_flow.State.WindowLog.{
  record_committed_window, get_committed_windows, get_all_window_table_names, window_keys,
}
use feather_flow.Destination.{
  World, is_qualified, write_batches, window_transaction, load_batched_append,
}
use feather_flow.Destination.Replacing.{row_list}
use feather_flow.Destination.Loading.{window_row}
use feather_flow.Destination.Exact.{Exact}
use feather_flow.Destination.Tests.{below_ten, low, high}
use feather_flow.Extract.Tables.{orphan_text, run_extract}
use feather_flow.Extract.{
  Source, TableConfig, Options, Texts, failed, iter_source_batches, uncommitted, load_windows,
}
use feather_flow.Extract.Resume.{AllServed, AllApart, resume-Exact, extract_completes}
use feather_flow.Extract.Outcomes.{orphan_refused}

abbrev texts : Texts
texts = record {
  run_error = λ e. "the run is refused";
  meta_error = λ e. "newer";
  isoformat = str_nat;
}

abbrev numbers : List ℕ
numbers = 1 ∷ 11 ∷ 2 ∷ 12 ∷ []

-- A source that streams the slice of a filter, in one batch.
abbrev slice : Option String → List ℕ
slice none = numbers
slice (some filter) = select (below_ten filter) numbers

abbrev reachable : Source ℕ
reachable = record {
  transport_name = "arrow_odbc";
  detect_changes = λ table wm. ok (record {
    changed = true;
    file_mtime = none;
    file_hash = none;
    checksum = none;
    row_count = none;
  });
  extract_batches = some (λ table filter. record { batches = slice filter ∷ []; failure = none });
  extract = λ table. ok (numbers ∷ []);
}

abbrev unreachable : Source ℕ
unreachable = record reachable { detect_changes = λ table wm. err "no route to host" }

abbrev table : TableConfig
table = record {
  name = "n";
  database = some "sales";
  source_name = none;
  source_table = "dbo.n";
  now = 5;
  ended_at = 6;
  committed_at = λ w. ok 5;
}

abbrev options : Options
options = record { refresh = false; refresh_all = false; pre_planned_windows = none }

abbrev fresh : World ℕ
fresh = record { bronze = some []; db = empty_db }

abbrev both_windows : World ℕ
both_windows =
    (load_windows below_ten texts table reachable (uncommitted [] (low ∷ high ∷ [])) fresh).1

not_yet : Exact below_ten numbers "bronze.n" high fresh
unfolding get_committed_windows window_keys
not_yet = inl refl

both_loaded :
    load_windows below_ten texts table reachable
      (uncommitted (get_committed_windows fresh.db "bronze.n") (low ∷ high ∷ []))
      fresh
    ≡ (ok 4, both_windows)
unfolding load_windows uncommitted get_committed_windows window_keys load_batched_append
    is_qualified window_transaction write_batches iter_source_batches lookup insert
    record_committed_window
both_loaded = refl

apart : (r : ℕ) → (below_ten "n < 10" r && below_ten "n >= 10" r) ≡ false
apart r = ground arith

both_served : AllServed below_ten texts table reachable numbers (low ∷ high ∷ [])
unfolding iter_source_batches
both_served = (inr refl, (inr refl, tt))

both_apart : AllApart below_ten texts high (low ∷ high ∷ [])
both_apart = (inr (refl, apart), (inl refl, tt))

extract_completes_example :
    select (below_ten "n >= 10") (row_list "bronze.n" both_windows)
    ≡ select (below_ten "n >= 10") numbers
extract_completes_example =
    extract_completes below_ten texts table reachable numbers high (low ∷ high ∷ []) 4 fresh
      both_windows both_loaded refl both_served both_apart not_yet

-- A loop that an exception stops.
stopped :
    load_windows below_ten texts table
      (record reachable {
        extract_batches = some (λ t filter. record { batches = []; failure = some "reset" });
      })
      (low ∷ high ∷ [])
      fresh
    ≡ (err "reset", fresh)
unfolding load_windows load_batched_append is_qualified window_transaction write_batches
    iter_source_batches lookup
stopped = refl

-- A loop that the write of the commit log stops behind the commit of its second window.
abbrev locked_table : TableConfig
locked_table = record table {
  committed_at = λ w. if w.window_key == "high" then err "locked" else ok 5;
}

abbrev half_logged : World ℕ
half_logged = (load_windows below_ten texts locked_table reachable (low ∷ high ∷ []) fresh).1

unlogged_window :
    load_windows below_ten texts locked_table reachable (low ∷ high ∷ []) fresh
    ≡ (err "locked", half_logged)
unfolding load_windows load_batched_append is_qualified window_transaction write_batches
    iter_source_batches lookup insert record_committed_window
unlogged_window = refl

resume-Exact_example : Exact below_ten numbers "bronze.n" high half_logged
resume-Exact_example =
    resume-Exact below_ten texts locked_table reachable numbers high (low ∷ high ∷ []) fresh
      half_logged (err "locked") unlogged_window both_served both_apart not_yet

abbrev orphaned : World ℕ
orphaned = record {
  bronze = none;
  db = record empty_db {
    schema_version = some 2;
    windows = (("bronze.n", "low"), window_row 5 low 2 "arrow_odbc" "r0") ∷ [];
  };
}

orphaned_facts :
    (init_state orphaned.db ≡ ok orphaned.db) × (is_committed orphaned.db "bronze.n" "low" ≡ true)
unfolding init_state get_committed_windows window_keys
orphaned_facts = (refl, refl)

orphan_refused_example :
    run_extract below_ten texts (λ config. reachable) options (server ∷ []) (table ∷ []) orphaned
    ≡ (ok (failed table (orphan_text (get_all_window_table_names orphaned.db)) ∷ []), orphaned)
orphan_refused_example =
    orphan_refused below_ten texts (λ config. reachable) options (server ∷ []) (table ∷ []) orphaned
      orphaned.db "bronze.n" "low" orphaned_facts.0 refl refl orphaned_facts.1

unknown_source :
    resolve_source "sales" []
    ≡ err "source_db 'sales' does not match any declared source. Available sources: "
unfolding resolve_source choose join
unknown_source = refl
