-- ===== src/State/Preserved.antt =====
-- What a write to the watermark of a table leaves alone.
use feather_flow.Common.{ℕ, ◌≡◌, some, if◌then◌else◌, String, ◌==◌, string_eq, ==_refl, List}
use feather_flow.Common.Dict.{lookup-insert, lookup-adjust}
use feather_flow.State.{Watermark, Db}
use feather_flow.State.Watermarks.{
  WatermarkUpdate, written, read_watermark, write_watermark, write_boundary_hashes,
  read_boundary_hashes,
}

-- After `write_watermark` the table reads as the row made of its old one, which keeps its retry
-- count, its backoff and its boundary hashes, and its `last_value` where the argument is the
-- sentinel; every other table reads as before.
pub read-write_watermark :
    (now : ℕ) (table other : String) (u : WatermarkUpdate) (db : Db)
    → (read_watermark (write_watermark now table u db) other ≡ (
        if table == other
        then some (written now u (read_watermark db table))
        else read_watermark db other))
unfolding read_watermark write_watermark
read-write_watermark now table other u db = simp lookup-insert

-- Boundary hashes are read back from a table that has a watermark, and survive a later write of it.
pub hashes_survive :
    (now : ℕ) (table : String) (hashes : List String) (u : WatermarkUpdate) (w : Watermark)
    (db : Db)
    → read_watermark db table ≡ some w
    → read_boundary_hashes
        (write_watermark now table u (write_boundary_hashes table hashes db))
        table
      ≡ hashes
unfolding read_watermark write_boundary_hashes write_watermark read_boundary_hashes
hashes_survive now table hashes u w db found =
    simp (read_boundary_hashes, lookup-insert, lookup-adjust, ==_refl, found)
