-- ===== src/Ranges/Rows.antt =====
-- The `format_box_ranges` table of src/services/segment_ranges.rs: `lookup`, `store`, `store_all`,
-- `lookup_all`. A column holds the 64 bits of its number, which the casts to and from `i64` keep.
use hometube.Prelude.{
  ℕ, Bool, true, false, ◌&&◌, Option, none, some, List, [], ◌∷◌, ◌++◌, if◌then◌else◌,
}
use hometube.Prelude.Assoc.{Assoc, insert}
use hometube.Prelude.Text.{Text, text_eq, decimal, codes}
use hometube.Prelude.Sql.{delete}

pub record ByteRange : Type 0 where
  pub start : ℕ
  pub end : ℕ

unfoldable pub as_dash : ByteRange → Text
as_dash r = decimal r.start ++ (codes "-" ++ decimal r.end)

pub record BoxRanges : Type 0 where
  pub init : ByteRange
  pub index : ByteRange

pub record FormatRow : Type 0 where
  pub video_id : Text
  pub format_id : Text
  pub ranges : BoxRanges
  pub cached_at : ℕ
  pub total_bytes : Option ℕ

-- The primary key.
unfoldable pub is_row : Text → Text → FormatRow → Bool
is_row video format row = text_eq row.video_id video && text_eq row.format_id format

-- The row with a primary key.
unfoldable pub find : Text → Text → List FormatRow → Option FormatRow
find video format [] = none
find video format (row ∷ rows) =
    if is_row video format row then some row else find video format rows

unfoldable pub ranges_of : Option FormatRow → Option BoxRanges
ranges_of none = none
ranges_of (some row) = some row.ranges

unfoldable pub lookup : Text → Text → List FormatRow → Option BoxRanges
unfolding ranges_of
lookup video format rows = ranges_of (find video format rows)

-- `INSERT OR REPLACE`, which drops the row that was there. A failed statement is only logged.
unfoldable pub store : Bool → ℕ → Text → Text → BoxRanges → List FormatRow → List FormatRow
store succeeds now video format ranges rows =
    if succeeds
    then (record {
      video_id = video;
      format_id = format;
      ranges = ranges;
      cached_at = now;
      total_bytes = none;
    })
      ∷ delete (is_row video format) rows
    else rows

-- One statement of `store_all`: `INSERT … ON CONFLICT … DO UPDATE`.
unfoldable pub upsert_ranges : ℕ → Text → Text → BoxRanges → List FormatRow → List FormatRow
upsert_ranges now video format ranges [] =
    record {
      video_id = video;
      format_id = format;
      ranges = ranges;
      cached_at = now;
      total_bytes = none;
    }
    ∷ []
upsert_ranges now video format ranges (row ∷ rows) =
    let rest = upsert_ranges now video format ranges rows in
    if is_row video format row
    then record row { ranges = ranges; cached_at = now } ∷ rows
    else row ∷ rest

-- The statements in order: nothing where one of them fails.
unfoldable pub upsert_batch :
    (Text → Bool) → ℕ → Text → List (Text × BoxRanges) → List FormatRow → Option (List FormatRow)
upsert_batch succeeds now video [] rows = some rows
upsert_batch succeeds now video (r ∷ batch) rows =
    let rest = upsert_batch succeeds now video batch (upsert_ranges now video r.0 r.1 rows) in
    if succeeds r.0 then rest else none

-- The outcome of a batch on the table, and whether the call returns `Ok`.
unfoldable pub finish_batch :
    Bool → List FormatRow → Option (List FormatRow) → List FormatRow × Bool
finish_batch commits rows none = (rows, false)
finish_batch commits rows (some new) = if commits then (new, true) else (rows, false)

-- `succeeds` says which statements the database takes and `commits` whether it takes the COMMIT.
unfoldable pub store_all :
    (Text → Bool)
    → Bool
    → ℕ
    → Text
    → List (Text × BoxRanges)
    → List FormatRow
    → List FormatRow × Bool
unfolding finish_batch
store_all succeeds commits now video [] rows = (rows, true)
store_all succeeds commits now video (r ∷ batch) rows =
    finish_batch commits rows (upsert_batch succeeds now video (r ∷ batch) rows)

unfoldable pub lookup_one : Text → Option BoxRanges → Assoc BoxRanges → Assoc BoxRanges
lookup_one format none out = out
lookup_one format (some ranges) out = insert format ranges out

unfoldable pub lookup_loop :
    Text → List (Text × Text) → List FormatRow → Assoc BoxRanges → Assoc BoxRanges
unfolding lookup_one
lookup_loop video [] rows out = out
lookup_loop video (f ∷ formats) rows out =
    lookup_loop video formats rows (lookup_one f.0 (lookup video f.0 rows) out)

unfoldable pub lookup_all : Text → List (Text × Text) → List FormatRow → Assoc BoxRanges
lookup_all video formats rows = lookup_loop video formats rows []
