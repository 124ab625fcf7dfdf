-- ===== src/Tests/Ranges.antt =====
-- The theorems about src/services/segment_ranges.rs and the SABR memo of src/services/ytdlp.rs, at
-- concrete inputs.
use hometube.Prelude.{◌≡◌, refl, Bool, true, false, none, List, [], ◌∷◌, arith, if◌then◌else◌}
use hometube.Prelude.Assoc.{Assoc, get, insert}
use hometube.Prelude.Text.{Text, codes, text_eq}
use hometube.Ranges.Rows.{
  BoxRanges, FormatRow, lookup, upsert_batch, finish_batch, store_all, lookup_all,
}
use hometube.Ranges.Stored.{Stored, store_all-Stored, listed, lookup_all-lookup}
use hometube.Ranges.Memo.{PersistState, claim_set, is_known, make_room}
use hometube.Ranges.Published.{start}
use hometube.Sabr.{
  SabrSessionMemo, Call, begin_change, forget, calls, changes, cookie_generation,
  remember_sabr_only_session_for, remember_sabr_only_session_for-stale,
}

-- What the tests compute with.
program : Unit {0}
unfolding text_eq upsert_batch finish_batch store_all claim_set is_known make_room get insert
    changes
program = tt

abbrev video : Text
video = codes "v"

abbrev ranges : BoxRanges
ranges = record { init = record { start = 0; end = 9 }; index = record { start = 10; end = 19 } }

abbrev batch : List (Text × BoxRanges)
batch = (codes "137", ranges) ∷ (codes "140", ranges) ∷ []

abbrev accepts : Text → Bool
accepts f = true

abbrev rejects : Text → Bool
rejects f = false

abbrev table : List FormatRow
table = []

stores : (store_all accepts true 5 video batch table).1 ≡ true
unfolding program
stores = refl

store_all-Stored_example : Stored video batch table (store_all accepts true 5 video batch table).0
store_all-Stored_example = store_all-Stored accepts true 5 video batch table stores

abbrev asked : List (Text × Text)
asked = (codes "137", []) ∷ []

lookup_all-lookup_example :
    get (codes "137") (lookup_all video asked table)
    ≡ (if listed (codes "137") asked then lookup video (codes "137") table else none)
lookup_all-lookup_example = lookup_all-lookup video (codes "137") asked table

abbrev claimed : Assoc PersistState
claimed = (claim_set video 77 []).0

abbrev memo : SabrSessionMemo
memo = record { generation = 3; verdict_until = none }

abbrev overtaking : List Call
overtaking = begin_change ∷ forget ∷ []

overtaking-changes : changes overtaking ≡ 2
unfolding program
overtaking-changes = refl

remember_sabr_only_session_for-stale_example :
    remember_sabr_only_session_for 100 (cookie_generation memo) (calls overtaking memo)
    ≡ calls overtaking memo
remember_sabr_only_session_for-stale_example =
    remember_sabr_only_session_for-stale overtaking memo 100 (omega arith)
      (omega (arith, overtaking-changes)) (omega (arith, overtaking-changes))
