-- ===== src/Ranges/Memo.antt =====
-- `RangePersistMemo` of src/services/segment_ranges.rs: which set of ranges of a video is being
-- written (`in_flight`) or was written (`persisted`). The hash of the standard library that makes a
-- fingerprint is a parameter.
use hometube.Prelude.{
  ℕ, Bool, false, Option, none, some, List, [], ◌∷◌, leb, ◌==◌, if◌then◌else◌, length,
}
use hometube.Prelude.Text.{Text, text_le}
use hometube.Prelude.Assoc.{Assoc, get, insert, remove}
use hometube.Ranges.Rows.{BoxRanges}

pub data PersistState : Type 0 where
  in_flight persisted : ℕ → PersistState

abbrev pub max_tracked_videos : ℕ
max_tracked_videos = 4096

insert_row : Text × BoxRanges → List (Text × BoxRanges) → List (Text × BoxRanges)
unfolding text_le
insert_row r [] = r ∷ []
insert_row r (x ∷ rows) =
    let rest = insert_row r rows in if text_le r.0 x.0 then r ∷ x ∷ rows else x ∷ rest

-- `sort_by`, which is stable.
unfoldable pub sort_rows : List (Text × BoxRanges) → List (Text × BoxRanges)
unfolding insert_row
sort_rows [] = []
sort_rows (r ∷ rows) = insert_row r (sort_rows rows)

-- The set is already persisted or in flight.
unfoldable pub is_known : ℕ → Option PersistState → Bool
is_known fingerprint none = false
is_known fingerprint (some (in_flight fp)) = fp == fingerprint
is_known fingerprint (some (persisted fp)) = fp == fingerprint

unfoldable pub make_room : Assoc PersistState → Assoc PersistState
make_room entries = if leb max_tracked_videos (length entries) then [] else entries

-- `begin` on a fingerprint: the entries after it, and the token.
unfoldable pub claim_set : Text → ℕ → Assoc PersistState → Assoc PersistState × Option ℕ
unfolding is_known make_room
claim_set video fingerprint entries =
    if is_known fingerprint (get video entries)
    then (entries, none)
    else (insert video (in_flight fingerprint) (make_room entries), some fingerprint)

-- The sorted rows, the entries and the token.
unfoldable pub begin :
    (List (Text × BoxRanges) → ℕ)
    → Text
    → List (Text × BoxRanges)
    → Assoc PersistState
    → List (Text × BoxRanges) × (Assoc PersistState × Option ℕ)
begin fingerprint_rows video rows entries =
    let sorted = sort_rows rows in (sorted, claim_set video (fingerprint_rows sorted) entries)

unfoldable pub is_writing : ℕ → Option PersistState → Bool
is_writing token none = false
is_writing token (some (in_flight fp)) = fp == token
is_writing token (some (persisted fp)) = false

unfoldable pub commit : Text → ℕ → Assoc PersistState → Assoc PersistState
unfolding is_writing
commit video token entries =
    if is_writing token (get video entries) then insert video (persisted token) entries else entries

unfoldable pub abort : Text → ℕ → Assoc PersistState → Assoc PersistState
unfolding is_writing
abort video token entries =
    if is_writing token (get video entries) then remove video entries else entries
