-- ===== src/Ranges/Published.antt =====
-- The memo of src/services/segment_ranges.rs beside the writes that it stands for: `begin`, the
-- spawned write of src/routes/videos.rs, and its `commit` or `abort`.
use hometube.Prelude.{ℕ, ◌≡◌, some, List, [], ◌∷◌, ◌++◌}
use hometube.Prelude.Text.{Text}
use hometube.Prelude.Assoc.{Assoc, get}
use hometube.Prelude.Sql.{Member}
use hometube.Ranges.Memo.{PersistState, in_flight, persisted, claim_set, commit, abort}

-- The memo, the writes that were spawned and have not ended, and those that the database committed.
pub data Reach : Assoc PersistState → List (Text × ℕ) → List (Text × ℕ) → Type 0 where
  start : Reach [] [] []
  begins :
      (video : Text) (fingerprint token : ℕ) (m : Assoc PersistState)
      (pending written : List (Text × ℕ))
      → Reach m pending written
      → (claim_set video fingerprint m).1 ≡ some token
      → Reach (claim_set video fingerprint m).0 ((video, token) ∷ pending) written
  commits :
      (video : Text) (token : ℕ) (before after : List (Text × ℕ)) (m : Assoc PersistState)
      (written : List (Text × ℕ))
      → Reach m (before ++ ((video, token) ∷ after)) written
      → Reach (commit video token m) (before ++ after) ((video, token) ∷ written)
  aborts :
      (video : Text) (token : ℕ) (before after : List (Text × ℕ)) (m : Assoc PersistState)
      (written : List (Text × ℕ))
      → Reach m (before ++ ((video, token) ∷ after)) written
      → Reach (abort video token m) (before ++ after) written

-- Every entry stands for a write: one that has not ended, or one that was committed.
pub record IsSound (m : Assoc PersistState) (pending written : List (Text × ℕ)) : Type 0 where
  pub in_flight_pending :
      (v : Text) (fp : ℕ) → get v m ≡ some (in_flight fp) → Member (v, fp) pending
  pub persisted_written :
      (v : Text) (fp : ℕ) → get v m ≡ some (persisted fp) → Member (v, fp) written
