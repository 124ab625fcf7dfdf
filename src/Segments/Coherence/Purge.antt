-- ===== src/Segments/Coherence/Purge.antt =====
-- A round of `purge_stale_chunks` removes one row and that row's file, though it goes by a listing
-- that may be old.
use hometube.Prelude.{
  ℕ, ◌<◌, ◌≡◌, ◌≢◌, refl, sym, Bool, true, ◌&&◌, ◌==◌, Bool-cases, inl, inr, Option, List, [], ◌∷◌,
  arith, if◌then◌else◌,
}
use hometube.Prelude.Sql.{All, All-both, All-map, All-delete, All-select, count, delete, select}
use hometube.Prelude.Text.{Text}
use hometube.Segments.Coherence.{Upstream, IsSound, Apart, Distinct, IsCoherent}
use hometube.Segments.Coherence.Store.{IsSound-frame, remove_file-ne}
use hometube.Segments.Table.{
  Row, Disk, Purged, PurgeAnswers, still_stale, is_stale, purge_row, remove_file,
}

-- A listed row is still what its id stands for, if anything.
pub record IsListed (listed : Row) (d : Disk) : Type 0 where
  pub old : listed.id < d.next_id
  pub same : All (λ r. r.id ≡ listed.id → r.file_path ≡ listed.file_path) d.rows

Distinct-delete :
    (test : Row → Bool) (rows : List Row) → Distinct rows → Distinct (delete test rows)
unfolding delete
Distinct-delete test [] h = tt
Distinct-delete test (r ∷ rows) h = elim (Bool-cases (test r)) [
  | inl e ↦ rw e (Distinct-delete test rows h.1)
  | inr e ↦ rw e (All-delete (Apart r) test rows h.0, Distinct-delete test rows h.1)
]

-- A path that every row lacks is not the listed one, if a listed row is there.
path-ne_of_count :
    (test : Row → Bool) (path c : Text) (rows : List Row)
    → 0 < count test rows
    → All (λ r. test r ≡ true → r.file_path ≡ path) rows
    → All (λ r. c ≢ r.file_path) rows
    → c ≢ path
unfolding count
path-ne_of_count test path c [] k h lacks = absurd (omega arith)
path-ne_of_count test path c (r ∷ rows) k h lacks = elim (Bool-cases (test r)) [
  | inl e ↦ λ p. lacks.0 (cc (p, h.0 e))
  | inr e ↦ path-ne_of_count test path c rows (ground arith) h.1 lacks.1
]

-- Once the one listed row is gone, no row has its path.
delete-lacks :
    (test : Row → Bool) (path : Text) (rows : List Row)
    → count test rows ≡ 1
    → All (λ r. test r ≡ true → r.file_path ≡ path) rows
    → Distinct rows
    → All (λ r. path ≢ r.file_path) (delete test rows)
unfolding count delete
delete-lacks test path [] k h apart = tt
delete-lacks test path (r ∷ rows) k h apart = elim (Bool-cases (test r)) [
  | inl e ↦ rw e (
      All-delete (λ s. path ≢ s.file_path) test rows
        (All-map (λ s a p. a.0 (cc (p, h.0 e))) rows apart.0))
  | inr e ↦
      let one : count test rows ≡ 1 = ground arith in
      rw e (
        (λ p.
            path-ne_of_count test path r.file_path rows (omega arith) h.1
              (All-map (λ s a. a.0) rows apart.0) (sym p)),
        delete-lacks test path rows one h.1 apart.1,
      )
]

still_stale-id : (id : ℕ) (fp : Option Text) (r : Row) → still_stale id fp r ≡ true → r.id ≡ id
unfolding still_stale
still_stale-id id fp r h = ground arith

module _ (size : ℕ) (dir : Text) (content : Upstream) where
  purged-IsCoherent :
      (answers : PurgeAnswers) (fp : Option Text) (listed : Row) (d : Disk)
      → IsCoherent size dir content d
      → IsListed listed d
      → count (still_stale listed.id fp) d.rows ≡ 1
      → IsCoherent size dir content (record d {
        rows = delete (still_stale listed.id fp) d.rows;
        files = if answers.unlink_succeeds then remove_file listed.file_path d.files else d.files;
      })
  purged-IsCoherent answers fp listed d h l one =
      let test = still_stale listed.id fp in
      let paths = All-map (λ r s e. s (still_stale-id listed.id fp r e)) d.rows l.same in
      record {
        sound =
            All-map (λ r s. IsSound-frame size dir content d.files _ r (kept answers r s.1) s.0)
              (delete test d.rows)
              (All-both (IsSound size dir content d.files) (λ r. listed.file_path ≢ r.file_path)
                (delete test d.rows)
                (All-delete (IsSound size dir content d.files) test d.rows h.sound)
                (delete-lacks test listed.file_path d.rows one paths h.distinct));
        distinct = Distinct-delete test d.rows h.distinct;
        numbered = All-delete (λ r. r.id < d.next_id) test d.rows h.numbered;
      }
    where
      kept :
          (a : PurgeAnswers) (r : Row)
          → listed.file_path ≢ r.file_path
          → (if a.unlink_succeeds then remove_file listed.file_path d.files else d.files)
              r.file_path
            ≡ d.files r.file_path
      kept a r ne = elim (Bool-cases (a.unlink_succeeds)) [
        | inl e ↦ rw e (remove_file-ne listed.file_path r.file_path d.files ne)
        | inr e ↦ rw e refl
      ]

  -- One round of a purge, whatever its statements answer.
  pub purge_row-IsCoherent :
      (answers : PurgeAnswers) (fp : Option Text) (listed : Row) (p : Purged)
      → IsCoherent size dir content p.disk
      → IsListed listed p.disk
      → IsCoherent size dir content (purge_row answers fp listed p).disk
  unfolding purge_row
  purge_row-IsCoherent answers fp listed p h l =
      let test = still_stale listed.id fp in
      elim (Bool-cases (answers.delete_succeeds && (count test p.disk.rows == 1))) [
        | inl e ↦ rw e (purged-IsCoherent answers fp listed p.disk h l (ground arith))
        | inr e ↦ rw e h
      ]

-- A round on one listed row leaves the other listings in force.
pub purge_row-IsListed :
    (answers : PurgeAnswers) (fp : Option Text) (listed other : Row) (p : Purged)
    → IsListed other p.disk
    → IsListed other (purge_row answers fp listed p).disk
unfolding purge_row
purge_row-IsListed answers fp listed other p l =
    let test = still_stale listed.id fp in
    elim (Bool-cases (answers.delete_succeeds && (count test p.disk.rows == 1))) [
      | inl e ↦ rw e (record {
        old = l.old;
        same =
            All-delete (λ r. r.id ≡ other.id → r.file_path ≡ other.file_path) test p.disk.rows
              l.same;
      })
      | inr e ↦ rw e l
    ]

-- Rows with one id have one path.
listed_rows :
    (rows : List Row)
    → Distinct rows
    → All (λ r. All (λ s. s.id ≡ r.id → s.file_path ≡ r.file_path) rows) rows
listed_rows [] h = tt
listed_rows (r ∷ rows) h = (
  ((λ e. refl), All-map (λ s a e. absurd (a.1 (sym e))) rows h.0),
  All-map (λ s b. ((λ e. absurd (b.0.1 e)), b.1)) rows
      (All-both (Apart r) (λ s. All (λ t. t.id ≡ s.id → t.file_path ≡ s.file_path) rows) rows h.0
        (listed_rows rows h.1)),
)

-- What a purge lists is in force when it is listed.
pub select-IsListed :
    (size : ℕ) (dir : Text) (content : Upstream) (v f : Text) (fp : Option Text) (d : Disk)
    → IsCoherent size dir content d
    → All (λ r. IsListed r d) (select (is_stale v f fp) d.rows)
select-IsListed size dir content v f fp d h =
    All-select (λ r. IsListed r d) (is_stale v f fp) d.rows
      (All-map (λ r b. record { old = b.0; same = b.1 }) d.rows
        (All-both (λ r. r.id < d.next_id)
          (λ r. All (λ s. s.id ≡ r.id → s.file_path ≡ r.file_path) d.rows) d.rows h.numbered
          (listed_rows d.rows h.distinct)))
