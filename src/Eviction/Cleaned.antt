-- ===== src/Eviction/Cleaned.antt =====
-- What a whole run of `cleanup_segment_cache` of src/services/video_cache.rs establishes.
use mathlib.Core.List.{Sublistᴰ}
use mathlib.Core.List.Permᴰ
use mathlib.Core.List.Sublistᴰ
use hometube.Prelude.{
  ℕ, ◌<◌, ◌≤◌, ◌≡◌, refl, ◌∙◌, Bool, true, false, ◌&&◌, ◌||◌, Bool-cases, inl, inr, List, [], ◌∷◌,
  ltb, leb, ◌==◌, if◌then◌else◌, arith, Option,
}
use hometube.Prelude.Int.{i64_half, pos, leb_ℤ}
use hometube.Prelude.Text.{Text, text_eq, text_eq_iff, text_eq_refl, text_eq_comm}
use hometube.Prelude.Assoc.{Assoc, get, remove}
use hometube.Prelude.Sql.{All, All-map, All-both, All-any, delete, exists, count}
use hometube.Metadata.{MetadataRow}
use hometube.Segments.Table.{Row}
use hometube.Eviction.{
  Cache, Allowlists, Answers, Run, ended, stopped, of_video, total_size, total_cache_bytes,
  log_eviction, lru_size_limit, cache_size_preset_to_bytes, current_cache_size_label,
}
use hometube.Eviction.Cleanup.{
  Lru, Totals, video_is_anywhere_allowlisted, distinct_videos, sweep, lru_loop, evict_row, unlinked,
  log_videos, after_loop, evict_lru, is_expired_orphan, tidy, lru_behind, cleanup_segment_cache,
  order_by_access, by_id,
}
use hometube.Eviction.Lru.{
  UniqueIds, order_by_access-Perm, total_size-Perm, lru_loop-Ends, UniqueIds-order_by_access,
}
use hometube.Eviction.Kept.{
  EndsIn, EndsIn-map, AllSucceed, All-Sublist, UniqueIds-Sublist, total_size-Sublist,
  delete-Sublist, IsAllowed, allowed-remove, sweep-Cleared, logged,
}

and_false : (b : Bool) → (b && false) ≡ false
and_false true = refl
and_false false = refl

or_true : (b : Bool) → (b || true) ≡ true
or_true true = refl
or_true false = refl

exists_mono :
    (s : Text) (v : Text) (rest : List Text)
    → exists (text_eq s) rest ≡ true
    → exists (text_eq s) (if exists (text_eq v) rest then rest else v ∷ rest) ≡ true
unfolding exists
exists_mono s v rest h = elim (Bool-cases (exists (text_eq v) rest)) [
  | inl on ↦ rw on h
  | inr off ↦ rw off (ground (arith, h))
]

exists-first :
    (v : Text) (rest : List Text)
    → exists (text_eq v) (if exists (text_eq v) rest then rest else v ∷ rest) ≡ true
exists-first v rest = elim (Bool-cases (exists (text_eq v) rest)) [
  | inl on ↦ rw on on
  | inr off ↦ rw off (unfold exists in rw (text_eq_refl v) refl)
]

-- Every row's video is among the distinct ones.
distinct_videos-covers :
    (rows : List Row) → All (λ r. exists (text_eq r.video_id) (distinct_videos rows) ≡ true) rows
unfolding distinct_videos
distinct_videos-covers [] = tt
distinct_videos-covers (r ∷ rows) = (
  exists-first r.video_id (distinct_videos rows),
  All-map (λ s h. exists_mono s.video_id r.video_id (distinct_videos rows) h) rows
      (distinct_videos-covers rows),
)

-- The video of a row has a row.
rows-exist : (rows : List Row) → All (λ r. exists (of_video r.video_id) rows ≡ true) rows
unfolding exists of_video
rows-exist [] = tt
rows-exist (r ∷ rows) = (
  rw (text_eq_refl r.video_id) refl,
  All-map (λ (s : Row) h. rw (h, or_true (text_eq r.video_id s.video_id)) refl) rows
      (rows-exist rows),
)

count-zero :
    (test : Row → Bool) (rows : List Row)
    → (count test rows == 0) ≡ true
    → All (λ r. test r ≡ false) rows
unfolding count
count-zero test [] h = tt
count-zero test (r ∷ rows) h = elim (Bool-cases (test r)) [
  | inl on ↦ absurd (ground (arith, on, h))
  | inr off ↦ (off, count-zero test rows (ground (arith, off, h)))
]

lru_loop-Sublist :
    (answers : Answers) (limit : ℕ) (listed : List Row) (s : Lru)
    → Sublistᴰ (lru_loop answers limit listed s).1.disk.rows s.disk.rows
unfolding lru_loop evict_row unlinked
lru_loop-Sublist answers limit [] s = Sublistᴰ.refl s.disk.rows
lru_loop-Sublist answers limit (r ∷ rows) s = elim (Bool-cases (leb s.current_total limit)) [
  | inl on ↦ rw on (Sublistᴰ.refl s.disk.rows)
  | inr off ↦ rw off (elim (Bool-cases (answers.deletes_row r.id)) [
    | inr fails ↦ rw fails (Sublistᴰ.refl s.disk.rows)
    | inl succeeds ↦ rw succeeds (
        Sublistᴰ.trans (lru_loop-Sublist answers limit rows (evict_row answers r s))
          (delete-Sublist (by_id r.id) s.disk.rows))
  ])
]

module _ (channel_of : Text → Option Text) (lists : Allowlists) where
  -- Every row is of a video that an allowlist has, directly or by its channel.
  abbrev pub AllAllowed : Cache → Type 0
  AllAllowed c = All (λ r. IsAllowed channel_of lists c.metadata r.video_id) c.disk.rows

  module _ (answers : Answers) (now : ℕ) (succeed : AllSucceed answers) where
    sweep-AllAllowed :
        (t : Totals) (c : Cache)
        → EndsIn
            (λ c'. Sublistᴰ c'.disk.rows c.disk.rows × AllAllowed c')
            (sweep channel_of lists answers now (distinct_videos c.disk.rows) t c)
    sweep-AllAllowed t c =
        EndsIn-map _ _ (sweep channel_of lists answers now (distinct_videos c.disk.rows) t c)
          (λ c' k. (
            k.0,
            All-map (λ r p. p.0 (inr p.1)) c'.disk.rows
                (All-both _ _ c'.disk.rows k.1
                  (All-Sublist _ k.0 (distinct_videos-covers c.disk.rows))),
          ))
          (sweep-Cleared channel_of lists answers now succeed (λ v. false ≡ true)
            (distinct_videos c.disk.rows) t c
            (All-map (λ r u never. absurd (cc (never))) c.disk.rows (All-any c.disk.rows)))

    Same : Cache → Cache → Type 0
    Same c c' = (c'.disk.rows ≡ c.disk.rows) × AllAllowed c'

    forgotten-Same :
        (orphaned : Bool) (video : Text) (c : Cache)
        → AllAllowed c
        → (orphaned ≡ true → All (λ r. of_video video r ≡ false) c.disk.rows)
        → Same c (if orphaned then record c { metadata = remove video c.metadata } else c)
    unfolding of_video Same
    forgotten-Same false video c h lacks = (refl, h)
    forgotten-Same true video c h lacks = (
      refl,
      All-map
          (λ (r : Row) p.
            rw
              (allowed-remove channel_of lists r.video_id video c.metadata
                (text_eq_comm video r.video_id ∙ p.1))
              p.0)
          c.disk.rows (All-both _ _ c.disk.rows h (lacks refl)),
    )

    log_videos-AllAllowed :
        (videos : Assoc (ℕ × ℕ)) (t : Totals) (c : Cache)
        → AllAllowed c
        → EndsIn (Same c) (log_videos answers now videos t c)
    unfolding log_videos Same
    log_videos-AllAllowed [] t c h = (refl, h)
    log_videos-AllAllowed (p ∷ videos) t c h =
        let orphaned : Bool = count (of_video p.0) c.disk.rows == 0 in
        let without : Cache =
          if orphaned then record c { metadata = remove p.0 c.metadata } else c in
        let kept : Same c without =
          forgotten-Same orphaned p.0 c h (λ on. count-zero (of_video p.0) c.disk.rows on) in
        let logged_cache = log_eviction answers now p.0 p.1.0 p.1.1 lru_size_limit without in
        let next : Same c logged_cache =
          logged channel_of lists answers now succeed (Same c) p.1.0 p.1.1 p.0 lru_size_limit
            without (λ log. kept) in
        rw (succeed.metadata p.0, and_false orphaned)
          (EndsIn-map _ (Same c) _ (λ c' k. (k.0 ∙ next.0, k.1))
            (log_videos-AllAllowed videos _ logged_cache next.1))

    -- The rows are below the limit, where there is one.
    Bounded : ℕ → Cache → Type 0
    Bounded limit c' = (0 < limit → total_size c'.disk.rows ≤ limit) × AllAllowed c'

    looped :
        (limit : ℕ) (result : Bool × Lru) (c : Cache)
        → AllAllowed c
        → result.0 ≡ true
        → total_size result.1.disk.rows ≤ limit
        → Sublistᴰ result.1.disk.rows c.disk.rows
        → EndsIn (Bounded limit) (after_loop answers now result c)
    unfolding after_loop Bounded Same
    looped limit (true, s) c h e small sub =
        EndsIn-map _ _ (log_videos answers now s.per_video s.totals (record c { disk = s.disk }))
          (λ c' k. ((λ some_limit. rw k.0 small), k.1))
          (log_videos-AllAllowed s.per_video s.totals (record c { disk = s.disk })
            (All-Sublist _ sub h))
    looped limit (false, s) c h e small sub = absurd (cc (e))

    evict_lru-Bounded :
        (limit : ℕ) (t : Totals) (c : Cache)
        → UniqueIds c.disk.rows
        → total_size c.disk.rows < i64_half
        → AllAllowed c
        → EndsIn (Bounded limit) (evict_lru answers now limit t c)
    unfolding evict_lru Bounded total_cache_bytes
    evict_lru-Bounded limit t c unique small h = elim (Bool-cases (ltb 0 limit)) [
      | inr off ↦ rw off ((λ some_limit. absurd (ground (arith, some_limit, off))), h)
      | inl on ↦
          let total : total_cache_bytes c.disk.rows ≡ total_size c.disk.rows =
            ground (arith, small) in
          rw (on, total)
            (elim (Bool-cases (ltb limit (total_size c.disk.rows))) [
              | inr below ↦ rw below ((λ some_limit. ground (arith, below)), h)
              | inl above ↦ rw above (
                  let start : Lru = record {
                    disk = c.disk;
                    current_total = total_size c.disk.rows;
                    totals = t;
                    per_video = [];
                  } in
                  let listed = order_by_access c.disk.rows in
                  let same = Permᴰ.symm (order_by_access-Perm c.disk.rows) in
                  let ends =
                    lru_loop-Ends answers limit listed start succeed.row
                      (UniqueIds-order_by_access c.disk.rows unique) same (total_size-Perm same) in
                  looped limit (lru_loop answers limit listed start) c h ends.1 ends.3
                    (lru_loop-Sublist answers limit listed start))
            ])
    ]

    -- The videos that have a row keep their metadata.
    get-tidied :
        (rows : List Row) (video : Text) (metadata : Assoc MetadataRow)
        → exists (of_video video) rows ≡ true
        → get video (delete (is_expired_orphan now rows) metadata) ≡ get video metadata
    unfolding get delete
    get-tidied rows video [] h = refl
    get-tidied rows video (e ∷ metadata) h = elim (Bool-cases (text_eq e.0 video)) [
      | inl on ↦
          let here : exists (of_video e.0) rows ≡ true = rw ((text_eq_iff e.0 video).0 on) h in
          let stays : is_expired_orphan now rows e ≡ false =
            unfold is_expired_orphan in rw here (and_false (leb_ℤ e.1.expires_at (pos now))) in
          rw stays (rw on refl)
      | inr off ↦ rw off (elim (Bool-cases (is_expired_orphan now rows e)) [
        | inl gone ↦ rw gone (get-tidied rows video metadata h)
        | inr stays ↦ rw stays (rw off (get-tidied rows video metadata h))
      ])
    ]

    tidied-AllAllowed :
        (c : Cache)
        → AllAllowed c
        → AllAllowed (record c { metadata = delete (is_expired_orphan now c.disk.rows) c.metadata })
    unfolding video_is_anywhere_allowlisted
    tidied-AllAllowed c h =
        All-map (λ (r : Row) p. rw (get-tidied c.disk.rows r.video_id c.metadata p.1) p.0)
          c.disk.rows (All-both _ _ c.disk.rows h (rows-exist c.disk.rows))

    tidy-AllAllowed :
        (tidies prunes : Bool) (limit : ℕ) (run : Run Totals)
        → tidies ≡ true
        → EndsIn (Bounded limit) run
        → EndsIn (Bounded limit) (tidy now tidies prunes run)
    unfolding tidy Bounded
    tidy-AllAllowed tidies prunes limit (stopped c) e h = h
    tidy-AllAllowed tidies prunes limit (ended t c) e h = rw e (elim (Bool-cases prunes) [
      | inl on ↦ rw on (h.0, tidied-AllAllowed c h.1)
      | inr off ↦ rw off (h.0, tidied-AllAllowed c h.1)
    ])

  -- Where no statement fails, the whole run comes to its end. Then every row that is left is of a
  -- video that an allowlist has, and where the configured size is a limit, the sizes of the rows add
  -- up to no more. The rows have different ids, and their sizes add up to an `i64`.
  pub cleanup_segment_cache-EndsIn :
      (answers : Answers) (now : ℕ) (label : Option Text) (prunes : Bool) (c : Cache)
      → AllSucceed answers
      → UniqueIds c.disk.rows
      → total_size c.disk.rows < i64_half
      → let limit = cache_size_preset_to_bytes (current_cache_size_label label) in
        EndsIn
          (λ c'. (0 < limit → total_size c'.disk.rows ≤ limit) × AllAllowed c')
          (cleanup_segment_cache channel_of lists answers now label true prunes c)
  unfolding cleanup_segment_cache lru_behind Bounded
  cleanup_segment_cache-EndsIn answers now label prunes c succeed unique small =
      let limit = cache_size_preset_to_bytes (current_cache_size_label label) in
      tidy-AllAllowed answers now succeed true prunes limit _ refl (
        behind (sweep channel_of lists answers now (distinct_videos c.disk.rows) _ c)
          (sweep-AllAllowed answers now succeed _ c))
    where
      behind :
          (run : Run Totals)
          → EndsIn (λ c'. Sublistᴰ c'.disk.rows c.disk.rows × AllAllowed c') run
          → EndsIn
              (Bounded answers now succeed
                (cache_size_preset_to_bytes (current_cache_size_label label)))
              (lru_behind answers now label run)
      behind (stopped c') k = absurd (cc (k.0))
      behind (ended t c') k =
          evict_lru-Bounded answers now succeed
            (cache_size_preset_to_bytes (current_cache_size_label label)) t c'
            (UniqueIds-Sublist k.0 unique) (omega (arith, small, total_size-Sublist k.0)) k.1
