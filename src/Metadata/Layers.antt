-- ===== src/Metadata/Layers.antt =====
-- The two layers of `VideoCache` of src/services/video_cache.rs: `load_from_db`, `store_in_db` and
-- `get_cached`. `to_json` and `from_json` are serde's codec of `ExtractResult`.
use hometube.Prelude.{
  ℕ, ◌<◌, ◌≡◌, refl, sym, ap, ◌∙◌, Bool, true, false, not, ◌&&◌, Bool-cases, ◌⊎◌, inl, inr, Option,
  none, some, ◌^◌, arith, ltb, if◌then◌else◌,
}
use hometube.Prelude.Int.{ℤ, pos, leb_ℤ}
use hometube.Prelude.I64.{of_word, add_i64}
use hometube.Prelude.Text.{Text, text_eq, text_eq_iff, text_eq_refl}
use hometube.Prelude.Assoc.{Assoc, get, insert, remove, get-insert}
use hometube.Prelude.Sql.{All}
use hometube.Metadata.{
  ExtractResult, CachedMetadata, MetadataRow, media_urls_are_fresh, effective_cache_expiry,
  instant_deadline,
}
use hometube.Metadata.Expiry.{
  UrlLasts, ExpiresAfterEpoch, media_urls_are_fresh-UrlLasts, effective_cache_expiry_self,
  effective_cache_expiry-fresh,
}

pub record Layers : Type 0 where
  pub inner : Assoc CachedMetadata
  pub table : Assoc MetadataRow

-- `AppResult<Option<T>>`
pub data Lookup (A : Type 0) : Type 0 where
  failed : Lookup A
  absent : Lookup A
  found : A → Lookup A

-- The time that a step reads: the timestamp and the instant.
pub record Clock : Type 0 where
  pub now : ℤ
  pub instant : ℕ

-- What the condition of the first layer reads of an entry.
unfoldable pub is_live : Clock → Text → CachedMetadata → Bool
is_live clock key entry =
    ltb clock.instant entry.expires_at
    && (text_eq entry.extractor_config_key key && media_urls_are_fresh entry.result clock.now)

in_memory :
    Clock
    → Text
    → Text
    → Option CachedMetadata
    → Assoc CachedMetadata
    → Option ExtractResult × Assoc CachedMetadata
unfolding is_live
in_memory clock video key none inner = (none, remove video inner)
in_memory clock video key (some entry) inner =
    if is_live clock key entry then (some entry.result, inner) else (none, remove video inner)

-- Layer 1 of `get_cached`: an entry that is not served is removed.
unfoldable pub check_memory :
    Clock → Text → Text → Assoc CachedMetadata → Option ExtractResult × Assoc CachedMetadata
unfolding in_memory
check_memory clock video key inner = in_memory clock video key (get video inner) inner

module _ (to_json : ExtractResult → Text) (from_json : Text → Option ExtractResult) where
  usable : ℤ → ℤ → Option ExtractResult → Lookup (ExtractResult × ℤ)
  usable now expires_at none = failed
  usable now expires_at (some result) =
      let effective_expires_at = effective_cache_expiry result expires_at in
      if not (media_urls_are_fresh result now)
      then absent
      else if leb_ℤ effective_expires_at now
      then absent
      else found (result, effective_expires_at)

  of_row : Text → ℤ → Option MetadataRow → Lookup (ExtractResult × ℤ)
  unfolding usable
  of_row key now none = absent
  of_row key now (some row) =
      if leb_ℤ row.expires_at now
      then absent
      else if not (text_eq row.extractor_config_key key)
      then absent
      else usable now row.expires_at (from_json row.metadata_json)

  -- `answers` is whether the query succeeds.
  unfoldable pub load_from_db :
      Bool → Text → Text → ℤ → Assoc MetadataRow → Lookup (ExtractResult × ℤ)
  unfolding of_row
  load_from_db answers video key now table =
      if answers then of_row key now (get video table) else failed

  -- `ttl.as_secs() as i64` reads the bits of the `u64`.
  unfoldable pub store_in_db :
      Bool → ℤ → Text → ExtractResult → ℕ → Text → Assoc MetadataRow → Assoc MetadataRow × Option ℤ
  store_in_db answers now video result ttl key table =
      let ttl_expires_at = add_i64 now (of_word ttl) in
      let expires_at = effective_cache_expiry result ttl_expires_at in
      let row : MetadataRow = record {
        metadata_json = to_json result;
        cached_at = now;
        expires_at = expires_at;
        extractor_config_key = key;
      } in
      if answers then (insert video row table, some expires_at) else (table, none)

  from_table :
      Clock → Text → Text → Lookup (ExtractResult × ℤ) → Layers → Lookup ExtractResult × Layers
  from_table clock video key failed w = (failed, w)
  from_table clock video key absent w = (absent, w)
  from_table clock video key (found p) w =
      let entry : CachedMetadata = record {
        expires_at = instant_deadline clock.instant p.1 clock.now;
        result = p.0;
        extractor_config_key = key;
      } in
      (found p.0, record w { inner = insert video entry w.inner })

  behind_memory :
      Bool
      → Clock
      → (Layers → Layers)
      → Text
      → Text
      → Option ExtractResult × Assoc CachedMetadata
      → Layers
      → Lookup ExtractResult × Layers
  unfolding from_table load_from_db
  behind_memory answers clock others video key (some result, inner) w =
      (found result, record w { inner = inner })
  behind_memory answers clock others video key (none, inner) w =
      let between = others (record w { inner = inner }) in
      from_table clock video key (load_from_db answers video key clock.now between.table) between

  -- `others` is what other tasks do to the layers between the two locks.
  unfoldable pub get_cached :
      Bool → Clock → (Layers → Layers) → Text → Text → Layers → Lookup ExtractResult × Layers
  unfolding behind_memory check_memory
  get_cached answers clock others video key w =
      behind_memory answers clock others video key (check_memory clock video key w.inner) w

  -- The result stands in a layer for the video, under the key.
  pub data IsKept (video key : Text) (result : ExtractResult) (w : Layers) : Type 0 where
    in_inner :
        (entry : CachedMetadata)
        → get video w.inner ≡ some entry
        → entry.extractor_config_key ≡ key
        → entry.result ≡ result
        → IsKept video key result w
    in_table :
        (row : MetadataRow)
        → get video w.table ≡ some row
        → row.extractor_config_key ≡ key
        → from_json row.metadata_json ≡ some result
        → IsKept video key result w

  in_memory-found :
      (clock : Clock) (video key : Text) (o : Option CachedMetadata) (inner : Assoc CachedMetadata)
      (result : ExtractResult)
      → (in_memory clock video key o inner).0 ≡ some result
      → (entry : CachedMetadata) × (o ≡ some entry)
        × (entry.extractor_config_key ≡ key)
        × (entry.result ≡ result)
        × (media_urls_are_fresh result clock.now ≡ true)
  unfolding in_memory is_live
  in_memory-found clock video key none inner result e = absurd (cc)
  in_memory-found clock video key (some entry) inner result e =
      elim (Bool-cases (is_live clock key entry)) [
        | inl on ↦
            let same : entry.result ≡ result = ground arith in
            (
              entry,
              refl,
              (text_eq_iff entry.extractor_config_key key).0 (ground arith),
              same,
              rw (sym same) (ground arith),
            )
        | inr off ↦ absurd (ground arith)
      ]

  usable-found :
      (now expires_at : ℤ) (o : Option ExtractResult) (p : ExtractResult × ℤ)
      → usable now expires_at o ≡ found p
      → (o ≡ some p.0) × (media_urls_are_fresh p.0 now ≡ true)
  unfolding usable
  usable-found now expires_at none p e = absurd (cc)
  usable-found now expires_at (some result) p e =
      elim (Bool-cases (media_urls_are_fresh result now)) [
        | inl on ↦ elim (Bool-cases (leb_ℤ (effective_cache_expiry result expires_at) now)) [
          | inl late ↦ absurd (ground arith)
          | inr early ↦
              let same : found (result, effective_cache_expiry result expires_at) ≡ found p =
                ground arith in
              let first : result ≡ p.0 = cc (same) in (ap some first, rw (sym first) on)
        ]
        | inr off ↦ absurd (ground arith)
      ]

  of_row-found :
      (key : Text) (now : ℤ) (o : Option MetadataRow) (p : ExtractResult × ℤ)
      → of_row key now o ≡ found p
      → (row : MetadataRow) × (o ≡ some row)
        × (row.extractor_config_key ≡ key)
        × (from_json row.metadata_json ≡ some p.0)
        × (media_urls_are_fresh p.0 now ≡ true)
  unfolding of_row
  of_row-found key now none p e = absurd (cc)
  of_row-found key now (some row) p e = elim (Bool-cases (leb_ℤ row.expires_at now)) [
    | inl late ↦ absurd (ground arith)
    | inr early ↦ elim (Bool-cases (text_eq row.extractor_config_key key)) [
      | inr off ↦ absurd (ground arith)
      | inl on ↦
          let parts =
            usable-found now row.expires_at (from_json row.metadata_json) p (ground arith) in
          (row, refl, (text_eq_iff row.extractor_config_key key).0 on, parts.0, parts.1)
    ]
  ]

  load_from_db-found :
      (answers : Bool) (video key : Text) (now : ℤ) (w : Layers) (p : ExtractResult × ℤ)
      → load_from_db answers video key now w.table ≡ found p
      → IsKept video key p.0 w × (media_urls_are_fresh p.0 now ≡ true)
  unfolding load_from_db
  load_from_db-found false video key now w p e = absurd (cc)
  load_from_db-found true video key now w p e =
      let row = of_row-found key now (get video w.table) p e in
      (in_table row.0 row.1 row.2 row.3, row.4)

  from_table-found :
      (clock : Clock) (video key : Text) (o : Lookup (ExtractResult × ℤ)) (w : Layers)
      (result : ExtractResult)
      → (from_table clock video key o w).0 ≡ found result
      → (p : ExtractResult × ℤ) × (o ≡ found p) × (p.0 ≡ result)
  unfolding from_table
  from_table-found clock video key failed w result e = absurd (cc)
  from_table-found clock video key absent w result e = absurd (cc)
  from_table-found clock video key (found p) w result e = (p, refl, cc (e))

  -- What is served stood in the memory before the call or in the table after what others did, for
  -- the video and under the key, and every URL of it lasts longer than the margin.
  pub get_cached-IsKept :
      (answers : Bool) (clock : Clock) (others : Layers → Layers) (video key : Text) (w : Layers)
      (result : ExtractResult)
      → (get_cached answers clock others video key w).0 ≡ found result
      → All (UrlLasts clock.now) result.formats
        × (IsKept video key result w
            ⊎ IsKept video key result
                (others (record w { inner = (check_memory clock video key w.inner).1 })))
  unfolding get_cached check_memory behind_memory
  get_cached-IsKept answers clock others video key w result e =
      behind (check_memory clock video key w.inner)
        (λ r. in_memory-found clock video key (get video w.inner) w.inner r) e
    where
      behind :
          (checked : Option ExtractResult × Assoc CachedMetadata)
          → ((r : ExtractResult)
              → checked.0 ≡ some r
              → (entry : CachedMetadata) × (get video w.inner ≡ some entry)
                × (entry.extractor_config_key ≡ key)
                × (entry.result ≡ r)
                × (media_urls_are_fresh r clock.now ≡ true))
          → (behind_memory answers clock others video key checked w).0 ≡ found result
          → All (UrlLasts clock.now) result.formats
            × (IsKept video key result w
                ⊎ IsKept video key result (others (record w { inner = checked.1 })))
      behind (some r, inner) h e =
          let same : r ≡ result = cc (e) in
          let hit = h result (ap some same) in
          (
            media_urls_are_fresh-UrlLasts result clock.now hit.4,
            inl (in_inner hit.0 hit.1 hit.2 hit.3),
          )
      behind (none, inner) h e =
          let between : Layers = others (record w { inner = inner }) in
          let p =
            from_table-found clock video key
              (load_from_db answers video key clock.now between.table) between result e in
          let row = load_from_db-found answers video key clock.now between p.0 p.1 in
          (
            media_urls_are_fresh-UrlLasts result clock.now (rw (sym p.2) row.1),
            inr (rw (sym p.2) row.0),
          )

  -- A result that is stored is loaded again under the key it was stored with, as long as its
  -- expiry lies ahead, and neither later nor under another key.
  pub load_from_db-store_in_db :
      (at : ℤ) (n ttl : ℕ) (video key key' : Text) (result : ExtractResult)
      (table : Assoc MetadataRow)
      → from_json (to_json result) ≡ some result
      → n < 2 ^ 62
      → ExpiresAfterEpoch result
      → let expires_at = effective_cache_expiry result (add_i64 at (of_word ttl)) in
        load_from_db true video key' (pos n) (store_in_db true at video result ttl key table).0 ≡ (
          if leb_ℤ expires_at (pos n)
          then absent
          else if text_eq key key'
          then found (result, expires_at)
          else absent)
  unfolding load_from_db store_in_db of_row usable
  load_from_db-store_in_db at n ttl video key key' result table codec small epoch =
      let row : MetadataRow = record {
        metadata_json = to_json result;
        cached_at = at;
        expires_at = effective_cache_expiry result (add_i64 at (of_word ttl));
        extractor_config_key = key;
      } in
      let stands : get video (insert video row table) ≡ some row =
        get-insert video video row table ∙ rw (text_eq_refl video) refl in
      ap (of_row key' (pos n)) stands
      ∙ loaded row.expires_at (effective_cache_expiry_self result _)
          (λ h. effective_cache_expiry-fresh result _ n small epoch h)
    where
      loaded :
          (e : ℤ)
          → effective_cache_expiry result e ≡ e
          → (leb_ℤ e (pos n) ≡ false → media_urls_are_fresh result (pos n) ≡ true)
          → of_row key' (pos n) (
              some (record {
                metadata_json = to_json result;
                cached_at = at;
                expires_at = e;
                extractor_config_key = key;
              }))
            ≡ (if leb_ℤ e (pos n)
                then absent
                else if text_eq key key'
                then found (result, e)
                else absent)
      loaded e once fresh = elim (Bool-cases (leb_ℤ e (pos n))) [
        | inl late ↦ rw late refl
        | inr early ↦ rw early (elim (Bool-cases (text_eq key key')) [
          | inr off ↦ rw off refl
          | inl on ↦ rw on (ap (usable (pos n) e) codec ∙ rw (fresh early, once, early) refl)
        ])
      ]
