-- ===== src/Metadata/Expiry.antt =====
-- When the URLs of a result of src/services/video_cache.rs expire.
use hometube.Prelude.{
  ℕ, ◌+◌, ◌<◌, ◌≡◌, refl, true, false, Bool-cases, inl, inr, Option, none, some, List, [], ◌∷◌, ◌^◌,
  arith,
}
use hometube.Prelude.Int.{ℤ, pos, pos_part, neg_part, leb_ℤ, i64_half}
use hometube.Prelude.I64.{add_i64, sub_i64, min_ℤ, diff_i64-eq}
use hometube.Prelude.Split.{filter_map, keep_some}
use hometube.Prelude.Sql.{All}
use hometube.Metadata.{
  Format, ExtractResult, margin, format_expiry, min_of, earliest_media_url_expiry, is_fresh_at,
  media_urls_are_fresh, capped_expiry, effective_cache_expiry,
}

-- The URL of the format is good for longer than the margin from `now` on, if it says how long.
abbrev pub UrlLasts : ℤ → Format → Type 0
UrlLasts now f = is_fresh_at now (format_expiry f) ≡ true

-- Every URL of the result says a time from 1970 on, if it says one.
abbrev pub ExpiresAfterEpoch : ExtractResult → Type 0
ExpiresAfterEpoch result =
    (e : ℤ) → earliest_media_url_expiry result ≡ some e → (neg_part e ≡ 0) × (pos_part e < i64_half)

fresh-min :
    (now x least : ℤ)
    → is_fresh_at now (some (min_ℤ x least)) ≡ true
    → (is_fresh_at now (some x) ≡ true) × (is_fresh_at now (some least) ≡ true)
unfolding is_fresh_at
fresh-min now x least h = elim (Bool-cases (leb_ℤ x least)) [
  | inl on ↦ (ground arith, ground arith)
  | inr off ↦ (ground arith, ground arith)
]

fresh-push :
    (now e : ℤ) (least : Option ℤ)
    → is_fresh_at now (elim least [ none ↦ some e | some l ↦ some (min_ℤ e l) ]) ≡ true
    → (is_fresh_at now (some e) ≡ true) × (is_fresh_at now least ≡ true)
unfolding is_fresh_at
fresh-push now e none h = (h, refl)
fresh-push now e (some l) h = fresh-min now e l h

fresh-keep :
    (now : ℤ) (o : Option ℤ) (rest : List ℤ)
    → is_fresh_at now (min_of (keep_some o rest)) ≡ true
    → (is_fresh_at now o ≡ true) × (is_fresh_at now (min_of rest) ≡ true)
unfolding is_fresh_at keep_some min_of
fresh-keep now none rest h = (refl, h)
fresh-keep now (some e) rest h = fresh-push now e (min_of rest) h

fresh-All :
    (now : ℤ) (fs : List Format)
    → is_fresh_at now (min_of (filter_map format_expiry fs)) ≡ true
    → All (UrlLasts now) fs
unfolding filter_map
fresh-All now [] h = tt
fresh-All now (f ∷ fs) h =
    let parts = fresh-keep now (format_expiry f) (filter_map format_expiry fs) h in
    (parts.0, fresh-All now fs parts.1)

-- Freshness of the earliest URL is freshness of every URL.
pub media_urls_are_fresh-UrlLasts :
    (result : ExtractResult) (now : ℤ)
    → media_urls_are_fresh result now ≡ true
    → All (UrlLasts now) result.formats
unfolding media_urls_are_fresh earliest_media_url_expiry
media_urls_are_fresh-UrlLasts result now h = fresh-All now result.formats h

capped_self : (c : ℤ) (o : Option ℤ) → capped_expiry (capped_expiry c o) o ≡ capped_expiry c o
unfolding capped_expiry
capped_self c none = refl
capped_self c (some e) = elim (Bool-cases (leb_ℤ c (sub_i64 e margin))) [
  | inl on ↦ rw on (rw on refl)
  | inr off ↦ rw off (elim (Bool-cases (leb_ℤ (sub_i64 e margin) (sub_i64 e margin))) [
    | inl a ↦ rw a refl
    | inr a ↦ rw a refl
  ])
]

-- The cap is taken once.
pub effective_cache_expiry_self :
    (result : ExtractResult) (c : ℤ)
    → effective_cache_expiry result (effective_cache_expiry result c)
      ≡ effective_cache_expiry result c
unfolding effective_cache_expiry
effective_cache_expiry_self result c = capped_self c (earliest_media_url_expiry result)

-- Before the capped expiry the URLs are fresh.
fresh-before :
    (c : ℤ) (o : Option ℤ) (n : ℕ)
    → n < 2 ^ 62
    → ((e : ℤ) → o ≡ some e → (neg_part e ≡ 0) × (pos_part e < i64_half))
    → leb_ℤ (capped_expiry c o) (pos n) ≡ false
    → is_fresh_at (pos n) o ≡ true
unfolding capped_expiry is_fresh_at add_i64 sub_i64
fresh-before c none n small epoch h = refl
fresh-before c (some e) n small epoch h =
    let bounds = epoch e refl in
    let later = diff_i64-eq (n + 300) 0 (omega arith) (omega arith) in
    let sooner =
      diff_i64-eq (pos_part e + 0) (neg_part e + 300) (omega (arith, bounds.1))
        (omega (arith, bounds.0)) in
    elim (Bool-cases (leb_ℤ c (sub_i64 e margin))) [
      | inl on ↦ ground (arith, later, sooner, h, on, bounds.0)
      | inr off ↦ ground (arith, later, sooner, h, off, bounds.0)
    ]

pub effective_cache_expiry-fresh :
    (result : ExtractResult) (c : ℤ) (n : ℕ)
    → n < 2 ^ 62
    → ExpiresAfterEpoch result
    → leb_ℤ (effective_cache_expiry result c) (pos n) ≡ false
    → media_urls_are_fresh result (pos n) ≡ true
unfolding effective_cache_expiry media_urls_are_fresh
effective_cache_expiry-fresh result c n small epoch h =
    fresh-before c (earliest_media_url_expiry result) n small epoch h
