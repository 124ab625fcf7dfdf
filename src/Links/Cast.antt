-- ===== src/Links/Cast.antt =====
-- The links of src/services/dash.rs that carry a signature: `build_cast_manifest_url`,
-- `verify_cast_token` and `build_format_proxy_url`.
use hometube.Prelude.{
  ℕ, suc, ◌≡◌, ◌≢◌, ◌⊎◌, refl, ap, true, Bool-cases, inl, inr, Option, none, some, List, [], ◌∷◌,
  ◌++◌, arith, if◌then◌else◌,
}
use hometube.Prelude.Int.{
  ℤ, pos, negsuc, leb_ℤ, IsI64, int_text, parse_i64, parse_i64-int_text, all_digits-decimal,
}
use hometube.Prelude.Text.{Text, codes, text_eq, text_le, decimal}
use hometube.Links.Encode.{percent_encode, is_unreserved, percent_encode-digits}
use hometube.Links.Sign.{
  Params, sign_query, verify_query, canonical, sort_pairs, insert_pair, pair_le,
  constant_time_eq_iff, verify_query-sign_query,
}

abbrev pub cast_params : Text → Text → Text → Params
cast_params video uid exp =
    (codes "video_id", video) ∷ (codes "cast_uid", uid) ∷ (codes "cast_exp", exp) ∷ []

-- The parameters of a token as the sort leaves them.
abbrev in_order : Text → Text → Text → Params
in_order video uid exp =
    (codes "cast_exp", exp) ∷ (codes "cast_uid", uid) ∷ (codes "video_id", video) ∷ []

module _ (mac : Text → Text → List ℕ) (secret : Text) where
  unfoldable pub build_cast_manifest_url : Text → ℤ → ℤ → Text
  build_cast_manifest_url video child_id expires_at =
      let exp = int_text expires_at in
      let uid = int_text child_id in
      let sig = sign_query mac secret (cast_params video uid exp) in
      codes "/api/videos/"
      ++ (percent_encode video
          ++ (codes "/stream/manifest.mpd?cast_uid="
              ++ (percent_encode uid
                  ++ (codes "&cast_exp="
                      ++ (percent_encode exp ++ (codes "&cast_token=" ++ sig))))))

  signed_child : Text → Text → Text → Text → Option ℤ → Option ℤ
  signed_child video uid exp token none = none
  signed_child video uid exp token (some child_id) =
      if verify_query mac secret (cast_params video uid exp) token then some child_id else none

  live_child : Text → Text → Text → Text → ℤ → Option ℤ → Option ℤ
  live_child video uid exp token now none = none
  live_child video uid exp token now (some expires_at) =
      if leb_ℤ expires_at now then none else signed_child video uid exp token (parse_i64 uid)

  unfoldable pub verify_cast_token : Text → Text → Text → Text → ℤ → Option ℤ
  unfolding signed_child live_child
  verify_cast_token video uid exp token now = live_child video uid exp token now (parse_i64 exp)

  unfoldable pub build_format_proxy_url : Text → Text → Text
  build_format_proxy_url video format =
      let sig = sign_query mac secret ((codes "video_id", video) ∷ (codes "format", format) ∷ []) in
      codes "/api/proxy/format?video_id="
      ++ (percent_encode video
          ++ (codes "&format=" ++ (percent_encode format ++ (codes "&sig=" ++ sig))))

  percent_encode-int_text : (z : ℤ) → percent_encode (int_text z) ≡ int_text z
  unfolding int_text percent_encode is_unreserved
  percent_encode-int_text (pos n) = percent_encode-digits (decimal n) (all_digits-decimal n)
  percent_encode-int_text (negsuc n) =
      ap (λ s. b'-' ∷ s) (percent_encode-digits (decimal (suc n)) (all_digits-decimal (suc n)))

  signed_child-true :
      (video uid exp token : Text) (child_id : ℤ)
      → verify_query mac secret (cast_params video uid exp) token ≡ true
      → signed_child video uid exp token (some child_id) ≡ some child_id
  unfolding signed_child
  signed_child-true video uid exp token child_id e = rw e

  -- What an accepted token has been checked for.
  verify_cast_token-query :
      (video uid exp token : Text) (now child_id : ℤ)
      → verify_cast_token video uid exp token now ≡ some child_id
      → verify_query mac secret (cast_params video uid exp) token ≡ true
  unfolding verify_cast_token signed_child live_child
  verify_cast_token-query video uid exp token now child_id e = live (parse_i64 exp) e
    where
      signed :
          (child : Option ℤ)
          → signed_child video uid exp token child ≡ some child_id
          → verify_query mac secret (cast_params video uid exp) token ≡ true
      signed none e = absurd (cc)
      signed (some child) e = ground arith

      live :
          (expires : Option ℤ)
          → live_child video uid exp token now expires ≡ some child_id
          → verify_query mac secret (cast_params video uid exp) token ≡ true
      live none e = absurd (cc)
      live (some expires) e = elim (Bool-cases (leb_ℤ expires now)) [
        | inl late ↦ absurd (ground arith)
        | inr early ↦ signed (parse_i64 uid) (ground arith)
      ]

  -- The video comes last among the three sorted parameters.
  cast_params-sorted :
      (video uid exp video' uid' exp' : Text)
      → sort_pairs (cast_params video uid exp) ≡ sort_pairs (cast_params video' uid' exp')
      → (video ≡ video') × (uid ≡ uid') × (exp ≡ exp')
  unfolding sort_pairs insert_pair pair_le text_eq text_le
  cast_params-sorted video uid exp video' uid' exp' e =
      let sorted : in_order video uid exp ≡ in_order video' uid' exp' = e in
      (cc (sorted), cc (sorted), cc (sorted))

  -- A link that is built carries the child, the time and a token, and that token is accepted with
  -- them for the video: it gives the child before the time, and nothing from the time on.
  pub verify_cast_token-build :
      (video : Text) (child_id expires_at now : ℤ)
      → IsI64 child_id
      → IsI64 expires_at
      → (token : Text) × (build_cast_manifest_url video child_id expires_at
          ≡ codes "/api/videos/"
            ++ (percent_encode video
                ++ (codes "/stream/manifest.mpd?cast_uid="
                    ++ (int_text child_id
                        ++ (codes "&cast_exp="
                            ++ (int_text expires_at ++ (codes "&cast_token=" ++ token)))))))
        × (verify_cast_token video (int_text child_id) (int_text expires_at) token now
            ≡ (if leb_ℤ expires_at now then none else some child_id))
  unfolding build_cast_manifest_url verify_cast_token verify_query
  verify_cast_token-build video child_id expires_at now hu he =
      let token =
        sign_query mac secret (cast_params video (int_text child_id) (int_text expires_at)) in
      (
        token,
        rw (percent_encode-int_text child_id, percent_encode-int_text expires_at),
        rw (parse_i64-int_text expires_at he, parse_i64-int_text child_id hu)
            (ap (λ (child : Option ℤ). if leb_ℤ expires_at now then none else child)
              (signed_child-true video (int_text child_id) (int_text expires_at) token child_id
                ((constant_time_eq_iff token token).1 refl))),
      )

  -- A token that was made for one video, child and time is accepted with another only if two
  -- messages collide under the MAC.
  pub verify_cast_token-binds :
      (video video' uid uid' exp exp' : Text) (now child_id : ℤ)
      → verify_cast_token video uid exp (sign_query mac secret (cast_params video' uid' exp')) now
        ≡ some child_id
      → ((video ≡ video') × (uid ≡ uid') × (exp ≡ exp'))
        ⊎ ((m : Text) × (m' : Text) × (m ≢ m') × (mac secret m ≡ mac secret m'))
  unfolding verify_cast_token
  verify_cast_token-binds video video' uid uid' exp exp' now child_id e =
      let query =
        verify_cast_token-query video uid exp (sign_query mac secret (cast_params video' uid' exp'))
          now child_id e in
      elim (verify_query-sign_query mac secret (cast_params video uid exp)
        (cast_params video' uid' exp') query) [
          | inl same ↦ inl (cast_params-sorted video uid exp video' uid' exp' same)
          | inr other ↦ inr (
            canonical (cast_params video uid exp),
            canonical (cast_params video' uid' exp'),
            other.0,
            other.1,
          )
        ]
