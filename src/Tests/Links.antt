-- ===== src/Tests/Links.antt =====
-- The theorems about the links of src/services/dash.rs, at concrete inputs.
use hometube.Prelude.{
  ℕ, ◌≡◌, ◌≢◌, ◌⊎◌, refl, none, some, List, [], ◌∷◌, ◌++◌, arith, if◌then◌else◌, length, ◌%◌,
}
use hometube.Prelude.Int.{pos, leb_ℤ, int_text, parse_i64}
use hometube.Prelude.Text.{Text, codes, value_from, text_eq, text_le}
use hometube.Links.Encode.{percent_encode, is_unreserved, hex_encode}
use hometube.Links.Sign.{
  sign_query, verify_query, canonical, sort_pairs, insert_pair, pair_le, pair_text, join_pairs,
  constant_time_eq, diff_loop,
}
use hometube.Links.Cast.{
  cast_params, build_cast_manifest_url, verify_cast_token, verify_cast_token-build,
  verify_cast_token-binds,
}

-- What the tests compute with.
program : Unit {0}
unfolding verify_cast_token verify_query sign_query canonical sort_pairs insert_pair pair_le
    pair_text join_pairs text_eq text_le constant_time_eq diff_loop percent_encode is_unreserved
    hex_encode parse_i64 value_from
program = tt

-- A MAC for the tests: the length of the message.
abbrev mac : Text → Text → List ℕ
mac secret message = (length message % 256) ∷ []

abbrev secret : Text
secret = codes "s"

abbrev video : Text
video = codes "a b"

verify_cast_token-build_example :
    (token : Text) × (build_cast_manifest_url mac secret video (pos 7) (pos 2000)
      ≡ codes "/api/videos/"
        ++ (percent_encode video
            ++ (codes "/stream/manifest.mpd?cast_uid="
                ++ (int_text (pos 7)
                    ++ (codes "&cast_exp="
                        ++ (int_text (pos 2000) ++ (codes "&cast_token=" ++ token)))))))
    × (verify_cast_token mac secret video (int_text (pos 7)) (int_text (pos 2000)) token (pos 1000)
        ≡ (if leb_ℤ (pos 2000) (pos 1000) then none else some (pos 7)))
verify_cast_token-build_example =
    verify_cast_token-build mac secret video (pos 7) (pos 2000) (pos 1000) (omega arith)
      (omega arith)

accepts :
    verify_cast_token mac secret video
      (codes "7")
      (codes "2000")
      (sign_query mac secret (cast_params video (codes "7") (codes "2000")))
      (pos 1000)
    ≡ some (pos 7)
unfolding program
accepts = refl

verify_cast_token-binds_example :
    ((video ≡ video) × (codes "7" ≡ codes "7") × (codes "2000" ≡ codes "2000"))
    ⊎ ((m : Text) × (m' : Text) × (m ≢ m') × (mac secret m ≡ mac secret m'))
verify_cast_token-binds_example =
    verify_cast_token-binds mac secret video video (codes "7") (codes "7") (codes "2000")
      (codes "2000") (pos 1000) (pos 7) accepts
