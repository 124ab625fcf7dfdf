-- ===== src/Metadata/Key.antt =====
-- `current_extractor_config_key` of src/services/video_cache.rs. The base64 of SHA-256 is a
-- parameter, a function of the bytes; the environment and the tables are what they hold.
use hometube.Prelude.{
  ◌≡◌, ◌≢◌, ◌⊎◌, refl, sym, Bool-cases, inl, inr, Option, none, some, List, [], ◌∷◌, ◌++◌,
}
use hometube.Prelude.Text.{
  Text, codes, text_eq, text_eq_iff, Lacks, split-first, append_cancel_left,
}
use hometube.Prelude.Sql.{All}

-- What the key is a digest of: the settings of the process, and what the tables hold.
pub record Extractor : Type 0 where
  pub ytdlp_path : Text
  pub player_client : Option Text
  pub pot_server_url : Option Text
  pub plugin_dir : Option Text
  pub js_runtime : Option Text
  -- `current_version` of the row of `ytdlp_info`, or none where there is no row
  pub ytdlp_version : Option (Option Text)
  pub cookies : Option Text

-- `unwrap_or_else`
abbrev or_text : Text → Option Text → Text
or_text d none = d
or_text d (some s) = s

abbrev flatten : Option (Option Text) → Option Text
flatten none = none
flatten (some o) = o

-- `default_clients` is `DEFAULT_PLAYER_CLIENTS` of src/services/ytdlp.rs.
unfoldable pub fields : Text → Extractor → List Text
fields default_clients e =
    e.ytdlp_path
    ∷ or_text default_clients e.player_client
    ∷ or_text (codes "http://pot-server:4416") e.pot_server_url
    ∷ or_text (codes "/usr/local/share/yt-dlp-plugins") e.plugin_dir
    ∷ or_text (codes "deno") e.js_runtime
    ∷ or_text [] (flatten e.ytdlp_version)
    ∷ or_text [] e.cookies
    ∷ []

-- The updates of the hasher, one field after the other.
unfoldable pub update_all : List Text → Text
update_all [] = []
update_all (field ∷ rest) = field ++ (0 ∷ update_all rest)

unfoldable pub hashed : Text → Extractor → Text
unfolding fields update_all
hashed default_clients e =
    codes "hometube-ytdlp-cache-v3" ++ (0 ∷ update_all (fields default_clients e))

unfoldable pub current_extractor_config_key : (Text → Text) → Text → Extractor → Text
unfolding hashed
current_extractor_config_key digest default_clients e = digest (hashed default_clients e)

append-ne-nil : (s t : Text) → s ++ 0 ∷ t ≢ []
append-ne-nil [] t e = absurd (cc)
append-ne-nil (c ∷ s) t e = absurd (cc)

update_all-injective :
    (xs ys : List Text)
    → All (Lacks 0) xs
    → All (Lacks 0) ys
    → update_all xs ≡ update_all ys
    → xs ≡ ys
unfolding update_all
update_all-injective [] [] h k e = refl
update_all-injective [] (y ∷ ys) h k e = absurd (append-ne-nil y (update_all ys) (sym e))
update_all-injective (x ∷ xs) [] h k e = absurd (append-ne-nil x (update_all xs) e)
update_all-injective (x ∷ xs) (y ∷ ys) h k e =
    let parts = split-first 0 x y (update_all xs) (update_all ys) h.0 k.0 e in
    cc (parts.0, update_all-injective xs ys h.1 k.1 parts.1)

-- Two configurations with one key have the same fields, where no field holds a NUL, or two texts
-- collide under the digest.
pub current_extractor_config_key-injective :
    (digest : Text → Text) (default_clients : Text) (e e' : Extractor)
    → All (Lacks 0) (fields default_clients e)
    → All (Lacks 0) (fields default_clients e')
    → current_extractor_config_key digest default_clients e
      ≡ current_extractor_config_key digest default_clients e'
    → (fields default_clients e ≡ fields default_clients e')
      ⊎ ((s : Text) × (t : Text) × (s ≢ t) × (digest s ≡ digest t))
unfolding current_extractor_config_key
current_extractor_config_key-injective digest default_clients e e' h k same =
    elim (Bool-cases (text_eq (hashed default_clients e) (hashed default_clients e'))) [
      | inl on ↦
          let texts = (text_eq_iff (hashed default_clients e) (hashed default_clients e')).0 on in
          inl (
            update_all-injective (fields default_clients e) (fields default_clients e') h k
              (unhash e e' texts))
      | inr off ↦ inr (
        hashed default_clients e,
        hashed default_clients e',
        (λ texts. absurd (
            cc
              ((text_eq_iff (hashed default_clients e) (hashed default_clients e')).1 texts, off))),
        same,
      )
    ]
  where
    unhash :
        (e e' : Extractor)
        → hashed default_clients e ≡ hashed default_clients e'
        → update_all (fields default_clients e) ≡ update_all (fields default_clients e')
    unhash e e' texts =
        append_cancel_left (0 ∷ []) (update_all (fields default_clients e))
          (update_all (fields default_clients e'))
          (append_cancel_left (codes "hometube-ytdlp-cache-v3") _ _ texts)
