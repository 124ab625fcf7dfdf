-- ===== src/Metadata/Fill.antt =====
-- What `get_or_extract` of src/services/video_cache.rs does on a miss, in the cell of its flight and
-- under the lock of the video: the second lookup, the run of yt-dlp and the write to both layers.
use hometube.Prelude.{ℕ, Bool, not, Option, none, some, List, ◌==◌, if◌then◌else◌}
use hometube.Prelude.Int.{ℤ}
use hometube.Prelude.Text.{Text}
use hometube.Prelude.Assoc.{Assoc, insert}
use hometube.Sabr.{SabrSessionMemo, Call, calls, cookie_generation}
use hometube.Metadata.{
  ExtractResult, CachedMetadata, MetadataRow, media_urls_are_fresh, current_ttl, instant_deadline,
}
use hometube.Metadata.Layers.{Layers, Lookup, failed, absent, found, Clock, get_cached, store_in_db}

pub record World : Type 0 where
  pub layers : Layers
  pub memo : SabrSessionMemo

-- What the outside answers in the course of one flight, and what other tasks do meanwhile.
pub record Answers : Type 0 where
  -- `current_extractor_config_key`, or none where it fails
  pub active_config_key : Option Text
  pub lookup_succeeds : Bool
  pub lookup_clock : Clock
  pub during_lookup : Layers → Layers
  -- `ytdlp::extract`, or none where it fails
  pub extraction : Option ExtractResult
  pub calls_meanwhile : List Call
  pub layers_meanwhile : Layers → Layers
  pub clock : Clock
  -- the configured number of hours
  pub ttl_hours : Option Text
  pub store_now : ℤ
  pub store_succeeds : Bool
  pub insert_instant : ℕ

pub data Outcome : Type 0 where
  refused : Outcome
  filled : ExtractResult → Outcome

module _ (to_json : ExtractResult → Text) (from_json : Text → Option ExtractResult) where
  -- The insertion into the memory behind the write to the table, which gives the expiry.
  remember :
      Answers → Text → Text → ExtractResult → Assoc MetadataRow × Option ℤ → World → Outcome × World
  remember a video key result (table, none) w =
      (refused, record w { layers = record (w.layers) { table = table } })
  remember a video key result (table, some expires_at) w =
      let entry : CachedMetadata = record {
        expires_at = instant_deadline a.insert_instant expires_at a.clock.now;
        result = result;
        extractor_config_key = key;
      } in
      (
        filled result,
        record w { layers = record { inner = insert video entry w.layers.inner; table = table } },
      )

  -- What stands behind the extraction. `generation` is the one before it.
  unfoldable pub keep_result : Answers → ℕ → Text → Text → ExtractResult → World → Outcome × World
  unfolding remember store_in_db
  keep_result a generation video key result w =
      if not (media_urls_are_fresh result a.clock.now)
      then (refused, w)
      else if not (cookie_generation w.memo == generation)
      then (filled result, w)
      else remember a video key result
          (store_in_db to_json from_json a.store_succeeds a.store_now video result
            (current_ttl a.ttl_hours) key w.layers.table)
          w

  extracted : Answers → ℕ → Text → Text → Option ExtractResult → World → Outcome × World
  unfolding keep_result
  extracted a generation video key none w = (refused, w)
  extracted a generation video key (some result) w = keep_result a generation video key result w

  -- The world once the extraction is over.
  unfoldable pub overtaken : Answers → World → World
  unfolding calls
  overtaken a w = record {
    layers = a.layers_meanwhile w.layers;
    memo = calls a.calls_meanwhile w.memo;
  }

  looked_up : Answers → ℕ → Text → Text → Lookup ExtractResult × Layers → World → Outcome × World
  unfolding extracted overtaken
  looked_up a generation video key (failed, layers) w = (refused, record w { layers = layers })
  looked_up a generation video key (found result, layers) w =
      (filled result, record w { layers = layers })
  looked_up a generation video key (absent, layers) w =
      extracted a generation video key a.extraction (overtaken a (record w { layers = layers }))

  with_key : Answers → ℕ → Text → Option Text → World → Outcome × World
  unfolding looked_up get_cached
  with_key a generation video none w = (refused, w)
  with_key a generation video (some key) w =
      looked_up a generation video key
        (get_cached to_json from_json a.lookup_succeeds a.lookup_clock a.during_lookup video key
          w.layers)
        w

  -- The closure of `get_or_init`.
  unfoldable pub fill : Answers → Text → World → Outcome × World
  unfolding with_key cookie_generation
  fill a video w = with_key a (cookie_generation w.memo) video a.active_config_key w
