-- ===== src/Feed/Child.antt =====
-- The feed of new videos of a child: `feed_for_child` of src/services/feed_cache.rs. Where the order
-- of the query leaves a tie the model keeps the order of the table.
pub mod Order
use hometube.Prelude.{
  ℕ, Bool, not, ◌&&◌, ◌||◌, Option, none, some, List, [], ◌∷◌, map, ltb, leb, ◌==◌, take,
  if◌then◌else◌,
}
use hometube.Prelude.Text.{Text, codes, text_eq}
use hometube.Prelude.Sql.{exists, select}
use hometube.Prelude.Split.{filter_map}
use hometube.Access.{Tables, is_entry}
use hometube.Backfill.Apply.{ChannelVideo, Video, is_video}
use hometube.Feed.Sources.{Source, is_source}
use hometube.Feed.Items.{Feeds}

pub record Candidate : Type 0 where
  pub video_id : Text
  pub title : Text
  pub channel_id : Text
  pub channel_title : Option Text
  pub thumbnail_url : Option Text
  pub published_at : Option ℕ
  pub last_seen_at : ℕ

pub record NewVideoItem : Type 0 where
  pub video_id : Text
  pub title : Text
  pub channel_id : Option Text
  pub channel_title : Option Text
  pub thumbnail_url : Option Text
  pub published_at : Option ℕ
  pub source_kind : Text
  pub source_id : Text

unfoldable pub find_video : Text → List Video → Option Video
find_video id [] = none
find_video id (v ∷ videos) = if is_video id v then some v else find_video id videos

-- The title of the LEFT JOIN with `channels`.
unfoldable pub title_of : Text → List Source → Option Text
title_of id [] = none
title_of id (s ∷ rows) = if is_source id s then s.channel_title else title_of id rows

unfoldable pub joined_video : List Source → ChannelVideo → Option Video → Option Candidate
unfolding title_of
joined_video sources r none = none
joined_video sources r (some v) = some (record {
  video_id = r.video_id;
  title = v.title;
  channel_id = r.channel_id;
  channel_title = title_of r.channel_id sources;
  thumbnail_url = v.thumbnail_url;
  published_at = r.published_at;
  last_seen_at = r.last_seen_at;
})

-- The WHERE of the candidates, with the join on the child's allowlist.
unfoldable pub is_shown : Tables → ℕ → ChannelVideo → Bool
is_shown db child r =
    not r.is_deleted
    && (exists (is_entry child r.channel_id) db.allowlisted_channels
        && (not (exists (is_entry child r.video_id) db.blocked_videos)
            && not (exists (is_entry child r.video_id) db.hidden_videos)))

unfoldable pub candidates : Tables → Feeds → ℕ → List Candidate
unfolding find_video joined_video is_shown
candidates db feeds child =
    filter_map
      (λ (r : ChannelVideo). joined_video feeds.sources r (find_video r.video_id feeds.videos))
      (select (is_shown db child) feeds.channel_videos)

-- `COALESCE(published_at, last_seen_at)`
unfoldable pub shown_at : Option ℕ → ℕ → ℕ
shown_at none seen = seen
shown_at (some t) seen = t

-- The order of both windows: newest first, then seen last first.
unfoldable pub comes_first : Candidate → Candidate → Bool
unfolding shown_at
comes_first a b =
    ltb (shown_at b.published_at b.last_seen_at) (shown_at a.published_at a.last_seen_at)
    || ((shown_at a.published_at a.last_seen_at == shown_at b.published_at b.last_seen_at)
        && leb b.last_seen_at a.last_seen_at)

unfoldable pub insert_candidate : Candidate → List Candidate → List Candidate
insert_candidate c [] = c ∷ []
insert_candidate c (d ∷ cs) =
    let rest = insert_candidate c cs in if comes_first c d then c ∷ d ∷ cs else d ∷ rest

unfoldable pub newest_first : List Candidate → List Candidate
newest_first [] = []
newest_first (c ∷ cs) = insert_candidate c (newest_first cs)

unfoldable pub of_same_video : Candidate → Candidate → Bool
of_same_video c d = text_eq d.video_id c.video_id

-- `rn = 1`: the rows that no earlier row shares its video with, in a list in the window's order.
-- `seen` are the earlier rows.
unfoldable pub first_rows : List Candidate → List Candidate → List Candidate
unfolding of_same_video
first_rows seen [] = []
first_rows seen (c ∷ cs) =
    let rest = first_rows (c ∷ seen) cs in if exists (of_same_video c) seen then rest else c ∷ rest

unfoldable pub new_video_item : Candidate → NewVideoItem
new_video_item c = record {
  video_id = c.video_id;
  title = c.title;
  channel_id = some c.channel_id;
  channel_title = c.channel_title;
  thumbnail_url = c.thumbnail_url;
  published_at = c.published_at;
  source_kind = codes "channel";
  source_id = c.channel_id;
}

unfoldable pub ordered_rows : Tables → Feeds → ℕ → List Candidate
ordered_rows db feeds child =
    newest_first (first_rows [] (newest_first (candidates db feeds child)))

unfoldable pub feed_for_child : Tables → Feeds → ℕ → ℕ → List NewVideoItem
unfolding ordered_rows new_video_item
feed_for_child db feeds child limit = map new_video_item (take limit (ordered_rows db feeds child))
