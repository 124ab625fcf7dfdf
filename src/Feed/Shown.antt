-- ===== src/Feed/Shown.antt =====
-- What the feed of src/services/feed_cache.rs shows to a child, against the decision of
-- src/services/access.rs: `feed_for_child`.
use hometube.Prelude.{
  ℕ, zero, suc, ◌≤◌, ◌<◌, ◌≡◌, ◌⊎◌, ap, true, false, Option, none, some, List, [], ◌∷◌, map, take,
  length, length-take, length-map, arith,
}
use hometube.Prelude.Text.{text_eq}
use hometube.Prelude.Sql.{All, Member, Member-All, select}
use hometube.Prelude.Queries.{
  exists-count, select-All, take-All, filter_map-All, map-All, All-Member, select-Member,
  take-Member, filter_map-Member, map-Member,
}
use hometube.Access.{
  Tables, is_entry, is_blocked, is_hidden_for_child, is_allowlisted_channel, can_child_view,
}
use hometube.Backfill.Apply.{ChannelVideo, Video}
use hometube.Feed.Items.{Feeds}
use hometube.Feed.Child.{
  Candidate, NewVideoItem, find_video, joined_video, is_shown, candidates, comes_first, shown_at,
  newest_first, first_rows, new_video_item, ordered_rows, feed_for_child,
}
use hometube.Feed.Child.Order.{
  IsDistinct, Differs, newest_first-All, newest_first-IsOrdered, newest_first-Member,
  newest_first-IsDistinct, first_rows-All, first_rows-IsDistinct, first_rows-first,
}

is_shown-can_child_view :
    (db : Tables) (child : ℕ) (r : ChannelVideo)
    → is_shown db child r ≡ true
    → (r.is_deleted ≡ false) × (can_child_view db child r.video_id (some r.channel_id) ≡ true)
unfolding is_shown can_child_view is_blocked is_hidden_for_child is_allowlisted_channel
is_shown-can_child_view db child r e = ground (
  arith,
  exists-count (is_entry child r.channel_id) db.allowlisted_channels,
  exists-count (is_entry child r.video_id) db.blocked_videos,
  exists-count (is_entry child r.video_id) db.hidden_videos,
)

module _ (db : Tables) (feeds : Feeds) (child : ℕ) where
  -- The candidate stems from a row that the child may see.
  abbrev IsAllowed : Candidate → Type 0
  IsAllowed c =
      (r : ChannelVideo) × Member r feeds.channel_videos
      × (r.is_deleted ≡ false)
      × (c.video_id ≡ r.video_id)
      × (c.channel_id ≡ r.channel_id)
      × (can_child_view db child c.video_id (some c.channel_id) ≡ true)

  row-IsAllowed :
      (r : ChannelVideo) (v : Option Video) (c : Candidate)
      → Member r feeds.channel_videos × (is_shown db child r ≡ true)
      → joined_video feeds.sources r v ≡ some c
      → IsAllowed c
  unfolding joined_video
  row-IsAllowed r none c h e = absurd (cc)
  row-IsAllowed r (some v) c (m, on) e =
      let (live, sees) = is_shown-can_child_view db child r on in
      let video : c.video_id ≡ r.video_id = ground arith in
      let channel : c.channel_id ≡ r.channel_id = ground arith in
      (r, m, live, video, channel, rw (video, channel) sees)

  candidates-IsAllowed : All IsAllowed (candidates db feeds child)
  unfolding candidates
  candidates-IsAllowed =
      filter_map-All (λ r. Member r feeds.channel_videos × (is_shown db child r ≡ true)) IsAllowed _
        _ (λ r c h e. row-IsAllowed r (find_video r.video_id feeds.videos) c h e)
        (select-All (λ r. Member r feeds.channel_videos) (is_shown db child) feeds.channel_videos
          (All-Member feeds.channel_videos))

  ordered_rows-IsAllowed : All IsAllowed (ordered_rows db feeds child)
  unfolding ordered_rows
  ordered_rows-IsAllowed =
      newest_first-All IsAllowed _
        (first_rows-All IsAllowed [] _ (newest_first-All IsAllowed _ candidates-IsAllowed))

  ordered_rows-IsDistinct : IsDistinct (ordered_rows db feeds child)
  unfolding ordered_rows
  ordered_rows-IsDistinct = newest_first-IsDistinct _ (first_rows-IsDistinct [] _)

  -- The item stems from a live row of a video that the child may view.
  abbrev pub IsViewable : NewVideoItem → Type 0
  IsViewable i =
      (r : ChannelVideo) × Member r feeds.channel_videos
      × (r.is_deleted ≡ false)
      × (i.video_id ≡ r.video_id)
      × (i.channel_id ≡ some r.channel_id)
      × (can_child_view db child i.video_id i.channel_id ≡ true)

-- No two items show one video.
abbrev pub HasOneEach : List NewVideoItem → Type 0
HasOneEach [] = Unit
HasOneEach (i ∷ is) =
    All (λ (j : NewVideoItem). text_eq i.video_id j.video_id ≡ false) is × HasOneEach is

take-IsDistinct : (n : ℕ) (cs : List Candidate) → IsDistinct cs → IsDistinct (take n cs)
take-IsDistinct zero cs h = tt
take-IsDistinct (suc n) [] h = tt
take-IsDistinct (suc n) (c ∷ cs) h = (take-All (Differs c) n cs h.0, take-IsDistinct n cs h.1)

items-HasOneEach : (cs : List Candidate) → IsDistinct cs → HasOneEach (map new_video_item cs)
unfolding new_video_item
items-HasOneEach [] h = tt
items-HasOneEach (c ∷ cs) h =
    (map-All (Differs c) _ new_video_item cs (λ d k. k) h.0, items-HasOneEach cs h.1)

-- Every item of a child's feed stems from a row of its channel that is no tombstone, and shows a
-- video that the child may view by the decision on access; no video occurs twice, and there are no
-- more items than the limit.
pub feed_for_child-IsViewable :
    (db : Tables) (feeds : Feeds) (child limit : ℕ)
    → All (IsViewable db feeds child) (feed_for_child db feeds child limit)
      × HasOneEach (feed_for_child db feeds child limit)
      × (length (feed_for_child db feeds child limit) ≤ limit)
unfolding feed_for_child new_video_item
feed_for_child-IsViewable db feeds child limit =
    let rows = ordered_rows db feeds child in
    (
      map-All (IsAllowed db feeds child) (IsViewable db feeds child) new_video_item
          (take limit rows)
          (λ c (r, m, live, video, channel, sees). (r, m, live, video, ap some channel, sees))
          (take-All (IsAllowed db feeds child) limit rows (ordered_rows-IsAllowed db feeds child)),
      items-HasOneEach (take limit rows)
          (take-IsDistinct limit rows (ordered_rows-IsDistinct db feeds child)),
      omega (arith, length-map (take limit rows) new_video_item, length-take limit rows),
    )

-- The candidate is what the query makes of a row that the child is shown.
abbrev pub IsJoined : Tables → Feeds → ℕ → Candidate → Type 0
IsJoined db feeds child d =
    (s : ChannelVideo) × Member s feeds.channel_videos
    × (is_shown db child s ≡ true)
    × (joined_video feeds.sources s (find_video s.video_id feeds.videos) ≡ some d)

ordered_rows-IsJoined :
    (db : Tables) (feeds : Feeds) (child : ℕ)
    → All (IsJoined db feeds child) (ordered_rows db feeds child)
unfolding ordered_rows candidates
ordered_rows-IsJoined db feeds child =
    let P = IsJoined db feeds child in
    let all =
      filter_map-All (λ r. Member r feeds.channel_videos × (is_shown db child r ≡ true)) P _ _
        (λ r c h e. (r, h.0, h.1, e))
        (select-All (λ r. Member r feeds.channel_videos) (is_shown db child) feeds.channel_videos
          (All-Member feeds.channel_videos)) in
    newest_first-All P _ (first_rows-All P [] _ (newest_first-All P _ all))

-- When the candidate counts as published.
abbrev pub time_of : Candidate → ℕ
time_of c = elim c.published_at [ none ↦ c.last_seen_at | some t ↦ t ]

-- The first candidate is the newer one, or it is as new and was seen no earlier.
abbrev pub IsNotOlder : Candidate → Candidate → Type 0
IsNotOlder d c =
    (time_of c < time_of d) ⊎ ((time_of d ≡ time_of c) × (c.last_seen_at ≤ d.last_seen_at))

comes_first-IsNotOlder : (d c : Candidate) → comes_first d c ≡ true → IsNotOlder d c
unfolding comes_first shown_at
comes_first-IsNotOlder d c on = ground (arith, on)

-- Where the limit does not cut, every live row of a video that the table `videos` has, of a channel
-- on the child's allowlist, and that is neither blocked nor hidden, has in the feed an item of its
-- video. That item is made from such a row, and that row is newer than the given one, or as new
-- and seen no earlier; a row without a time of publication counts from when it was seen last.
pub feed_for_child-newest :
    (db : Tables) (feeds : Feeds) (child limit : ℕ) (r : ChannelVideo) (v : Video) (c : Candidate)
    → Member r feeds.channel_videos
    → is_shown db child r ≡ true
    → find_video r.video_id feeds.videos ≡ some v
    → joined_video feeds.sources r (some v) ≡ some c
    → length (ordered_rows db feeds child) ≤ limit
    → (d : Candidate) × Member (new_video_item d) (feed_for_child db feeds child limit)
      × (d.video_id ≡ c.video_id)
      × IsJoined db feeds child d
      × IsNotOlder d c
unfolding feed_for_child ordered_rows candidates
feed_for_child-newest db feeds child limit r v c m on found joined fits =
    let f =
      λ (x : ChannelVideo). joined_video feeds.sources x (find_video x.video_id feeds.videos) in
    let cands =
      filter_map-Member f r c (select (is_shown db child) feeds.channel_videos)
        (select-Member (is_shown db child) r feeds.channel_videos m on) (rw found joined) in
    let all = candidates db feeds child in
    let first =
      first_rows-first (newest_first all) c (newest_first-IsOrdered all)
        (newest_first-Member c all cands) in
    let (d, shown, same, before) = first in
    let listed = newest_first-Member d (first_rows [] (newest_first all)) shown in
    (
      d,
      map-Member new_video_item d (take limit (ordered_rows db feeds child))
          (take-Member limit d (ordered_rows db feeds child) fits listed),
      same,
      Member-All (IsJoined db feeds child) d (ordered_rows db feeds child) listed
          (ordered_rows-IsJoined db feeds child),
      comes_first-IsNotOlder d c before,
    )
