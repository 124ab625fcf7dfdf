-- ===== src/Tests/Accounts.antt =====
-- The theorems about src/services/access.rs and src/routes/auth.rs, at concrete inputs.
use hometube.Prelude.{
  ℕ, ◌≡◌, ◌⊎◌, ◌↔◌, refl, true, false, none, some, List, [], ◌∷◌, if◌then◌else◌, arith,
}
use hometube.Prelude.Assoc.{Assoc, get}
use hometube.Prelude.Sql.{Member, count}
use hometube.Prelude.Text.{Text, codes, text_eq}
use hometube.Access.{
  Tables, entry, can_child_view, can_child_view_iff, is_entry, is_allowlisted_channel,
}
use hometube.Auth.Throttle.{in_window, recent}
use hometube.Auth.Switch.{
  State, Verdict, accepted, forbidden_pin, Request, too_many_requests, parent, child, switch,
}
use hometube.Auth.Entry.{switch-throttled}

-- What the tests compute with.
program : Unit {0}
unfolding text_eq count is_entry is_allowlisted_channel get recent in_window
program = tt

abbrev video : Text
video = codes "v"

abbrev channel : Text
channel = codes "c"

abbrev db : Tables
db = record {
  blocked_videos = [];
  hidden_videos = entry 2 video ∷ [];
  allowlisted_videos = [];
  allowlisted_channels = entry 1 channel ∷ [];
  accounts = [];
}

can_child_view_iff_example : (can_child_view db 1 video (some channel) ≡ true) ↔ (
    (Member (entry 1 video) db.blocked_videos → false ≡ true)
    × (Member (entry 1 video) db.hidden_videos → false ≡ true)
    × (Member (entry 1 video) db.allowlisted_videos
        ⊎ ((c : Text) × (some channel ≡ some c) × Member (entry 1 c) db.allowlisted_channels)))
can_child_view_iff_example = can_child_view_iff db 1 video (some channel)

allowlists : is_allowlisted_channel db 1 channel ≡ true
unfolding program
allowlists = refl

abbrev ip : Text
ip = codes "10.0.0.1"

abbrev other : Text
other = codes "10.0.0.2"

abbrev failures : Assoc (List ℕ)
failures = (ip, 1 ∷ 2 ∷ 3 ∷ 4 ∷ 5 ∷ []) ∷ []

abbrev verify_pin : Text → Text → Verdict
verify_pin hash pin = if text_eq hash pin then accepted else forbidden_pin

abbrev state : State
state = record {
  failures = failures;
  accounts =
      record { id = 1; account_type = parent; pin_hash = some (codes "1234") }
      ∷ record { id = 2; account_type = child; pin_hash = none }
      ∷ [];
  sessions = [];
  parent_notifications = [];
}

abbrev request : Text → Request
request peer = record {
  instant = 6;
  now = 1000;
  window_start = 700;
  peer_ip = some peer;
  current = none;
  account_id = 2;
  pin = some (codes "1234");
  new_session_id = codes "s";
  deletes_session = true;
  creates_session = true;
}

five_recent : recent 6 ip failures ≡ 5
unfolding program
five_recent = refl

switch-throttled_example : (switch verify_pin (request ip) state).1 ≡ too_many_requests
switch-throttled_example =
    switch-throttled verify_pin (request ip) state ip refl (omega (arith, five_recent))
