-- ===== src/Tests/Requests.antt =====
-- The theorems about the sessions of src/models/session.rs, the sleep timer of src/routes/timer.rs and the
-- thumbnails of src/services/thumbnail_store.rs, at concrete inputs.
use hometube.Prelude.{
  ◌+◌, ◌*◌, ◌≡◌, ◌≢◌, refl, true, false, none, some, [], ◌∷◌, arith, leb, if◌then◌else◌,
}
use hometube.Prelude.Int.{pos}
use hometube.Prelude.Text.{Text, codes, text_eq}
use hometube.Prelude.Sql.{exists, count}
use hometube.Sessions as Sessions
use hometube.Sessions.{
  Session, Account, CurrentAccount, child, has_session_id, find_session, find_account,
  lookup_with_account, session_layer, delete_session, typed, parse, current_of,
}
use hometube.Sessions.Lifetime.{session_layer-create, session_layer-IsBacked, IsBacked}
use hometube.Thumbnails as Thumbnails
use hometube.Thumbnails.{
  Thumbnails, is_safe_video_id, all_id_bytes, is_id_byte, put, no_fault, thumbnail_path, row_of,
  channel_cache_key,
}
use hometube.Thumbnails.Stored.{get-put}
use hometube.Timer as Timer
use hometube.Timer.{Timers, SleepTimer, CreateBody, of_child, IsSingle}
use hometube.Timer.Answered.{Answered, create-Answered}

-- What the tests compute with.
program : Unit {0}
unfolding text_eq exists has_session_id find_session find_account lookup_with_account session_layer
    typed parse Sessions.create count
program = tt

abbrev account : Account
account = record { account_id = 4; display_name = codes "Kim"; account_type = codes "child" }

abbrev id : Text
id = codes "abc"

abbrev session : Session
session = record { id = id; account_id = 4; expires_at = 604900; created_at = 100 }

abbrev before : Sessions.Tables
before = record { sessions = []; accounts = account ∷ [] }

abbrev after : Sessions.Tables
after = record { sessions = session ∷ []; accounts = account ∷ [] }

creates : Sessions.create id 100 4 before ≡ (after, some session)
unfolding program
creates = refl

session_layer-create_example :
    (a : Account) × (find_account 4 before.accounts ≡ some a)
    × ((session_layer true true 500 (some id) after).current
        ≡ (if leb (100 + 7 * 86400) 500 then none else some (current_of id a)))
    × ((session_layer true true 500 (some id) (delete_session true id after)).current ≡ none)
session_layer-create_example = session_layer-create id 100 4 500 true before after session creates

abbrev kim : CurrentAccount
kim = record { account_id = 4; display_name = codes "Kim"; account_type = child; session_id = id }

resolves : (session_layer true true 500 (some id) after).current ≡ some kim
unfolding program
resolves = refl

session_layer-IsBacked_example : IsBacked 500 (some id) after kim
session_layer-IsBacked_example = session_layer-IsBacked true true 500 (some id) after kim resolves

abbrev no_timers : Timers
no_timers = record { rows = []; next_id = 1 }

no_timers-IsSingle : IsSingle no_timers
unfolding program
no_timers-IsSingle c = omega arith

abbrev half_hour : CreateBody
half_hour = record { type_text = codes "minutes"; minutes_asked = some (pos 30) }

-- The SELECT after the COMMIT fails.
abbrev unread : Timer.Answers
unread = record { begins = true; commits = true; reads_back = false }

create-Answered_example :
    Answered unread 4 100 half_hour no_timers (Timer.create unread 4 100 half_hour no_timers)
create-Answered_example = create-Answered unread 4 100 half_hour no_timers no_timers-IsSingle

abbrev no_thumbnails : Thumbnails
no_thumbnails = record { rows = []; files = λ path. none }

safe_id : is_safe_video_id (codes "a-Z9") ≡ true
unfolding program is_safe_video_id all_id_bytes is_id_byte
safe_id = refl

get-put_example :
    ((Thumbnails.get true true 9
        (codes "a-Z9")
        (put no_fault 5 (codes "/c") (codes "a-Z9") (1 ∷ 2 ∷ []) no_thumbnails).0).1
      ≡ some (thumbnail_path (codes "/c") (codes "a-Z9")))
    × ((put no_fault 5 (codes "/c") (codes "a-Z9") (1 ∷ 2 ∷ []) no_thumbnails).0.files
          (thumbnail_path (codes "/c") (codes "a-Z9"))
        ≡ some (1 ∷ 2 ∷ []))
    × ((other : Text)
        → other ≢ codes "a-Z9"
        → row_of other
            (put no_fault 5 (codes "/c") (codes "a-Z9") (1 ∷ 2 ∷ []) no_thumbnails).0.rows
          ≡ row_of other [])
    × ((channel : Text)
        → row_of
            (channel_cache_key channel)
            (put no_fault 5 (codes "/c") (codes "a-Z9") (1 ∷ 2 ∷ []) no_thumbnails).0.rows
          ≡ row_of (channel_cache_key channel) [])
get-put_example = get-put 5 9 true (codes "/c") (codes "a-Z9") (1 ∷ 2 ∷ []) no_thumbnails safe_id
