-- ===== src/Timer.antt =====
-- The sleep timer of src/routes/timer.rs: the table `sleep_timers` and the three handlers. Every row
-- has `is_active = 1`, since the handlers write no other value. Times are unix seconds.
pub mod Answered
use mathlib.Core.Path.{subst}
use hometube.Prelude.{
  ℕ, suc, ◌+◌, ◌*◌, ◌≤◌, ◌≡◌, ◌≢◌, ◌⊎◌, refl, sym, ◌∙◌, Bool, true, false, ◌&&◌, Bool-cases, inl,
  inr, Option, none, some, List, [], ◌∷◌, arith, ◌==◌, if◌then◌else◌,
}
use hometube.Prelude.Int.{ℤ, pos, negsuc, leb_ℤ, pos_part}
use hometube.Prelude.Text.{Text, codes, text_eq, text_eq_iff}
use hometube.Prelude.Sql.{delete, count}

pub data TimerType : Type 0 where
  after_video minutes : TimerType

pub record SleepTimer : Type 0 where
  pub id : ℕ
  pub child_account_id : ℕ
  pub timer_type : TimerType
  pub minutes_remaining : Option ℕ
  pub videos_remaining : Option ℕ
  pub started_at : ℕ
  pub expires_at : Option ℕ

pub record Timers : Type 0 where
  pub rows : List SleepTimer
  pub next_id : ℕ

-- `CreateBody`
pub record CreateBody : Type 0 where
  pub type_text : Text
  pub minutes_asked : Option ℤ

pub data Response : Type 0 where
  timer : SleepTimer → Response
  bad_type minutes_missing minutes_out_of_range database_error : Response

unfoldable pub of_child : ℕ → SleepTimer → Bool
of_child child t = t.child_account_id == child

unfoldable pub first_of : ℕ → List SleepTimer → Option SleepTimer
unfolding of_child
first_of child [] = none
first_of child (t ∷ rows) = if of_child child t then some t else first_of child rows

-- `GET /api/timer`
unfoldable pub get : ℕ → Timers → Option SleepTimer
unfolding first_of
get child db = first_of child db.rows

unfoldable pub timer_type : Text → Option TimerType
timer_type s =
    if text_eq s (codes "after_video")
    then some after_video
    else if text_eq s (codes "minutes")
    then some minutes
    else none

-- What the database answers: whether the transaction starts and its DELETE succeeds, whether its
-- other statements and the COMMIT succeed, and whether the SELECT after the COMMIT gives the row.
pub record Answers : Type 0 where
  pub begins : Bool
  pub commits : Bool
  pub reads_back : Bool

-- The transaction from its INSERT on, and the SELECT after it. Where it does not commit, its DELETE is
-- rolled back; where the SELECT fails the row is there all the same.
unfoldable pub insert_timer :
    Answers → ℕ → ℕ → TimerType → Option ℕ → Option ℕ → Option ℕ → Timers → Timers × Response
unfolding of_child
insert_timer answers child now kind minutes_left videos_left expires_at db =
    let row : SleepTimer = record {
      id = db.next_id;
      child_account_id = child;
      timer_type = kind;
      minutes_remaining = minutes_left;
      videos_remaining = videos_left;
      started_at = now;
      expires_at = expires_at;
    } in
    let response : Response = if answers.reads_back then timer row else database_error in
    if answers.commits
    then (
      record { rows = row ∷ delete (of_child child) db.rows; next_id = suc db.next_id },
      response,
    )
    else (db, database_error)

unfoldable pub in_minutes : Answers → ℕ → ℕ → Option ℤ → Timers → Timers × Response
in_minutes answers child now none db = (db, minutes_missing)
in_minutes answers child now (some m) db =
    if leb_ℤ (pos 1) m && leb_ℤ m (pos 180)
    then insert_timer answers child now minutes (some (pos_part m)) none
        (some (now + pos_part m * 60)) db
    else (db, minutes_out_of_range)

unfoldable pub of_type : Answers → ℕ → ℕ → Option ℤ → TimerType → Timers → Timers × Response
unfolding in_minutes insert_timer
of_type answers child now asked after_video db =
    insert_timer answers child now after_video none (some 1) none db
of_type answers child now asked minutes db = in_minutes answers child now asked db

unfoldable pub of_text : Answers → ℕ → ℕ → Option ℤ → Option TimerType → Timers → Timers × Response
unfolding of_type
of_text answers child now asked none db = (db, bad_type)
of_text answers child now asked (some kind) db =
    if answers.begins then of_type answers child now asked kind db else (db, database_error)

-- `POST /api/timer`
unfoldable pub create : Answers → ℕ → ℕ → CreateBody → Timers → Timers × Response
unfolding of_text timer_type
create answers child now body db =
    of_text answers child now body.minutes_asked (timer_type body.type_text) db

-- `DELETE /api/timer`
unfoldable pub cancel : Bool → ℕ → Timers → Timers
unfolding of_child
cancel answers child db =
    if answers then record db { rows = delete (of_child child) db.rows } else db

-- Every child has one timer at most.
abbrev pub IsSingle : Timers → Type 0
IsSingle db = (child : ℕ) → count (of_child child) db.rows ≤ 1
