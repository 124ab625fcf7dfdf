-- ===== src/Timer/Answered.antt =====
-- What `create` of src/routes/timer.rs answers, and what the children read afterwards.
use mathlib.Core.Path.{subst}
use hometube.Prelude.{
  ℕ, suc, ◌+◌, ◌*◌, ◌≤◌, ◌≡◌, ◌≢◌, ◌⊎◌, refl, sym, ◌∙◌, true, false, ◌&&◌, Bool-cases, inl, inr,
  Option, none, some, List, [], ◌∷◌, arith, ◌==◌, if◌then◌else◌,
}
use hometube.Prelude.Int.{ℤ, pos, negsuc, leb_ℤ}
use hometube.Prelude.Text.{Text, codes, text_eq, text_eq_iff}
use hometube.Prelude.Sql.{delete, count}
use hometube.Timer.{
  TimerType, SleepTimer, Timers, CreateBody, Response, of_child, first_of, get, timer_type, Answers,
  insert_timer, create, IsSingle, in_minutes, of_type, of_text, after_video, minutes, timer,
  bad_type, minutes_missing, minutes_out_of_range, database_error,
}

count-delete :
    (child other : ℕ) (rows : List SleepTimer)
    → count (of_child other) (delete (of_child child) rows)
      ≡ (if child == other then 0 else count (of_child other) rows)
unfolding count delete of_child
count-delete child other [] = ground arith
count-delete child other (t ∷ rows) =
    let rest = count-delete child other rows in
    elim (Bool-cases (t.child_account_id == child)) [
      | inl on ↦ rw on (rest ∙ ground (arith, on))
      | inr off ↦ rw off (rw rest (ground (arith, off)))
    ]

first_of-delete :
    (child other : ℕ) (rows : List SleepTimer)
    → other ≢ child
    → first_of other (delete (of_child child) rows) ≡ first_of other rows
unfolding first_of delete of_child
first_of-delete child other [] ne = refl
first_of-delete child other (t ∷ rows) ne = elim (Bool-cases (t.child_account_id == child)) [
  | inl on ↦
      let differ : (t.child_account_id == other) ≡ false =
        elim (Bool-cases (t.child_account_id == other)) [
          | inl same ↦ absurd (ne (ground (arith, on, same)))
          | inr d ↦ d
        ] in
      rw on (rw differ (first_of-delete child other rows ne))
  | inr off ↦ rw off (elim (Bool-cases (t.child_account_id == other)) [
    | inl here ↦ rw here refl
    | inr there ↦ rw there (first_of-delete child other rows ne)
  ])
]

text_differs : {s t : Text} → text_eq s t ≡ false → s ≢ t
text_differs {s} {t} off same = absurd (cc (off, (text_eq_iff s t).1 same))

-- The timer is what the body asks for at the time.
abbrev pub IsAsked : ℕ → CreateBody → SleepTimer → Type 0
IsAsked now body t =
    ((body.type_text ≡ codes "after_video")
      × (t.timer_type ≡ after_video)
      × (t.minutes_remaining ≡ none)
      × (t.videos_remaining ≡ some 1)
      × (t.expires_at ≡ none))
    ⊎ ((body.type_text ≡ codes "minutes")
        × ((m : ℕ) × (body.minutes_asked ≡ some (pos m))
            × (1 ≤ m)
            × (m ≤ 180)
            × (t.timer_type ≡ minutes)
            × (t.minutes_remaining ≡ some m)
            × (t.videos_remaining ≡ none)
            × (t.expires_at ≡ some (now + m * 60))))

-- Why a request is refused, as the response says.
abbrev pub IsRefused : Answers → CreateBody → Response → Type 0
IsRefused answers body r =
    ((r ≡ bad_type) × (body.type_text ≢ codes "after_video") × (body.type_text ≢ codes "minutes"))
    ⊎ ((r ≡ minutes_missing) × (body.type_text ≡ codes "minutes") × (body.minutes_asked ≡ none))
    ⊎ ((r ≡ minutes_out_of_range)
        × (body.type_text ≡ codes "minutes")
        × ((m : ℤ) × (body.minutes_asked ≡ some m)
            × ((leb_ℤ (pos 1) m && leb_ℤ m (pos 180)) ≡ false)))
    ⊎ ((r ≡ database_error) × ((answers.begins && answers.commits) ≡ false))

-- Either the timer that is asked for is what the child reads next, and the response, unless the
-- SELECT after the COMMIT fails; or the table stays and the response says why.
abbrev pub Answered : Answers → ℕ → ℕ → CreateBody → Timers → Timers × Response → Type 0
Answered answers child now body db result =
    (((t : SleepTimer) × IsAsked now body t
        × (t.child_account_id ≡ child)
        × (t.started_at ≡ now)
        × ((answers.begins && answers.commits) ≡ true)
        × (get child result.0 ≡ some t)
        × (result.1 ≡ (if answers.reads_back then timer t else database_error)))
      ⊎ (IsRefused answers body result.1 × (result.0 ≡ db)))
    × ((other : ℕ) → other ≢ child → get other result.0 ≡ get other db)
    × IsSingle result.0

module _ (answers : Answers) (child now : ℕ) (body : CreateBody) (db : Timers)
    (single : IsSingle db) where
  refused-Answered :
      (r : Response) → IsRefused answers body r → Answered answers child now body db (db, r)
  refused-Answered r why = (inr (why, refl), (λ other ne. refl), single)

  -- An outcome is answered as one that it equals.
  as_outcome :
      {result other : Timers × Response}
      → result ≡ other
      → Answered answers child now body db other
      → Answered answers child now body db result
  as_outcome e h = subst (Answered answers child now body db) (sym e) h

  begins_not : answers.begins ≡ false → Answered answers child now body db (db, database_error)
  begins_not off = refused-Answered database_error (inr (inr (inr (refl, ground (arith, off)))))

  insert-Answered :
      (kind : TimerType) (minutes_left videos_left expires_at : Option ℕ)
      → answers.begins ≡ true
      → ((id : ℕ)
          → IsAsked now body (record {
            id = id;
            child_account_id = child;
            timer_type = kind;
            minutes_remaining = minutes_left;
            videos_remaining = videos_left;
            started_at = now;
            expires_at = expires_at;
          }))
      → Answered answers child now body db
          (insert_timer answers child now kind minutes_left videos_left expires_at db)
  unfolding insert_timer get first_of count of_child
  insert-Answered kind minutes_left videos_left expires_at began asked =
      let row : SleepTimer = record {
        id = db.next_id;
        child_account_id = child;
        timer_type = kind;
        minutes_remaining = minutes_left;
        videos_remaining = videos_left;
        started_at = now;
        expires_at = expires_at;
      } in
      let after : Timers × Response = (
        record { rows = row ∷ delete (of_child child) db.rows; next_id = suc db.next_id },
        if answers.reads_back then timer row else database_error,
      ) in
      elim (Bool-cases answers.commits) [
        | inr off ↦
            as_outcome (rw off refl)
              (refused-Answered database_error (inr (inr (inr (refl, ground (arith, off))))))
        | inl on ↦ as_outcome {other = after} (rw on refl) (
          inl (row, asked db.next_id, refl, refl, ground (arith, began, on), ground arith, refl),
          (λ other ne.
              let differ : (child == other) ≡ false = elim (Bool-cases (child == other)) [
                | inl same ↦ absurd (ne (ground (arith, same)))
                | inr d ↦ d
              ] in
              rw differ (first_of-delete child other db.rows ne)),
          (λ other. rw (count-delete child other db.rows) (ground (arith, single other))),
        )
      ]

  minutes-Answered :
      (asked : Option ℤ)
      → answers.begins ≡ true
      → body.type_text ≡ codes "minutes"
      → body.minutes_asked ≡ asked
      → Answered answers child now body db (in_minutes answers child now asked db)
  unfolding in_minutes
  minutes-Answered none began text e = refused-Answered minutes_missing (inr (inl (refl, text, e)))
  minutes-Answered (some (negsuc k)) began text e =
      let outside : (leb_ℤ (pos 1) (negsuc k) && leb_ℤ (negsuc k) (pos 180)) ≡ false =
        ground arith in
      as_outcome (rw outside refl) (
        refused-Answered minutes_out_of_range
          (inr (inr (inl (refl, text, (negsuc k, e, outside))))))
  minutes-Answered (some (pos m)) began text e =
      elim (Bool-cases (leb_ℤ (pos 1) (pos m) && leb_ℤ (pos m) (pos 180))) [
        | inl inside ↦
            let low : 1 ≤ m = ground (arith, inside) in
            let high : m ≤ 180 = ground (arith, inside) in
            rw inside (
              insert-Answered minutes (some m) none (some (now + m * 60)) began
                (λ id. inr (text, (m, e, low, high, refl, refl, refl, refl))))
        | inr outside ↦ rw outside (
            refused-Answered minutes_out_of_range
              (inr (inr (inl (refl, text, (pos m, e, outside))))))
      ]

-- A timer that the child asks for with a known type, and for minutes with a number of 1 to 180, is
-- what the child reads next, if the transaction succeeds; it is the response too, unless the SELECT
-- after the COMMIT fails. Every other request leaves the table as it was, and the response says
-- why: an unknown type, minutes that are missing or out of range, or the transaction. In all cases
-- other children read what they read before, and every child has one timer at most, if that was
-- so.
pub create-Answered :
    (answers : Answers) (child now : ℕ) (body : CreateBody) (db : Timers)
    → IsSingle db
    → Answered answers child now body db (create answers child now body db)
unfolding create of_text of_type timer_type
create-Answered answers child now body db single =
    elim (Bool-cases (text_eq body.type_text (codes "after_video"))) [
      | inl video ↦ elim (Bool-cases answers.begins) [
        | inl on ↦ as_outcome answers child now body db single (rw (video, on) refl) (
            insert-Answered answers child now body db single after_video none (some 1) none on
              (λ id. inl ((text_eq_iff _ _).0 video, refl, refl, refl, refl)))
        | inr off ↦
            as_outcome answers child now body db single (rw (video, off) refl)
              (begins_not answers child now body db single off)
      ]
      | inr other ↦ elim (Bool-cases (text_eq body.type_text (codes "minutes"))) [
        | inl text ↦ elim (Bool-cases answers.begins) [
          | inl on ↦ as_outcome answers child now body db single (rw (other, text, on) refl) (
              minutes-Answered answers child now body db single body.minutes_asked on
                ((text_eq_iff _ _).0 text) refl)
          | inr off ↦
              as_outcome answers child now body db single (rw (other, text, off) refl)
                (begins_not answers child now body db single off)
        ]
        | inr unknown ↦ as_outcome answers child now body db single (rw (other, unknown) refl) (
            refused-Answered answers child now body db single bad_type
              (inl (refl, text_differs other, text_differs unknown)))
      ]
    ]
