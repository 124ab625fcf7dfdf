-- ===== src/Sabr.antt =====
-- The SABR-only verdict and the cookie generation of src/services/ytdlp.rs. An instant is a number
-- of nanoseconds; the generation is a `u64`, whose wrap-around is written out.
use hometube.Prelude.{
  ℕ, ◌+◌, ◌*◌, ◌%◌, ◌^◌, ◌<◌, ◌≡◌, ◌≢◌, refl, sym, ◌∙◌, Bool, false, Bool-cases, inl, inr, Option,
  none, some, List, [], ◌∷◌, arith, ltb, ◌==◌, ==_iff, if◌then◌else◌,
}

pub record SabrSessionMemo : Type 0 where
  pub generation : ℕ
  pub verdict_until : Option ℕ

-- `SABR_ONLY_SESSION_MEMO_TTL`
abbrev pub sabr_only_session_memo_ttl : ℕ
sabr_only_session_memo_ttl = 60 * 60 * 1000000000

abbrev pub generations : ℕ
generations = 2 ^ 64

unfoldable pub cookie_generation : SabrSessionMemo → ℕ
cookie_generation memo = memo.generation

unfoldable pub begin_cookie_change : SabrSessionMemo → SabrSessionMemo
begin_cookie_change memo = record memo {
  generation = (memo.generation + 1) % generations;
  verdict_until = none;
}

unfoldable pub forget_sabr_only_session : SabrSessionMemo → SabrSessionMemo
forget_sabr_only_session memo = record memo {
  generation = (memo.generation + 1) % generations;
  verdict_until = none;
}

unfoldable pub clear_sabr_only_verdict : SabrSessionMemo → SabrSessionMemo
clear_sabr_only_verdict memo = record memo { verdict_until = none }

unfoldable pub sabr_only_session_active : ℕ → SabrSessionMemo → Bool
sabr_only_session_active now memo = elim memo.verdict_until [
  | none ↦ false
  | some until ↦ ltb now until
]

unfoldable pub remember_sabr_only_session_for : ℕ → ℕ → SabrSessionMemo → SabrSessionMemo
remember_sabr_only_session_for now generation memo =
    if memo.generation == generation
    then record memo { verdict_until = some (now + sabr_only_session_memo_ttl) }
    else memo

unfoldable pub remember_sabr_only_session : ℕ → SabrSessionMemo → SabrSessionMemo
remember_sabr_only_session now memo =
    remember_sabr_only_session_for now (cookie_generation memo) memo

-- What the threads of the process call.
pub data Call : Type 0 where
  begin_change forget clear : Call
  remember_for : ℕ → ℕ → Call

unfoldable pub call : Call → SabrSessionMemo → SabrSessionMemo
call begin_change memo = begin_cookie_change memo
call forget memo = forget_sabr_only_session memo
call clear memo = clear_sabr_only_verdict memo
call (remember_for now generation) memo = remember_sabr_only_session_for now generation memo

unfoldable pub calls : List Call → SabrSessionMemo → SabrSessionMemo
calls [] memo = memo
calls (c ∷ cs) memo = calls cs (call c memo)

-- The starts and ends of cookie changes among the calls.
unfoldable pub changes : List Call → ℕ
changes [] = 0
changes (c ∷ cs) =
    (elim c [ begin_change ↦ 1 | forget ↦ 1 | clear ↦ 0 | remember_for now g ↦ 0 ]) + changes cs

next-generation :
    (g n : ℕ) → ((g + 1) % generations + n) % generations ≡ (g + (1 + n)) % generations
next-generation g n = omega arith

remember-generation :
    (now g : ℕ) (memo : SabrSessionMemo)
    → (remember_sabr_only_session_for now g memo).generation ≡ memo.generation
unfolding remember_sabr_only_session_for
remember-generation now g memo = elim (Bool-cases (memo.generation == g)) [
  | inl on ↦ rw on refl
  | inr off ↦ rw off refl
]

calls-generation :
    (cs : List Call) (memo : SabrSessionMemo)
    → memo.generation < generations
    → (calls cs memo).generation ≡ (memo.generation + changes cs) % generations
unfolding calls changes call begin_cookie_change forget_sabr_only_session clear_sabr_only_verdict
calls-generation [] memo small = omega arith
calls-generation (begin_change ∷ cs) memo small =
    calls-generation cs (begin_cookie_change memo) (omega arith)
    ∙ next-generation memo.generation (changes cs)
calls-generation (forget ∷ cs) memo small =
    calls-generation cs (forget_sabr_only_session memo) (omega arith)
    ∙ next-generation memo.generation (changes cs)
calls-generation (clear ∷ cs) memo small =
    omega (arith, calls-generation cs (clear_sabr_only_verdict memo) small)
calls-generation (remember_for now g ∷ cs) memo small =
    let next = remember_sabr_only_session_for now g memo in
    let same = remember-generation now g memo in
    let rest = calls-generation cs next (omega (arith, same)) in omega (arith, same, rest)

wrapped : (g n : ℕ) → g < generations → 0 < n → n < generations → (g + n) % generations ≢ g
wrapped g n small some_change few e = omega arith

-- The generation differs from what it was before a cookie change, as long as fewer than 2 ^ 64
-- starts and ends of changes have passed.
pub cookie_generation-changed :
    (cs : List Call) (memo : SabrSessionMemo)
    → memo.generation < generations
    → 0 < changes cs
    → changes cs < generations
    → ((calls cs memo).generation == memo.generation) ≡ false
cookie_generation-changed cs memo small some_change few =
    elim (Bool-cases ((calls cs memo).generation == memo.generation)) [
      | inl same ↦ absurd (
          wrapped memo.generation (changes cs) small some_change few
            (sym (calls-generation cs memo small) ∙ (==_iff _ _).0 same))
      | inr differ ↦ differ
    ]

-- Whatever else the process calls in between, a verdict of an extraction that started before a
-- cookie change is dropped, as long as fewer than 2 ^ 64 starts and ends of changes overtake it.
pub remember_sabr_only_session_for-stale :
    (cs : List Call) (memo : SabrSessionMemo) (now : ℕ)
    → memo.generation < generations
    → 0 < changes cs
    → changes cs < generations
    → remember_sabr_only_session_for now (cookie_generation memo) (calls cs memo) ≡ calls cs memo
unfolding remember_sabr_only_session_for cookie_generation
remember_sabr_only_session_for-stale cs memo now small some_change few =
    rw (cookie_generation-changed cs memo small some_change few) refl
