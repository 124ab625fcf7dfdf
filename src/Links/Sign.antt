-- ===== src/Links/Sign.antt =====
-- The signature over a query string of src/services/dash.rs: `sign_query`, `verify_query` and
-- `constant_time_eq`. HMAC-SHA256 is a parameter, a function of the secret and the message.
use Prim.Native.Nat.{bit_or, bit_xor}
use hometube.Prelude.{
  ℕ, ◌≡◌, ◌≢◌, ◌⊎◌, ◌↔◌, refl, sym, ap, Bool, true, false, not, Bool-cases, inl, inr, List, [], ◌∷◌,
  ◌++◌, arith, ◌==◌, if◌then◌else◌, length,
}
use hometube.Prelude.Bits.{bit_or-zero, bit_xor-zero, bit_xor_self}
use hometube.Prelude.Text.{
  Text, text_eq, text_eq_iff, text_le, Lacks, Lacks-append, Lacks-not-append, split-first,
}
use hometube.Links.Encode.{
  percent_encode, percent_encode-injective, hex_encode, hex_encode-injective, is_unreserved,
  Lacks-percent_encode,
}

abbrev pub Params : Type 0
Params = List (Text × Text)

-- The order of pairs of strings.
unfoldable pub pair_le : Text × Text → Text × Text → Bool
pair_le p q = if text_eq p.0 q.0 then text_le p.1 q.1 else text_le p.0 q.0

unfoldable pub insert_pair : Text × Text → Params → Params
insert_pair p [] = p ∷ []
insert_pair p (q ∷ ps) = let rest = insert_pair p ps in if pair_le p q then p ∷ q ∷ ps else q ∷ rest

unfoldable pub sort_pairs : Params → Params
sort_pairs [] = []
sort_pairs (p ∷ ps) = insert_pair p (sort_pairs ps)

unfoldable pub pair_text : Text × Text → Text
pair_text p = percent_encode p.0 ++ (b'=' ∷ percent_encode p.1)

-- `collect::<Vec<_>>().join("&")`
unfoldable pub join_pairs : Params → Text
join_pairs [] = []
join_pairs (p ∷ []) = pair_text p
join_pairs (p ∷ q ∷ ps) = pair_text p ++ (b'&' ∷ join_pairs (q ∷ ps))

unfoldable pub canonical : Params → Text
canonical params = join_pairs (sort_pairs params)

-- The loop of `constant_time_eq` over the bytes of two texts of one length.
unfoldable pub diff_loop : ℕ → Text → Text → ℕ
diff_loop diff [] b = diff
diff_loop diff (x ∷ a) [] = diff
diff_loop diff (x ∷ a) (y ∷ b) = diff_loop (bit_or diff (bit_xor x y)) a b

unfoldable pub constant_time_eq : Text → Text → Bool
constant_time_eq a b = if not (length a == length b) then false else diff_loop 0 a b == 0

diff_loop-zero :
    (d : ℕ) (a b : Text) → length a ≡ length b → diff_loop d a b ≡ 0 → (d ≡ 0) × (a ≡ b)
unfolding diff_loop
diff_loop-zero d [] [] h e = (e, refl)
diff_loop-zero d [] (y ∷ b) h e = absurd (omega arith)
diff_loop-zero d (x ∷ a) [] h e = absurd (omega arith)
diff_loop-zero d (x ∷ a) (y ∷ b) h e =
    let rest = diff_loop-zero (bit_or d (bit_xor x y)) a b (omega arith) e in
    let parts = bit_or-zero d (bit_xor x y) rest.0 in
    (parts.0, cc (bit_xor-zero x y parts.1, rest.1))

diff_loop_self : (a : Text) → diff_loop 0 a a ≡ 0
unfolding diff_loop
diff_loop_self [] = refl
diff_loop_self (x ∷ a) = rw (bit_xor_self x) (diff_loop_self a)

-- The comparison that does not stop early answers whether the texts are equal.
pub constant_time_eq_iff : (a b : Text) → (constant_time_eq a b ≡ true) ↔ (a ≡ b)
unfolding constant_time_eq
constant_time_eq_iff a b = (sound a b, λ e. rw e (ground (arith, diff_loop_self b)))
  where
    sound : (a b : Text) → constant_time_eq a b ≡ true → a ≡ b
    sound a b e = (diff_loop-zero 0 a b (ground arith) (ground arith)).1

module _ (mac : Text → Text → List ℕ) where
  unfoldable pub sign_query : Text → Params → Text
  sign_query secret params = hex_encode (mac secret (canonical params))

  unfoldable pub verify_query : Text → Params → Text → Bool
  verify_query secret params signature = constant_time_eq (sign_query secret params) signature

pair_text-injective : (p q : Text × Text) → pair_text p ≡ pair_text q → p ≡ q
unfolding pair_text is_unreserved
pair_text-injective p q e =
    let parts =
      split-first b'=' (percent_encode p.0) (percent_encode q.0) (percent_encode p.1)
        (percent_encode q.1) (Lacks-percent_encode b'=' p.0 refl (λ h. omega arith) (omega arith))
        (Lacks-percent_encode b'=' q.0 refl (λ h. omega arith) (omega arith)) e in
    cc (percent_encode-injective p.0 q.0 parts.0, percent_encode-injective p.1 q.1 parts.1)

Lacks-pair_text : (p : Text × Text) → Lacks b'&' (pair_text p)
unfolding pair_text is_unreserved
Lacks-pair_text p =
    Lacks-append b'&' (percent_encode p.0) (b'=' ∷ percent_encode p.1)
      (Lacks-percent_encode b'&' p.0 refl (λ h. omega arith) (omega arith))
      ((λ h. omega arith), Lacks-percent_encode b'&' p.1 refl (λ h. omega arith) (omega arith))

append_cons-ne-nil : (s t : Text) (c : ℕ) → s ++ c ∷ t ≢ []
append_cons-ne-nil [] t c e = absurd (ground arith)
append_cons-ne-nil (d ∷ s) t c e = absurd (ground arith)

pair_text-ne-nil : (p : Text × Text) → pair_text p ≢ []
unfolding pair_text
pair_text-ne-nil p e = append_cons-ne-nil (percent_encode p.0) (percent_encode p.1) b'=' e

join_pairs-injective : (ps qs : Params) → join_pairs ps ≡ join_pairs qs → ps ≡ qs
unfolding join_pairs
join_pairs-injective [] [] e = refl
join_pairs-injective [] (q ∷ []) e = absurd (pair_text-ne-nil q (sym e))
join_pairs-injective [] (q ∷ r ∷ qs) e =
    absurd (append_cons-ne-nil (pair_text q) (join_pairs (r ∷ qs)) b'&' (sym e))
join_pairs-injective (p ∷ []) [] e = absurd (pair_text-ne-nil p e)
join_pairs-injective (p ∷ r ∷ ps) [] e =
    absurd (append_cons-ne-nil (pair_text p) (join_pairs (r ∷ ps)) b'&' e)
join_pairs-injective (p ∷ []) (q ∷ []) e =
    ap (λ (x : Text × Text). x ∷ []) (pair_text-injective p q e)
join_pairs-injective (p ∷ []) (q ∷ r ∷ qs) e =
    absurd (
      Lacks-not-append b'&' (pair_text q) (pair_text p) (join_pairs (r ∷ qs)) (Lacks-pair_text p) e)
join_pairs-injective (p ∷ r ∷ ps) (q ∷ []) e = absurd (
    Lacks-not-append b'&' (pair_text p) (pair_text q) (join_pairs (r ∷ ps)) (Lacks-pair_text q)
      (sym e))
join_pairs-injective (p ∷ r ∷ ps) (q ∷ t ∷ qs) e =
    let parts =
      split-first b'&' (pair_text p) (pair_text q) (join_pairs (r ∷ ps)) (join_pairs (t ∷ qs))
        (Lacks-pair_text p) (Lacks-pair_text q) e in
    cc (pair_text-injective p q parts.0, join_pairs-injective (r ∷ ps) (t ∷ qs) parts.1)

-- A signature that was made for some parameters is accepted for others only if they are the same
-- parameters, in whatever order, or two messages collide under the MAC.
pub verify_query-sign_query :
    (mac : Text → Text → List ℕ) (secret : Text) (ps qs : Params)
    → verify_query mac secret ps (sign_query mac secret qs) ≡ true
    → (sort_pairs ps ≡ sort_pairs qs)
      ⊎ ((canonical ps ≢ canonical qs) × (mac secret (canonical ps) ≡ mac secret (canonical qs)))
unfolding verify_query sign_query
verify_query-sign_query mac secret ps qs e =
    let same = (constant_time_eq_iff (sign_query mac secret ps) (sign_query mac secret qs)).0 e in
    let macs = hex_encode-injective (mac secret (canonical ps)) (mac secret (canonical qs)) same in
    elim (Bool-cases (text_eq (canonical ps) (canonical qs))) [
      | inl on ↦
          let texts = (text_eq_iff (canonical ps) (canonical qs)).0 on in
          inl (join_pairs-injective (sort_pairs ps) (sort_pairs qs) (unfold canonical in texts))
      | inr off ↦
          inr ((λ h. absurd (cc ((text_eq_iff (canonical ps) (canonical qs)).1 h, off))), macs)
    ]
