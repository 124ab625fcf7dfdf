-- ===== src/Prelude/Assoc.antt =====
-- Maps with texts as keys, as association lists.
use hometube.Prelude.{
  suc, ◌≤◌, ◌≡◌, refl, sym, ◌∙◌, true, false, Option, none, some, List, [], ◌∷◌, arith,
  if◌then◌else◌, Bool-cases, inl, inr, length,
}
use hometube.Prelude.Text.{Text, text_eq, text_eq_iff}

abbrev pub Assoc : Type 0 → Type 0
Assoc V = List (Text × V)

pub text_eq-other : (a b c : Text) → text_eq a b ≡ false → text_eq a c ≡ true → text_eq b c ≡ false
text_eq-other a b c off on = elim (Bool-cases (text_eq b c)) [
  | inr differ ↦ differ
  | inl equal ↦
      let left : a ≡ c = (text_eq_iff a c).0 on in
      let right : b ≡ c = (text_eq_iff b c).0 equal in
      absurd (cc ((text_eq_iff a b).1 (left ∙ sym right)))
]

module _ {V : Type 0} where
  unfoldable pub get : Text → Assoc V → Option V
  get k [] = none
  get k (e ∷ m) = if text_eq e.0 k then some e.1 else get k m

  unfoldable pub insert : Text → V → Assoc V → Assoc V
  insert k v [] = (k, v) ∷ []
  insert k v (e ∷ m) = let rest = insert k v m in if text_eq e.0 k then (k, v) ∷ m else e ∷ rest

  unfoldable pub remove : Text → Assoc V → Assoc V
  remove k [] = []
  remove k (e ∷ m) = let rest = remove k m in if text_eq e.0 k then rest else e ∷ rest

  pub get-insert :
      (j k : Text) (v : V) (m : Assoc V)
      → get k (insert j v m) ≡ (if text_eq j k then some v else get k m)
  unfolding get insert
  get-insert j k v [] = refl
  get-insert j k v (e ∷ m) = elim (Bool-cases (text_eq e.0 j)) [
    | inl on ↦
        let same : e.0 ≡ j = (text_eq_iff e.0 j).0 on in
        rw on (rw same (elim (Bool-cases (text_eq j k)) [ inl a ↦ rw a refl | inr a ↦ rw a refl ]))
    | inr off ↦ rw off (elim (Bool-cases (text_eq e.0 k)) [
      | inl a ↦ rw a (rw (text_eq-other e.0 j k off a) refl)
      | inr a ↦ rw a (get-insert j k v m)
    ])
  ]

  pub get-remove :
      (j k : Text) (m : Assoc V) → get k (remove j m) ≡ (if text_eq j k then none else get k m)
  unfolding get remove
  get-remove j k [] = elim (Bool-cases (text_eq j k)) [ inl a ↦ rw a refl | inr a ↦ rw a refl ]
  get-remove j k (e ∷ m) = elim (Bool-cases (text_eq e.0 j)) [
    | inl on ↦
        let same : e.0 ≡ j = (text_eq_iff e.0 j).0 on in
        rw on (
          rw same (
            get-remove j k m
            ∙ elim (Bool-cases (text_eq j k)) [ inl a ↦ rw a refl | inr a ↦ rw a refl ]))
    | inr off ↦ rw off (elim (Bool-cases (text_eq e.0 k)) [
      | inl a ↦ rw a (rw (text_eq-other e.0 j k off a) refl)
      | inr a ↦ rw a (get-remove j k m)
    ])
  ]

  pub length-insert : (k : Text) (v : V) (m : Assoc V) → length (insert k v m) ≤ suc (length m)
  unfolding insert
  length-insert k v [] = omega arith
  length-insert k v (e ∷ m) = elim (Bool-cases (text_eq e.0 k)) [
    | inl a ↦ rw a (omega arith)
    | inr a ↦ rw a (omega (arith, length-insert k v m))
  ]

  pub length-insert_present :
      (k : Text) (v w : V) (m : Assoc V) → get k m ≡ some w → length (insert k v m) ≤ length m
  unfolding get insert
  length-insert_present k v w [] e = absurd (cc)
  length-insert_present k v w (e ∷ m) found = elim (Bool-cases (text_eq e.0 k)) [
    | inl a ↦ rw a (omega arith)
    | inr a ↦ rw a (omega (arith, length-insert_present k v w m (ground (arith, found, a))))
  ]

  pub length-remove : (k : Text) (m : Assoc V) → length (remove k m) ≤ length m
  unfolding remove
  length-remove k [] = omega arith
  length-remove k (e ∷ m) = elim (Bool-cases (text_eq e.0 k)) [
    | inl a ↦ rw a (omega (arith, length-remove k m))
    | inr a ↦ rw a (omega (arith, length-remove k m))
  ]
