-- ===== src/Prelude/Split.antt =====
-- The ways the source cuts texts: `split_once`, `split` and `find_map` over the parts.
use hometube.Prelude.{
  ℕ, Bool, Option, none, some, List, [], ◌∷◌, ◌&&◌, ◌||◌, leb, ◌==◌, if◌then◌else◌,
}
use hometube.Prelude.Text.{Text}

cut_here : ℕ → Option (Text × Text) → Option (Text × Text)
cut_here c none = none
cut_here c (some p) = some (c ∷ p.0, p.1)

-- `split_once`
unfoldable pub split_once : ℕ → Text → Option (Text × Text)
unfolding cut_here
split_once c [] = none
split_once c (d ∷ s) = let rest = split_once c s in if d == c then some ([], s) else cut_here d rest

-- `split(c).next()`, which is never none.
unfoldable pub before : ℕ → Text → Text
before c [] = []
before c (d ∷ s) = let rest = before c s in if d == c then [] else d ∷ rest

push_front : ℕ → List Text → List Text
push_front c [] = (c ∷ []) ∷ []
push_front c (s ∷ parts) = (c ∷ s) ∷ parts

-- `split`
unfoldable pub split : ℕ → Text → List Text
unfolding push_front
split c [] = [] ∷ []
split c (d ∷ s) = let rest = split c s in if d == c then [] ∷ rest else push_front d rest

-- `char::is_whitespace`
unfoldable pub is_whitespace : ℕ → Bool
is_whitespace c =
    leb 9 c && leb c 13
    || (c == 32
        || (c == 0x85
            || (c == 0xA0
                || (c == 0x1680
                    || (leb 0x2000 c && leb c 0x200A
                        || (c == 0x2028
                            || (c == 0x2029 || (c == 0x202F || (c == 0x205F || c == 0x3000)))))))))

skip_whitespace : Text → Text
unfolding is_whitespace
skip_whitespace [] = []
skip_whitespace (c ∷ s) = let rest = skip_whitespace s in if is_whitespace c then rest else c ∷ s

unfoldable pub backwards : Text → Text → Text
backwards done [] = done
backwards done (c ∷ s) = backwards (c ∷ done) s

-- `trim`
unfoldable pub trim : Text → Text
unfolding skip_whitespace backwards
trim s = backwards [] (skip_whitespace (backwards [] (skip_whitespace s)))

module _ {κ} {B : Type κ} where
  unfoldable pub or_else : Option B → Option B → Option B
  or_else none o = o
  or_else (some b) o = some b

  unfoldable pub keep_some : Option B → List B → List B
  keep_some none rest = rest
  keep_some (some b) rest = b ∷ rest

module _ {ℓ κ} {A : Type ℓ} {B : Type κ} where
  -- `find_map`
  unfoldable pub find_map : (A → Option B) → List A → Option B
  unfolding or_else
  find_map f [] = none
  find_map f (x ∷ xs) = or_else (f x) (find_map f xs)

  -- `filter_map`
  unfoldable pub filter_map : (A → Option B) → List A → List B
  unfolding keep_some
  filter_map f [] = []
  filter_map f (x ∷ xs) = keep_some (f x) (filter_map f xs)
