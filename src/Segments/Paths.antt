-- ===== src/Segments/Paths.antt =====
-- The paths of chunk files: `shard_prefix`, `chunk_path` and the staging path of
-- src/services/segment_store.rs.
use hometube.Prelude.{
  ℕ, zero, suc, Bool-cases, inl, inr, ◌≡◌, ◌≢◌, refl, sym, ap, ◌∙◌, Bool, true, false, [], ◌∷◌,
  ◌++◌, arith, take, ◌==◌, if◌then◌else◌,
}
use mathlib.Core.List.{append_assoc}
use hometube.Prelude.Text.{
  Text, codes, zero_padded, value_from, value-zero_padded, Lacks, Lacks-append, Lacks-zero_padded,
  split-first, split-last, append_cancel_left,
}

-- The first two characters of the id, or all of a shorter one.
unfoldable pub shard_prefix : Text → Text
shard_prefix video_id = take 2 video_id

is_absolute : Text → Bool
is_absolute [] = false
is_absolute (c ∷ _) = c == b'/'

-- A separator is wanted behind a path that is not empty and has none at its end.
needs_separator : Text → Bool
needs_separator [] = false
needs_separator (c ∷ []) = if c == b'/' then false else true
needs_separator (_ ∷ c ∷ s) = needs_separator (c ∷ s)

-- `PathBuf::join`
unfoldable pub join : Text → Text → Text
unfolding is_absolute needs_separator
join path part =
    if is_absolute part
    then part
    else if needs_separator path
    then path ++ b'/' ∷ part
    else path ++ part

-- `format!("{}_{:06}.chunk", format_id, chunk_num)`
unfoldable pub chunk_name : Text → ℕ → Text
chunk_name format_id chunk_num = format_id ++ b'_' ∷ (zero_padded 6 chunk_num ++ codes ".chunk")

unfoldable pub chunk_path : Text → Text → Text → ℕ → Text
unfolding join shard_prefix chunk_name
chunk_path cache_dir video_id format_id chunk_num =
    join (join (join cache_dir (shard_prefix video_id)) video_id) (chunk_name format_id chunk_num)

-- `path.with_extension("chunk.tmp")`: the extension of a chunk path is `chunk`.
unfoldable pub tmp_path : Text → Text
tmp_path path = path ++ codes ".tmp"

-- An id that is one component of a path.
pub record IsComponent (s : Text) : Type 0 where
  pub filled : s ≢ []
  pub lacks_separator : Lacks b'/' s

-- The cache directory with its separator.
base : Text → Text
base cache_dir = if needs_separator cache_dir then cache_dir ++ b'/' ∷ [] else cache_dir

relative : (s : Text) → Lacks b'/' s → is_absolute s ≡ false
unfolding is_absolute
relative [] h = refl
relative (c ∷ s) h = ground arith

needs_after : (s t : Text) → t ≢ [] → Lacks b'/' t → needs_separator (s ++ t) ≡ true
unfolding needs_separator
needs_after s [] f h = absurd (f refl)
needs_after [] (c ∷ []) f h = ground arith
needs_after [] (_ ∷ c ∷ t) f h = needs_after [] (c ∷ t) (λ e. cc) h.1
needs_after (c ∷ []) (d ∷ t) f h = needs_after [] (d ∷ t) f h
needs_after (c ∷ d ∷ s) (e ∷ t) f h = needs_after (d ∷ s) (e ∷ t) f h

join-base : (dir part : Text) → Lacks b'/' part → join dir part ≡ base dir ++ part
unfolding join base
join-base dir part h = rw (relative part h) (elim (Bool-cases (needs_separator dir)) [
  | inl e ↦ rw e (sym (append_assoc dir (b'/' ∷ []) part))
  | inr e ↦ rw e refl
])

join-part :
    (dir s part : Text)
    → s ≢ []
    → Lacks b'/' s
    → Lacks b'/' part
    → join (dir ++ s) part ≡ dir ++ (s ++ b'/' ∷ part)
unfolding join
join-part dir s part f h k =
    rw (relative part k, needs_after dir s f h) (append_assoc dir s (b'/' ∷ part))

Lacks-take : (c n : ℕ) (s : Text) → Lacks c s → Lacks c (take n s)
Lacks-take c zero s h = tt
Lacks-take c (suc n) [] h = tt
Lacks-take c (suc n) (d ∷ s) h = (h.0, Lacks-take c n s h.1)

shard_filled : (v : Text) → v ≢ [] → shard_prefix v ≢ []
unfolding shard_prefix
shard_filled [] f = λ e. f refl
shard_filled (c ∷ v) f = λ e. cc

chunk_name-Lacks : (f : Text) (n : ℕ) → Lacks b'/' f → Lacks b'/' (chunk_name f n)
unfolding chunk_name
chunk_name-Lacks f n h = Lacks-append b'/' f (b'_' ∷ (zero_padded 6 n ++ codes ".chunk")) h (
  omega arith,
  Lacks-append b'/' (zero_padded 6 n) (codes ".chunk")
      (Lacks-zero_padded b'/' 6 n (inl (omega arith))) (omega arith),
)

chunk_name-injective :
    (f f' : Text) (n n' : ℕ) → chunk_name f n ≡ chunk_name f' n' → (f ≡ f') × (n ≡ n')
unfolding chunk_name
chunk_name-injective f f' n n' e =
    let ids =
      split-last b'_' f f' (zero_padded 6 n ++ codes ".chunk") (zero_padded 6 n' ++ codes ".chunk")
        (numbered n) (numbered n') e in
    let numbers =
      split-last b'.' (zero_padded 6 n) (zero_padded 6 n') (codes "chunk") (codes "chunk")
        (omega arith) (omega arith) ids.1 in
    (ids.0, sym (value-zero_padded 6 n) ∙ ap (value_from 0) numbers.0 ∙ value-zero_padded 6 n')
  where
    numbered : (k : ℕ) → Lacks b'_' (zero_padded 6 k ++ codes ".chunk")
    numbered k =
        Lacks-append b'_' (zero_padded 6 k) (codes ".chunk")
          (Lacks-zero_padded b'_' 6 k (inr (omega arith))) (omega arith)

-- The path of a chunk, part by part.
chunk_path-parts :
    (dir v f : Text) (n : ℕ)
    → IsComponent v
    → IsComponent f
    → chunk_path dir v f n ≡ base dir ++ (shard_prefix v ++ b'/' ∷ (v ++ b'/' ∷ chunk_name f n))
unfolding chunk_path
chunk_path-parts dir v f n hv hf =
    let shard = Lacks-take b'/' 2 v hv.lacks_separator in
    let name = chunk_name-Lacks f n hf.lacks_separator in
    ap (λ (p : Text). join (join p v) (chunk_name f n)) (join-base dir (shard_prefix v) shard)
    ∙ ap (λ (p : Text). join p (chunk_name f n))
        (join-part (base dir) (shard_prefix v) v (shard_filled v hv.filled) shard
          hv.lacks_separator)
    ∙ ap (λ (p : Text). join p (chunk_name f n)) regroup
    ∙ join-part (base dir ++ (shard_prefix v ++ b'/' ∷ [])) v (chunk_name f n) hv.filled
        hv.lacks_separator name
    ∙ simp append_assoc
  where
    regroup :
        base dir ++ (shard_prefix v ++ b'/' ∷ v) ≡ (base dir ++ (shard_prefix v ++ b'/' ∷ [])) ++ v
    regroup = simp append_assoc

-- Two chunks whose identifiers are non-empty and hold no separator have one path only if they are
-- one chunk.
pub chunk_path-injective :
    (dir v f v' f' : Text) (n n' : ℕ)
    → IsComponent v
    → IsComponent f
    → IsComponent v'
    → IsComponent f'
    → chunk_path dir v f n ≡ chunk_path dir v' f' n'
    → (v ≡ v') × (f ≡ f') × (n ≡ n')
unfolding shard_prefix
chunk_path-injective dir v f v' f' n n' hv hf hv' hf' e =
    let parts =
      sym (chunk_path-parts dir v f n hv hf) ∙ e ∙ chunk_path-parts dir v' f' n' hv' hf' in
    let below = append_cancel_left (base dir) _ _ parts in
    let inside =
      split-first b'/' (shard_prefix v) (shard_prefix v') (v ++ b'/' ∷ chunk_name f n)
        (v' ++ b'/' ∷ chunk_name f' n') (Lacks-take b'/' 2 v hv.lacks_separator)
        (Lacks-take b'/' 2 v' hv'.lacks_separator) below in
    let names =
      split-first b'/' v v' (chunk_name f n) (chunk_name f' n') hv.lacks_separator
        hv'.lacks_separator inside.1 in
    let ids = chunk_name-injective f f' n n' names.1 in (names.0, ids.0, ids.1)

-- A staging path is no chunk path of identifiers that are non-empty and hold no separator.
pub tmp_path-ne-chunk_path :
    (path dir v f : Text) (n : ℕ)
    → IsComponent v
    → IsComponent f
    → tmp_path path ≢ chunk_path dir v f n
unfolding tmp_path chunk_name
tmp_path-ne-chunk_path path dir v f n hv hf e =
    let ends =
      split-last b'.' path (stem dir v f n) (codes "tmp") (codes "chunk") (omega arith)
        (omega arith) (e ∙ chunk_path-parts dir v f n hv hf ∙ regroup) in
    ground (arith, ends.1)
  where
    stem : Text → Text → Text → ℕ → Text
    stem d u g k = base d ++ (shard_prefix u ++ b'/' ∷ (u ++ b'/' ∷ (g ++ b'_' ∷ zero_padded 6 k)))

    regroup :
        base dir ++ (shard_prefix v ++ b'/' ∷ (v ++ b'/' ∷ chunk_name f n))
        ≡ stem dir v f n ++ b'.' ∷ codes "chunk"
    regroup = simp append_assoc
