-- ===== src/Segments/Coherence/Readers.antt =====
-- What a reader of the chunk cache finds, which takes no lock: its query and the reads of the chunk
-- files stand anywhere between the steps of others.
use hometube.Prelude.{
  ℕ, ◌≡◌, ◌≢◌, ◌⊎◌, ap, true, false, Bool-cases, inl, inr, Option, List, [], ◌∷◌, sym, ◌∙◌, some,
  length,
}
use hometube.Prelude.Sql.{All}
use hometube.Prelude.Text.{Text, text_eq, text_eq_iff}
use hometube.Segments.Coherence.{Upstream, chunk_of}
use hometube.Segments.Coherence.Store.{rename_self, write_file-ne}
use hometube.Segments.Paths.{IsComponent, chunk_path, tmp_path, tmp_path-ne-chunk_path}
use hometube.Segments.Table.{Disk, install_chunk, touch_chunks, write_file}
use hometube.Segments.Coherence.Steps.{
  Chunk, State, path_of, bytes_of, IsFree, Step, stage, install, upsert, begin_purge, purge, touch,
}
use hometube.Segments.Paths.{chunk_path-injective}
use hometube.Segments.Coherence.Invariant.{
  IsInstalled, Inv, upsert_row_keeps, purge_row-other, install_chunk-other,
}

-- The chunk has another path, or it comes from the file with the fingerprint.
abbrev pub IsCurrent : Text → Text → Option Text → Chunk → Type 0
IsCurrent dir path fp c = (path_of dir c ≢ path) ⊎ (c.fingerprint ≡ fp)

module _ (size : ℕ) (dir : Text) (content : Upstream) where
  -- The step neither puts a chunk of another file at the path nor purges a row with the path.
  abbrev pub Leaves : {s t : State} → Text → Option Text → Step size dir content s t → Type 0
  Leaves path fp (stage tmp part) = Unit
  Leaves path fp (install c hv hf free) = IsCurrent dir path fp c
  Leaves path fp (upsert now c before behind e) = Unit
  Leaves path fp (begin_purge v f keep) = Unit
  Leaves path fp (purge answers l before behind e free) = l.row.file_path ≢ path
  Leaves path fp (touch now answers v f a b) = Unit

  -- Steps that leave the path, from one state to another.
  pub data Spared (path : Text) (fp : Option Text) (s : State) : State → Type 0 where
    at_once : Spared path fp s s
    after :
        {t u : State}
        → Spared path fp s t
        → (st : Step size dir content t u) → Leaves path fp st
        → Spared path fp s u

  module _ (v f : Text) (fp : Option Text) (n : ℕ) (hv : IsComponent v) (hf : IsComponent f) where
    abbrev Holds : (Text → Option (List ℕ)) → Type 0
    Holds files = files (chunk_path dir v f n) ≡ some (chunk_of size content v f fp n)

    -- A current chunk at the path is the chunk.
    current-bytes :
        (c : Chunk)
        → IsComponent c.video_id
        → IsComponent c.format_id
        → c.fingerprint ≡ fp
        → path_of dir c ≡ chunk_path dir v f n
        → bytes_of size content c ≡ chunk_of size content v f fp n
    current-bytes c hv' hf' same at =
        let ids = chunk_path-injective dir c.video_id c.format_id v f c.number n hv' hf' hv hf at in
        cc (ids.0, ids.1, ids.2, same)

    install-Holds :
        (c : Chunk) (d : Disk)
        → IsComponent c.video_id
        → IsComponent c.format_id
        → IsCurrent dir (chunk_path dir v f n) fp c
        → Holds d.files
        → Holds
            (install_chunk dir c.video_id c.format_id c.number (bytes_of size content c) d).files
    unfolding install_chunk
    install-Holds c d hv' hf' (inl ne) h =
        install_chunk-other size dir content c v f n d hv hf ne ∙ h
    install-Holds c d hv' hf' (inr same) h =
        elim (Bool-cases (text_eq (path_of dir c) (chunk_path dir v f n))) [
          | inl on ↦
              let at = (text_eq_iff (path_of dir c) (chunk_path dir v f n)).0 on in
              let bytes = current-bytes c hv' hf' same at in
              let put =
                rename_self (tmp_path (path_of dir c)) (path_of dir c) (bytes_of size content c)
                  (write_file (tmp_path (path_of dir c)) (bytes_of size content c) d.files) in
              ap
                (install_chunk dir c.video_id c.format_id c.number (bytes_of size content c)
                  d).files
                (sym at)
              ∙ put
              ∙ ap some bytes
          | inr off ↦
              install_chunk-other size dir content c v f n d hv hf
                (λ at. absurd (cc (off, (text_eq_iff (path_of dir c) (chunk_path dir v f n)).1 at)))
              ∙ h
        ]

    Step-Holds :
        {s t : State} (st : Step size dir content s t)
        → Leaves (chunk_path dir v f n) fp st
        → Holds s.disk.files
        → Holds t.disk.files
    unfolding touch_chunks
    Step-Holds {s} (stage path part) leaves h =
        write_file-ne (tmp_path path) (chunk_path dir v f n) part s.disk.files
          (tmp_path-ne-chunk_path path dir v f n hv hf)
        ∙ h
    Step-Holds {s} (install c hv' hf' free) leaves h = install-Holds c s.disk hv' hf' leaves h
    Step-Holds {s} (upsert now c before behind e) leaves h =
        ap (λ (g : Text → Option (List ℕ)). g (chunk_path dir v f n))
          (upsert_row_keeps size dir content now c.video_id c.format_id c.number (path_of dir c)
            (length (bytes_of size content c)) c.fingerprint s.disk)
        ∙ h
    Step-Holds (begin_purge v' f' keep) leaves h = h
    Step-Holds {s} (purge answers l before behind e free) leaves h =
        purge_row-other size dir content answers l.fingerprint l.row s.disk (chunk_path dir v f n)
          leaves
        ∙ h
    Step-Holds (touch now true v' f' a b) leaves h = h
    Step-Holds (touch now false v' f' a b) leaves h = h

    pub Spared-Holds :
        {s t : State}
        → Spared (chunk_path dir v f n) fp s t
        → Holds s.disk.files
        → Holds t.disk.files
    Spared-Holds at_once h = h
    Spared-Holds (after r st leaves) h = Step-Holds st leaves (Spared-Holds r h)

    IsFree-or-Holds :
        (files : Text → Option (List ℕ)) (held : List Chunk)
        → All (IsCurrent dir (chunk_path dir v f n) fp) held
        → All (IsInstalled size dir content files) held
        → IsFree dir (chunk_path dir v f n) held ⊎ Holds files
    IsFree-or-Holds files [] current there = inl tt
    IsFree-or-Holds files (c ∷ held) current there =
        elim (Bool-cases (text_eq (path_of dir c) (chunk_path dir v f n))) [
          | inr off ↦ elim (IsFree-or-Holds files held current.1 there.1) [
            | inr holds ↦ inr holds
            | inl free ↦ inl (
              (λ at. absurd (cc (off, (text_eq_iff (path_of dir c) (chunk_path dir v f n)).1 at))),
              free,
            )
          ]
          | inl on ↦
              let at = (text_eq_iff (path_of dir c) (chunk_path dir v f n)).0 on in
              elim current.0 [
                | inl ne ↦ absurd (ne at)
                | inr same ↦ inr (
                    ap files (sym at)
                    ∙ there.0.2
                    ∙ ap some (current-bytes c there.0.0 there.0.1 same at))
              ]
        ]

    -- Where no chunk of another file is held at the path, the file is what the rows say.
    pub Inv-Holds :
        {s : State} (h : Inv size dir content s)
        → All (IsCurrent dir (chunk_path dir v f n) fp) s.held
        → Holds h.settled
        → Holds s.disk.files
    Inv-Holds {s} h current holds = elim (IsFree-or-Holds s.disk.files s.held current h.installed) [
      | inl free ↦ h.same v f n hv hf free ∙ holds
      | inr there ↦ there
    ]
