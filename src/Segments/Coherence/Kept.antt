-- ===== src/Segments/Coherence/Kept.antt =====
-- Each step of the chunk cache keeps the agreement of rows and files.
use mathlib.Core.Path.{subst}
use hometube.Prelude.{
  ℕ, ◌≡◌, ◌≢◌, ap, Bool-cases, inl, inr, Option, List, ◌∷◌, ◌++◌, sym, ◌∙◌, some, length,
}
use hometube.Prelude.Sql.{All, All-both, All-map}
use hometube.Prelude.Text.{Text, text_eq, text_eq_iff}
use hometube.Segments.Coherence.{Upstream, IsCoherent}
use hometube.Segments.Coherence.Store.{
  store_chunk-IsCoherent, rename-ne, rename_self, write_file-ne,
}
use hometube.Segments.Coherence.Purge.{IsListed, purge_row-IsCoherent, purge_row-IsListed}
use hometube.Segments.Paths.{IsComponent, chunk_path, tmp_path, tmp_path-ne-chunk_path}
use hometube.Segments.Table.{
  Disk, Purged, PurgeAnswers, no_fault, upsert_row, install_chunk, store_chunk, purge_row,
  write_file, rename,
}
use hometube.Segments.Coherence.Steps.{Listed, Chunk, State, path_of, bytes_of, IsFree}
use hometube.Segments.Coherence.Invariant.{
  IsInstalled, Inv, All-drop, All-put, store_chunk-IsListed, upsert_row-files, upsert_row_keeps,
  purge_row-files, purge_row-path, purge_row-other, install_chunk-other,
}

module _ (size : ℕ) (dir : Text) (content : Upstream) where
  module _ {s : State} (h : Inv size dir content s) where
    -- Where no held chunk has the path of another, both keep what they hold.
    pub stage-Inv :
        (path : Text) (part : List ℕ)
        → Inv size dir content (record s {
          disk = record (s.disk) { files = write_file (tmp_path path) part s.disk.files };
        })
    stage-Inv path part = record {
      settled = h.settled;
      coherent = h.coherent;
      same = λ v f n hv hf free. staged v f n hv hf ∙ h.same v f n hv hf free;
      installed =
          All-map (λ c i. (i.0, i.1, staged c.video_id c.format_id c.number i.0 i.1 ∙ i.2)) s.held
            h.installed;
      listings = All-map (λ l k. record { old = k.old; same = k.same }) s.listed h.listings;
    }
      where
        staged :
            (v f : Text) (n : ℕ)
            → IsComponent v
            → IsComponent f
            → write_file (tmp_path path) part s.disk.files (chunk_path dir v f n)
              ≡ s.disk.files (chunk_path dir v f n)
        staged v f n hv hf =
            write_file-ne (tmp_path path) (chunk_path dir v f n) part s.disk.files
              (tmp_path-ne-chunk_path path dir v f n hv hf)

    pub install-Inv :
        (c : Chunk)
        → IsComponent c.video_id
        → IsComponent c.format_id
        → IsFree dir (path_of dir c) s.held
        → Inv size dir content (record s {
          disk = install_chunk dir c.video_id c.format_id c.number (bytes_of size content c) s.disk;
          held = c ∷ s.held;
        })
    unfolding install_chunk
    install-Inv c hv hf free = record {
      settled = h.settled;
      coherent = h.coherent;
      same = λ v f n hv' hf' all.
          install_chunk-other size dir content c v f n s.disk hv' hf' all.0
          ∙ h.same v f n hv' hf' all.1;
      installed = (
        (
          hv,
          hf,
          rename_self (tmp_path (path_of dir c)) (path_of dir c) (bytes_of size content c)
              (write_file (tmp_path (path_of dir c)) (bytes_of size content c) s.disk.files),
        ),
        All-map
            (λ o (i, ne). (
              i.0,
              i.1,
              install_chunk-other size dir content c o.video_id o.format_id o.number s.disk i.0 i.1
                    (λ e. ne (sym e))
                  ∙ i.2,
            ))
            s.held
            (All-both (IsInstalled size dir content s.disk.files)
              (λ o. path_of dir o ≢ path_of dir c) s.held h.installed free),
      );
      listings = All-map (λ l k. record { old = k.old; same = k.same }) s.listed h.listings;
    }

    pub upsert-Inv :
        (now : ℕ) (c : Chunk) (before behind : List Chunk)
        → s.held ≡ before ++ c ∷ behind
        → Inv size dir content (record s {
          disk =
              upsert_row now c.video_id c.format_id c.number
                (path_of dir c)
                (length (bytes_of size content c))
                c.fingerprint
                s.disk;
          held = before ++ behind;
        })
    unfolding store_chunk install_chunk
    upsert-Inv now c before behind e =
        let path = path_of dir c in
        let piece = bytes_of size content c in
        let calm : Disk = record (s.disk) { files = h.settled } in
        let after =
          rename (tmp_path path) path piece (write_file (tmp_path path) piece h.settled) in
        let (own, rest) =
          All-drop (IsInstalled size dir content s.disk.files) before c behind
            (subst (All (IsInstalled size dir content s.disk.files)) e h.installed) in
        let agrees =
          upsert_row-files size dir content now c.video_id c.format_id c.number path (length piece)
            c.fingerprint s.disk after in
        let keeps =
          upsert_row_keeps size dir content now c.video_id c.format_id c.number path (length piece)
            c.fingerprint s.disk in
        record {
          settled = after;
          coherent = subst (IsCoherent size dir content) agrees (
              store_chunk-IsCoherent size dir content no_fault now c.video_id c.format_id
                c.fingerprint c.number calm (λ e. cc) own.0 own.1 h.coherent);
          same = λ v f n hv hf free.
              ap (λ (g : Text → Option (List ℕ)). g (chunk_path dir v f n)) keeps
              ∙ written c before behind e own.2 v f n hv hf free;
          installed =
              All-map
                (λ o i.
                  (i.0, i.1, ap (λ (g : Text → Option (List ℕ)). g (path_of dir o)) keeps ∙ i.2))
                (before ++ behind) rest;
          listings =
              All-map
                (λ l k.
                  let there = subst (IsListed l.row) agrees (
                    store_chunk-IsListed size dir content no_fault now c.video_id c.format_id
                      c.fingerprint c.number piece calm l.row h.coherent
                      (record { old = k.old; same = k.same })) in
                  record { old = there.old; same = there.same })
                s.listed h.listings;
        }
      where
        written :
            (c : Chunk) (before behind : List Chunk)
            → s.held ≡ before ++ c ∷ behind
            → s.disk.files (path_of dir c) ≡ some (bytes_of size content c)
            → (v f : Text) (n : ℕ) → IsComponent v
            → IsComponent f
            → IsFree dir (chunk_path dir v f n) (before ++ behind)
            → s.disk.files (chunk_path dir v f n)
              ≡ rename
                  (tmp_path (path_of dir c))
                  (path_of dir c)
                  (bytes_of size content c)
                  (write_file (tmp_path (path_of dir c)) (bytes_of size content c) h.settled)
                  (chunk_path dir v f n)
        written c before behind e own v f n hv hf free =
            let path = path_of dir c in
            let piece = bytes_of size content c in
            let p = chunk_path dir v f n in
            elim (Bool-cases (text_eq path p)) [
              | inl on ↦
                  let at = (text_eq_iff path p).0 on in
                  cc (
                    at,
                    own,
                    rename_self (tmp_path path) path piece
                        (write_file (tmp_path path) piece h.settled),
                  )
              | inr off ↦
                  let ne : path ≢ p = λ at. absurd (cc (off, (text_eq_iff path p).1 at)) in
                  h.same v f n hv hf (
                    subst (IsFree dir p) (sym e)
                      (All-put (λ o. path_of dir o ≢ p) before c behind ne free))
                  ∙ sym (
                      rename-ne (tmp_path path) path p piece h.settled
                        (tmp_path-ne-chunk_path path dir v f n hv hf) ne)
            ]

    pub purge-Inv :
        (answers : PurgeAnswers) (l : Listed) (before behind : List Listed)
        → s.listed ≡ before ++ l ∷ behind
        → IsFree dir l.row.file_path s.held
        → Inv size dir content (record s {
          disk =
              (purge_row answers l.fingerprint l.row
                (record { disk = s.disk; removed = 0; bytes = 0 })).disk;
          listed = before ++ behind;
        })
    purge-Inv answers l before behind e free =
        let calm : Purged = record {
          disk = record (s.disk) { files = h.settled };
          removed = 0;
          bytes = 0;
        } in
        let p : Purged = record { disk = s.disk; removed = 0; bytes = 0 } in
        let (own, rest) =
          All-drop (λ o. IsListed o.row s.disk) before l behind
            (subst (All (λ o. IsListed o.row s.disk)) e h.listings) in
        record {
          settled = (purge_row answers l.fingerprint l.row calm).disk.files;
          coherent =
              subst (IsCoherent size dir content)
                (purge_row-files size dir content answers l.fingerprint l.row s.disk h.settled)
                (purge_row-IsCoherent size dir content answers l.fingerprint l.row calm h.coherent
                  (record { old = own.old; same = own.same }));
          same = λ v f n hv hf all.
              purge_row-path size dir content answers l.fingerprint l.row s.disk h.settled
                (chunk_path dir v f n) (h.same v f n hv hf all);
          installed =
              All-map
                (λ o (i, ne). (
                  i.0,
                  i.1,
                  purge_row-other size dir content answers l.fingerprint l.row s.disk
                        (path_of dir o) (λ at. ne (sym at))
                      ∙ i.2,
                ))
                s.held
                (All-both (IsInstalled size dir content s.disk.files)
                  (λ o. path_of dir o ≢ l.row.file_path) s.held h.installed free);
          listings =
              All-map (λ o k. purge_row-IsListed answers l.fingerprint l.row o.row p k)
                (before ++ behind) rest;
        }
