-- ===== src/Segments/Coherence/Reached.antt =====
-- What holds after any steps of the chunk cache.
use hometube.Prelude.{ℕ, refl, Bool, true, false, none, map}
use hometube.Prelude.Sql.{All-map, All-append, select}
use hometube.Prelude.Text.{Text}
use hometube.Segments.Coherence.{Upstream}
use hometube.Segments.Coherence.Purge.{IsListed, select-IsListed}
use hometube.Segments.Table.{is_stale, touch_chunks}
use hometube.Segments.Coherence.Steps.{
  State, list_as, Step, stage, install, upsert, begin_purge, purge, touch, Reach, start, next,
}
use hometube.Segments.Coherence.Invariant.{
  Inv, All-IsListed, touch_chunks-IsCoherent, touch_chunks-IsListed,
}
use hometube.Segments.Coherence.Kept.{stage-Inv, install-Inv, upsert-Inv, purge-Inv}

module _ (size : ℕ) (dir : Text) (content : Upstream) where
  touch-Inv :
      {s : State} (now : ℕ) (answers : Bool) (v f : Text) (a b : ℕ)
      → Inv size dir content s
      → Inv size dir content (record s { disk = touch_chunks now answers v f a b s.disk })
  unfolding touch_chunks
  touch-Inv {s} now false v f a b h = record {
    settled = h.settled;
    coherent = h.coherent;
    same = h.same;
    installed = h.installed;
    listings = h.listings;
  }
  touch-Inv {s} now true v f a b h = record {
    settled = h.settled;
    coherent =
        touch_chunks-IsCoherent size dir content now true v f a b
          (record (s.disk) { files = h.settled }) h.coherent;
    same = h.same;
    installed = h.installed;
    listings =
        All-map (λ l k. touch_chunks-IsListed size dir content now true v f a b s.disk l.row k)
          s.listed h.listings;
  }

  Step-Inv :
      {s t : State} → Step size dir content s t → Inv size dir content s → Inv size dir content t
  Step-Inv (stage path part) h = stage-Inv size dir content h path part
  Step-Inv (install c hv hf free) h = install-Inv size dir content h c hv hf free
  Step-Inv (upsert now c before behind e) h = upsert-Inv size dir content h now c before behind e
  Step-Inv {s} (begin_purge v f fp) h = record {
    settled = h.settled;
    coherent = h.coherent;
    same = h.same;
    installed = h.installed;
    listings =
        All-append (λ l. IsListed l.row s.disk)
          (map (list_as fp) (select (is_stale v f fp) s.disk.rows)) s.listed
          (All-IsListed s.disk fp (select (is_stale v f fp) s.disk.rows) (
            All-map (λ r k. record { old = k.old; same = k.same })
              (select (is_stale v f fp) s.disk.rows)
              (select-IsListed size dir content v f fp (record (s.disk) { files = h.settled })
                h.coherent)))
          h.listings;
  }
  Step-Inv (purge answers l before behind e free) h =
      purge-Inv size dir content h answers l before behind e free
  Step-Inv (touch now answers v f a b) h = touch-Inv now answers v f a b h

  -- However stores, purges and reads of names without separators interleave from the empty disk,
  -- where no upsert fails after its rename, rows and files agree but for the chunks that are held.
  pub Reach-Inv : {s : State} → Reach size dir content s → Inv size dir content s
  Reach-Inv start = record {
    settled = λ p. none;
    coherent = record { sound = tt; distinct = tt; numbered = tt };
    same = λ v f n hv hf free. refl;
    installed = tt;
    listings = tt;
  }
  Reach-Inv (next r st) = Step-Inv st (Reach-Inv r)
