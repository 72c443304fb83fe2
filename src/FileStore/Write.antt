-- ===== src/FileStore/Write.antt =====
-- What writing the snapshot file leaves behind, whichever call fails.
use getdata.Base.{
  ℕ, String, ◌≡◌, ◌∙◌, ◌≢◌, refl, sym, subst⁻¹, ◌⊎◌, inl, inr, Option, none, some, Result, ok, err,
  arith, eq_iff,
}
use getdata.Base.Dict.{Dict, lookup, insert, erase, lookup-insert, lookup-erase}
use getdata.Base.Words.{inc64}
use getdata.Model.{Time}
use getdata.FileStore.{
  Host, FileStore, Step, pure, count_error, mkdir_all, sync, close, create_temp, write, remove,
  rename, moved,
}
use getdata.FileStore.Persist.{note_persisted, discard_open, discard_closed, write_snapshot_file}
use getdata.FileStore.Triples.{
  Post, Triple, Triple-bind, Triple-on_error, Triple-ignore, Triple-read, Triple-given,
  Triple-system,
}

lookup-erase_other :
    {Data : Type 0} {j k : String} → k ≢ j → (m : Dict Data) → lookup j (erase k m) ≡ lookup j m
lookup-erase_other {j} {k} h m = ground (arith, lookup-erase j k m, eq_iff k j)

lookup-insert_other :
    {Data : Type 0} {j k : String} (v : Data)
    → k ≢ j
    → (m : Dict Data) → lookup j (insert k v m) ≡ lookup j m
lookup-insert_other {j} {k} v h m = ground (arith, lookup-insert j k v m, eq_iff k j)

lookup-insert_same :
    {Data : Type 0} (k : String) (v : Data) (m : Dict Data) → lookup k (insert k v m) ≡ some v
lookup-insert_same k v m = ground (arith, lookup-insert k k v m, eq_iff k k)

lookup-erase_same : {Data : Type 0} (k : String) (m : Dict Data) → lookup k (erase k m) ≡ none
lookup-erase_same k m = ground (arith, lookup-erase k k m, eq_iff k k)

lookup-moved :
    {Data : Type 0} (source target : String) (bytes : Data) (m : Dict Data)
    → lookup source m ≡ some bytes
    → lookup target (moved source target m) ≡ some bytes
unfolding moved
lookup-moved source target bytes m h =
    ground (arith, h, lookup-insert target target bytes (erase source m), eq_iff target target)

module _ (host : Host) (s₀ : FileStore host.Data) where
  -- Only the files, the number of calls and the count of errors differ from those of `s₀`, and the
  -- snapshot file is as `Content` says.
  abbrev pub Kept : ℕ → (Option host.Data → Type 0) → FileStore host.Data → Type 0
  Kept errors Content s =
      (s.path ≡ s₀.path)
      × (s.inner ≡ s₀.inner)
      × (s.after_persist ≡ s₀.after_persist)
      × (s.handed ≡ s₀.handed)
      × (s.last_persisted_at ≡ s₀.last_persisted_at)
      × (s.persist_errors ≡ errors)
      × Content (lookup s₀.path s.files)

  -- The temporary file holds the new snapshot.
  abbrev Ready : (Option host.Data → Type 0) → String → host.Data → FileStore host.Data → Type 0
  Ready Content tmp bytes s = Kept s₀.persist_errors Content s × (lookup tmp s.files ≡ some bytes)

  abbrev pub Old : Option host.Data → Type 0
  Old content = content ≡ lookup s₀.path s₀.files

  abbrev pub OldOrNone : Option host.Data → Type 0
  OldOrNone content = (content ≡ lookup s₀.path s₀.files) ⊎ (content ≡ none)

  abbrev pub Failed : FileStore host.Data → Type 0
  Failed = Kept (inc64 s₀.persist_errors) OldOrNone

  count_error-Triple :
      (Content : Option host.Data → Type 0)
      → Triple
          (Kept s₀.persist_errors Content)
          count_error
          (λ _. Kept (inc64 s₀.persist_errors) Content)
          (Kept (inc64 s₀.persist_errors) Content)
  unfolding count_error
  count_error-Triple Content = record {
    holds = λ s (a, b, c, d, e, f, g). (a, b, c, d, e, ground arith, g);
  }

  remove_temp-Triple :
      (errors : ℕ) (Content : Option host.Data → Type 0) (tmp : String)
      → tmp ≢ s₀.path
      → Triple
          (Kept errors Content)
          (remove host tmp)
          (λ _. Kept errors Content)
          (Kept errors Content)
  unfolding remove
  remove_temp-Triple errors Content tmp h =
      Triple-system host _ _
        (λ s (a, b, c, d, e, f, g).
          (a, b, c, d, e, f, subst⁻¹ Content ((lookup-erase_other h s.files)) g))
        (λ s p. p)

  discard_closed-Triple :
      (Content : Option host.Data → Type 0) (tmp : String)
      → tmp ≢ s₀.path
      → Triple
          (Kept s₀.persist_errors Content)
          (discard_closed host tmp)
          (λ _. Kept (inc64 s₀.persist_errors) Content)
          (Kept (inc64 s₀.persist_errors) Content)
  unfolding discard_closed
  discard_closed-Triple Content tmp h =
      Triple-bind (Triple-ignore (remove_temp-Triple _ Content tmp h))
        λ _. count_error-Triple Content

  discard_open-Triple :
      (Content : Option host.Data → Type 0) (tmp : String)
      → tmp ≢ s₀.path
      → Triple
          (Kept s₀.persist_errors Content)
          (discard_open host tmp)
          (λ _. Kept (inc64 s₀.persist_errors) Content)
          (Kept (inc64 s₀.persist_errors) Content)
  unfolding discard_open close
  discard_open-Triple Content tmp h =
      Triple-bind (Triple-ignore (Triple-system host _ _ (λ s p. p) (λ s p. p))) λ _.
        Triple-bind (Triple-ignore (remove_temp-Triple _ Content tmp h))
          λ _. count_error-Triple Content

  insert-Kept :
      (errors : ℕ) (Content : Option host.Data → Type 0) (tmp : String) (bytes : host.Data)
      (s : FileStore host.Data)
      → tmp ≢ s₀.path
      → Kept errors Content s
      → Kept errors Content (record s { files = insert tmp bytes s.files })
  insert-Kept errors Content tmp bytes s fresh (a, b, c, d, e, f, g) =
      (a, b, c, d, e, f, subst⁻¹ Content (lookup-insert_other bytes fresh s.files) g)

  mkdir_all-Triple :
      Triple
        (Kept s₀.persist_errors Old)
        (mkdir_all host)
        (λ _. Kept s₀.persist_errors Old)
        (Kept s₀.persist_errors Old)
  unfolding mkdir_all
  mkdir_all-Triple = Triple-system host _ _ (λ s p. p) (λ s p. p)

  create_temp-Triple :
      ((n : ℕ) → host.temp_name n ≢ s₀.path)
      → Triple
          (Kept s₀.persist_errors Old)
          (create_temp host)
          (λ tmp s. Kept s₀.persist_errors Old s × (tmp ≢ s₀.path))
          (Kept s₀.persist_errors Old)
  unfolding create_temp pure
  create_temp-Triple fresh = Triple-read _ λ s.
      Triple-bind
        (Triple-system host _ _ (λ t p. insert-Kept _ Old _ _ t (fresh s.calls) p) (λ t p. p))
        (λ _. record { holds = λ t p. (p, fresh s.calls) })

  write-Triple :
      (tmp : String) (bytes : host.Data)
      → tmp ≢ s₀.path
      → Triple
          (Kept s₀.persist_errors Old)
          (write host tmp bytes)
          (λ _. Ready Old tmp bytes)
          (Kept s₀.persist_errors Old)
  unfolding write
  write-Triple tmp bytes fresh = Triple-read _ λ s.
      Triple-system host _ _
        (λ t p. (insert-Kept _ Old _ _ t fresh p, lookup-insert_same tmp bytes t.files))
        (λ t p. insert-Kept _ Old _ _ t fresh p)

  sync-Triple :
      (tmp : String) (bytes : host.Data)
      → Triple
          (Ready Old tmp bytes)
          (sync host)
          (λ _. Ready Old tmp bytes)
          (Kept s₀.persist_errors Old)
  unfolding sync
  sync-Triple tmp bytes = Triple-system host _ _ (λ s p. p) (λ s p. p.0)

  close-Triple :
      (tmp : String) (bytes : host.Data)
      → Triple
          (Ready Old tmp bytes)
          (close host)
          (λ _. Ready Old tmp bytes)
          (Kept s₀.persist_errors Old)
  unfolding close
  close-Triple tmp bytes = Triple-system host _ _ (λ s p. p) (λ s p. p.0)

  clear-Triple :
      (tmp : String) (bytes : host.Data)
      → tmp ≢ s₀.path
      → Triple
          (Ready Old tmp bytes)
          (remove host s₀.path)
          (λ _. Ready OldOrNone tmp bytes)
          (Ready OldOrNone tmp bytes)
  unfolding remove
  clear-Triple tmp bytes fresh =
      Triple-system host _ _
        (λ s ((a, b, c, d, e, f, g), w). (
          (a, b, c, d, e, f, inr (lookup-erase_same s₀.path s.files)),
          lookup-erase_other (λ q. fresh (sym q)) s.files ∙ w,
        ))
        (λ s ((a, b, c, d, e, f, g), w). ((a, b, c, d, e, f, inl g), w))

  rename-Triple :
      (tmp : String) (bytes : host.Data)
      → Triple
          (Ready OldOrNone tmp bytes)
          (rename host tmp s₀.path)
          (λ _. Kept s₀.persist_errors (λ content. content ≡ some bytes))
          (Kept s₀.persist_errors OldOrNone)
  unfolding rename
  rename-Triple tmp bytes =
      Triple-system host _ _
        (λ s ((a, b, c, d, e, f, g), w).
          (a, b, c, d, e, f, lookup-moved tmp s₀.path bytes s.files w))
        (λ s p. p.0)

  -- The snapshot file holds `bytes`, written at `saved_at`.
  abbrev pub Written : host.Data → Time → FileStore host.Data → Type 0
  Written bytes saved_at s =
      (s.path ≡ s₀.path)
      × (s.inner ≡ s₀.inner)
      × (s.after_persist ≡ s₀.after_persist)
      × (s.handed ≡ s₀.handed)
      × (s.last_persisted_at ≡ saved_at)
      × (s.persist_errors ≡ s₀.persist_errors)
      × (lookup s₀.path s.files ≡ some bytes)

  note_persisted-Triple :
      (bytes : host.Data) (saved_at : Time) (E : FileStore host.Data → Type 0)
      → Triple
          (Kept s₀.persist_errors (λ content. content ≡ some bytes))
          (note_persisted host saved_at)
          (λ _. Written bytes saved_at)
          E
  unfolding note_persisted
  note_persisted-Triple bytes saved_at E = record {
    holds = λ s (a, b, c, d, e, f, g). (a, b, c, d, refl, f, g);
  }

  abbrev Cleans : Step host.Data (Unit {0}) → Type 0
  Cleans m = Triple (Kept s₀.persist_errors Old) m (λ _. Failed) Failed

  abbrev widened :
      (x : Result (Unit {0}) × FileStore host.Data)
      → Post (λ _. Kept (inc64 s₀.persist_errors) Old) (Kept (inc64 s₀.persist_errors) Old) x
      → Post (λ _. Failed) Failed x
  widened (ok _, s) (a, b, c, d, e, f, g) = (a, b, c, d, e, f, inl g)
  widened (err _, s) (a, b, c, d, e, f, g) = (a, b, c, d, e, f, inl g)

  -- The old file is one of the two outcomes of a failure.
  widen :
      {m : Step host.Data (Unit {0})}
      → Triple
          (Kept s₀.persist_errors Old)
          m
          (λ _. Kept (inc64 s₀.persist_errors) Old)
          (Kept (inc64 s₀.persist_errors) Old)
      → Cleans m
  widen {m} h = record { holds = λ s p. widened (m s) (h.holds s p) }

  old_file : Cleans count_error
  old_file = widen (count_error-Triple Old)

  opened : (tmp : String) → tmp ≢ s₀.path → Cleans (discard_open host tmp)
  opened tmp new = widen (discard_open-Triple Old tmp new)

  closed : (tmp : String) → tmp ≢ s₀.path → Cleans (discard_closed host tmp)
  closed tmp new = widen (discard_closed-Triple Old tmp new)

  -- Writing the snapshot file either succeeds, or counts one error and leaves the old file or none.
  pub write_snapshot_file-Triple :
      (bytes : host.Data) (saved_at : Time)
      → ((n : ℕ) → host.temp_name n ≢ s₀.path)
      → Triple
          (Kept s₀.persist_errors Old)
          (write_snapshot_file host s₀.path bytes saved_at)
          (λ _. Written bytes saved_at)
          Failed
  unfolding write_snapshot_file
  write_snapshot_file-Triple bytes saved_at fresh =
      Triple-bind (Triple-on_error mkdir_all-Triple old_file) λ _.
        Triple-bind (Triple-on_error (create_temp-Triple fresh) old_file) λ tmp. Triple-given λ new.
          Triple-bind (Triple-on_error (write-Triple tmp bytes new) (opened tmp new)) λ _.
            Triple-bind (Triple-on_error (sync-Triple tmp bytes) (opened tmp new)) λ _.
              Triple-bind (Triple-on_error (close-Triple tmp bytes) (closed tmp new)) λ _.
                Triple-bind (Triple-ignore (clear-Triple tmp bytes new)) λ _.
                  Triple-bind
                    (Triple-on_error (rename-Triple tmp bytes)
                      (discard_closed-Triple OldOrNone tmp new))
                    λ _. note_persisted-Triple bytes saved_at Failed
