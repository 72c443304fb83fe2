-- ===== src/FileStore/Reload.antt =====
-- A file store that is opened again reads what the last committed change wrote.
use getdata.Base.{
  ◌+◌, ◌<◌, String, ◌≡◌, ◌≢◌, ◌∙◌, sym, subst, Error, refl, some, none, [], Result, ok, err, false,
  arith, ◌==◌, eq_iff,
}
use getdata.Base.Dict.{Dict, lookup}
use getdata.Base.Words.{ℤ}
use getdata.Store.{Store}
use getdata.Store as Memory
use getdata.Store.Snapshot.{restore}
use getdata.Store.Snapshot.RoundTrip.{restore-snapshot}
use getdata.FileStore.{PersistedSnapshot, Host, FileStore, ◌>>=◌, read_file}
use getdata.FileStore.Persist.{mutate, load, loaded_snapshot, new}
use getdata.FileStore.Outcome.{
  sorted_groups, Fresh, to_persist, Committed, Outcome, refused, undone, committed, mutate-Outcome,
}

not_empty : (path : String) → path ≢ "" → (path == "") ≡ false
not_empty path h = ground (arith, eq_iff path "")

err_not_ok : {A : Type 0} {e : Error} {a : A} → ◌≢◌ {A = Result A} (err e) (ok a)
err_not_ok = λ h. ground arith

same_state :
    {A : Type 0} {a b : A} {t u : Store}
    → ◌≡◌ {A = Result (A × Store)} (ok (a, t)) (ok (b, u))
    → t ≡ u
same_state h = ground arith

module _ (host : Host) where
  -- The store that a process starts with, before it loads.
  abbrev unloaded : String → ℤ → Dict host.Data → FileStore host.Data
  unloaded path retention files = record {
    path = path;
    inner = Memory.new retention;
    last_persisted_at = 0;
    persist_errors = 0;
    after_persist = false;
    files = files;
    calls = 0;
    handed = [];
  }

  read_file_lem :
      (name : String) (bytes : host.Data) (s : FileStore host.Data)
      → lookup name s.files ≡ some bytes
      → host.fault s.calls ≡ none
      → read_file host name s ≡ (ok (some bytes), record s { calls = s.calls + 1 })
  unfolding read_file
  read_file_lem name bytes s h k = rw (read_file, h, k) refl

  load_lem :
      (s : FileStore host.Data) (bytes : host.Data) (p : PersistedSnapshot)
      → lookup s.path s.files ≡ some bytes
      → host.fault s.calls ≡ none
      → host.decode bytes ≡ ok p
      → load host s ≡ (
        ok tt,
        record s {
          inner = restore p.snapshot s.inner;
          last_persisted_at = p.saved_at;
          calls = s.calls + 1;
        },
      )
  unfolding load ◌>>=◌
  load_lem s bytes p h k d = rw (read_file_lem s.path bytes s h k, loaded_snapshot, d) refl

  new_lem :
      (path : String) (retention : ℤ) (files : Dict host.Data) (bytes : host.Data)
      (p : PersistedSnapshot)
      → path ≢ ""
      → lookup path files ≡ some bytes
      → host.fault 0 ≡ none
      → host.decode bytes ≡ ok p
      → new host path retention files
        ≡ ok (record (unloaded path retention files) {
          inner = restore p.snapshot (Memory.new retention);
          last_persisted_at = p.saved_at;
          calls = 1;
        })
  unfolding new
  new_lem path retention files bytes p named h k d =
      rw (not_empty path named, load_lem (unloaded path retention files) bytes p h k d) refl

  module _ (s : FileStore host.Data) (t : Store) where
    -- The JSON of the state `t` decodes to it.
    abbrev pub Readable : Type 0
    Readable =
        (bytes : host.Data)
        → host.encode (to_persist host (record s { inner = t })) ≡ ok bytes
        → host.decode bytes ≡ ok (to_persist host (record s { inner = t }))

    pub committed_lem :
        {A : Type 0} (apply : Store → Result (A × Store)) (a : A)
        (x : Result A × FileStore host.Data)
        → apply s.inner ≡ ok (a, t)
        → Outcome host apply s x
        → x.0 ≡ ok a
        → Committed host t s x.1
    committed_lem apply a _ q (refused e h) r = absurd (err_not_ok r)
    committed_lem apply a _ q (undone b u e s' h w) r = absurd (err_not_ok r)
    committed_lem apply a _ q (committed b u s' h w) r =
        subst (λ v. Committed host v s s') (same_state (sym h ∙ q)) w

  module _ (s : FileStore host.Data) (t : Store) (retention : ℤ) where
    abbrev pub Reopened : FileStore host.Data → Type 0
    Reopened s' =
        new host s.path retention s'.files
        ≡ ok (record (unloaded s.path retention s'.files) {
          inner = sorted_groups t;
          last_persisted_at = host.now s.calls;
          calls = 1;
        })

    reopen :
        (s' : FileStore host.Data)
        → Readable s t
        → host.fault 0 ≡ none
        → s.path ≢ ""
        → 0 < t.telemetry_retention
        → 0 < t.alert_retention
        → Committed host t s s'
        → Reopened s'
    reopen s' readable k named h₁ h₂ (i, p, c, l, (bytes, b, f, d)) =
        new_lem s.path retention s'.files bytes _ named f k (readable bytes b)
        ∙ rw (restore-snapshot t (Memory.new retention) h₁ h₂) refl

    -- After a change is committed, a store that is opened on its files has the state that the change
    -- gave, with the device list of each group sorted. The JSON of the snapshot must decode to it,
    -- the file must be readable, the temporary files new, and the retentions positive.
    pub new-mutate :
        {A : Type 0} (apply : Store → Result (A × Store)) (a : A)
        → apply s.inner ≡ ok (a, t)
        → (mutate host apply s).0 ≡ ok a
        → Readable s t
        → host.fault 0 ≡ none
        → s.path ≢ ""
        → Fresh host s
        → 0 < s.inner.telemetry_retention
        → 0 < s.inner.alert_retention
        → 0 < t.telemetry_retention
        → 0 < t.alert_retention
        → Reopened (mutate host apply s).1
    new-mutate apply a q r readable k named fresh p₁ p₂ h₁ h₂ =
        reopen (mutate host apply s).1 readable k named h₁ h₂
          (committed_lem s t apply a _ q (mutate-Outcome host apply s p₁ p₂ fresh) r)
