-- ===== src/FileStore/Persist.antt =====
-- The steps of the file store: loading, persisting, and a change that is persisted or undone. A
-- replica's snapshot takes the same way to the file.
use getdata.Base.{
  ◌+◌, String, Option, none, some, [], ◌∷◌, false, Result, ok, err, unnamed, if◌then◌else◌, ◌==◌,
}
use getdata.Base.Dict.{Dict}
use getdata.Base.Words.{ℤ}
use getdata.Model.{Time}
use getdata.Store.{Store}
use getdata.Store as Memory
use getdata.Store.Snapshot.{Snapshot, snapshot, restore}
use getdata.FileStore.{
  PersistedSnapshot, Host, FileStore, Step, ◌>>=◌, ◌>>◌, pure, on_error, ignore, count_error,
  read_file, mkdir_all, sync, close, create_temp, write, remove, rename,
}

module _ (host : Host) where
  -- s.lastPersistedAt = savedAt.UTC()
  unfoldable pub note_persisted : Time → Step host.Data (Unit {0})
  note_persisted saved_at s = (ok tt, record s { last_persisted_at = saved_at })

  -- Close and remove the temporary file, whatever comes of it, and count the error.
  unfoldable pub discard_open : String → Step host.Data (Unit {0})
  discard_open tmp_path = do ignore (close host); ignore (remove host tmp_path); count_error

  unfoldable pub discard_closed : String → Step host.Data (Unit {0})
  discard_closed tmp_path = do ignore (remove host tmp_path); count_error

  -- writeSnapshotFile
  unfoldable pub write_snapshot_file : String → host.Data → Time → Step host.Data (Unit {0})
  write_snapshot_file path bytes saved_at = do
    on_error (mkdir_all host) count_error
    tmp_path ← on_error (create_temp host) count_error
    on_error (write host tmp_path bytes) (discard_open tmp_path)
    on_error (sync host) (discard_open tmp_path)
    on_error (close host) (discard_closed tmp_path)
    ignore (remove host path)
    on_error (rename host tmp_path path) (discard_closed tmp_path)
    note_persisted saved_at

  abbrev pub loaded_snapshot : Result PersistedSnapshot → Step host.Data (Unit {0})
  loaded_snapshot (err e) s = (err e, s)
  loaded_snapshot (ok p) s =
      (ok tt, record s { inner = restore p.snapshot s.inner; last_persisted_at = p.saved_at })

  abbrev pub loaded : Option host.Data → Step host.Data (Unit {0})
  loaded none s = (ok tt, s)
  loaded (some bytes) s = loaded_snapshot (host.decode bytes) s

  -- load: a missing file leaves the store empty.
  unfoldable pub load : Step host.Data (Unit {0})
  load s = (read_file host s.path >>= loaded) s

  abbrev pub written : PersistedSnapshot → Result host.Data → Step host.Data host.Data
  written p (err e) s = (err e, (count_error s).1)
  written p (ok bytes) s = (write_snapshot_file s.path bytes p.saved_at >>= λ _. pure bytes) s

  -- persist
  unfoldable pub persist : Step host.Data host.Data
  persist s =
      let persisted : PersistedSnapshot = record {
        version = 1;
        saved_at = host.now s.calls;
        snapshot = snapshot s.inner;
      } in
      written persisted (host.encode persisted) (record s { calls = s.calls + 1 })

  abbrev pub opened : Result (Unit {0}) × FileStore host.Data → Result (FileStore host.Data)
  opened (ok _, s) = ok s
  opened (err e, s) = err e

  -- New
  unfoldable pub new : String → ℤ → Dict host.Data → Result (FileStore host.Data)
  new path telemetry_retention files =
      if path == ""
      then err (unnamed "persistence path is required")
      else opened (
          load (record {
            path = path;
            inner = Memory.new telemetry_retention;
            last_persisted_at = 0;
            persist_errors = 0;
            after_persist = false;
            files = files;
            calls = 0;
            handed = [];
          }))

  -- The caller's snapshot goes to the hook, if one is set.
  abbrev pub hand_over : host.Data → FileStore host.Data → FileStore host.Data
  hand_over bytes s = record s { handed = if s.after_persist then bytes ∷ s.handed else s.handed }

  -- The end of mutate: what `persist` could not write is undone.
  abbrev pub settled :
      {A : Type 0}
      → Snapshot
      → A
      → Result host.Data × FileStore host.Data
      → Result A × FileStore host.Data
  settled rollback a (err e, s) = (err e, record s { inner = restore rollback s.inner })
  settled rollback a (ok bytes, s) = (ok a, hand_over bytes s)

  abbrev pub applied : {A : Type 0} → Snapshot → Result (A × Store) → Step host.Data A
  applied rollback (err e) s = (err e, s)
  applied rollback (ok (a, t)) s = settled rollback a (persist (record s { inner = t }))

  -- mutate. `apply` also gives what the caller's closure keeps of it.
  unfoldable pub mutate : {A : Type 0} → (Store → Result (A × Store)) → Step host.Data A
  mutate apply s = applied (snapshot s.inner) (apply s.inner) s

  abbrev pub take_over : Snapshot → Step host.Data (Unit {0})
  take_over p s = (ok tt, record s { inner = restore p s.inner })

  abbrev pub replicated : host.Data → Result PersistedSnapshot → Step host.Data (Unit {0})
  replicated bytes (err e) s = (err e, s)
  replicated bytes (ok p) s =
      (write_snapshot_file s.path bytes p.saved_at >>= λ _. take_over p.snapshot) s

  -- ApplyReplicaSnapshot
  unfoldable pub apply_replica_snapshot : host.Data → Step host.Data (Unit {0})
  apply_replica_snapshot bytes = replicated bytes (host.decode bytes)
