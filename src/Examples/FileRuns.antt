-- ===== src/Examples/FileRuns.antt =====
-- The file store: a group is created on a machine that works, and on one that cannot rename.
use getdata.Base.{
  sym, ℕ, ◌+◌, String, ◌≡◌, ◌≢◌, refl, none, some, [], ◌∷◌, true, ok, err, unnamed, nat_eq,
  if◌then◌else◌, arith, eq_iff,
}
use getdata.Base.Dict.{lookup, insert, erase}
use getdata.Base.Words.{pos}
use getdata.Store.{Store}
use getdata.Store as Memory
use getdata.Store.Catalog.{create_group}
use getdata.Store.Clone.{clone_group, clone_string_map}
use getdata.Store.Snapshot.{snapshot}
use getdata.FileStore
use getdata.FileStore.{PersistedSnapshot, Host, FileStore}
use getdata.FileStore.Persist.{
  persist, write_snapshot_file, note_persisted, discard_open, discard_closed, mutate,
  apply_replica_snapshot,
}
use getdata.FileStore.Operations.{plain}
use getdata.FileStore.Outcome.{Outcome, Fresh, Committed, mutate-Outcome, to_persist, sorted_groups}
use getdata.FileStore.Reload.{Reopened, new-mutate}
use getdata.FileStore.Replica.{apply_replica_snapshot-mutate}
use getdata.FileStore.Succeeds.{mutate-ok}
use getdata.Examples.StoreRuns.{hall}

abbrev blank : PersistedSnapshot
blank = record { version = 0; saved_at = 0; snapshot = snapshot (Memory.new (pos 2)) }

-- A machine whose call `broken` fails, where JSON keeps a snapshot as it is.
abbrev machine : ℕ → Host
machine broken = record {
  Data = PersistedSnapshot;
  encode = ok;
  decode = ok;
  empty = blank;
  partial = λ n bytes. blank;
  fault = λ n. if nat_eq n broken then some (unnamed "denied") else none;
  temp_name = λ n. "mvp-store-1.tmp";
  now = λ n. n + 40;
}

-- A machine without faults.
abbrev healthy : Host
healthy = record (machine 0) { fault = λ n. none }

abbrev opened : FileStore PersistedSnapshot
opened = record {
  path = "store.json";
  inner = Memory.new (pos 2);
  last_persisted_at = 30;
  persist_errors = 0;
  after_persist = true;
  files = ("store.json", blank) ∷ [];
  calls = 1;
  handed = [];
}

-- The calls of the change are: the clock 1, the folder 2, the temporary file 3, write 4, sync 5,
-- close 6, remove 7, rename 8.
denied_rename : (mutate (machine 8) (plain (create_group hall)) opened).0 ≡ err (unnamed "denied")
unfolding mutate create_group lookup erase insert Memory.new persist FileStore.◌>>=◌
    write_snapshot_file discard_open discard_closed note_persisted FileStore.on_error
    FileStore.mkdir_all FileStore.create_temp FileStore.pure FileStore.write FileStore.sync
    FileStore.close FileStore.ignore FileStore.rename FileStore.remove FileStore.count_error
denied_rename = refl

lost_file :
    lookup "store.json" (mutate (machine 8) (plain (create_group hall)) opened).1.files ≡ none
unfolding mutate create_group lookup erase insert Memory.new persist FileStore.◌>>=◌
    write_snapshot_file discard_open discard_closed note_persisted FileStore.on_error
    FileStore.mkdir_all FileStore.create_temp FileStore.pure FileStore.write FileStore.sync
    FileStore.close FileStore.ignore FileStore.rename FileStore.remove FileStore.count_error
lost_file = refl

-- A full disk leaves the old file.
kept_file :
    lookup "store.json" (mutate (machine 4) (plain (create_group hall)) opened).1.files ≡ some blank
unfolding mutate create_group lookup erase insert Memory.new persist FileStore.◌>>=◌
    write_snapshot_file discard_open discard_closed note_persisted FileStore.on_error
    FileStore.mkdir_all FileStore.create_temp FileStore.pure FileStore.write FileStore.sync
    FileStore.close FileStore.ignore FileStore.rename FileStore.remove FileStore.count_error
kept_file = refl

named : ◌≢◌ {A = String} "mvp-store-1.tmp" "store.json"
named = ground (arith, eq_iff "mvp-store-1.tmp" "store.json")

opened-Fresh : (broken : ℕ) → Fresh (machine broken) opened
opened-Fresh broken n = named

abbrev grouped : Store
grouped = record opened.inner { groups = ("grp_1", hall) ∷ [] }

applies : plain (create_group hall) opened.inner ≡ ok (tt, grouped)
unfolding create_group insert lookup Memory.new clone_group clone_string_map
applies = refl

mutate-Outcome_example :
    Outcome
      (machine 8)
      (plain (create_group hall))
      opened
      (mutate (machine 8) (plain (create_group hall)) opened)
unfolding Memory.new
mutate-Outcome_example =
    mutate-Outcome (machine 8) (plain (create_group hall)) opened (omega arith) (omega arith)
      (opened-Fresh 8)

-- No call before the hundredth fails.
made : (mutate (machine 100) (plain (create_group hall)) opened).0 ≡ ok tt
unfolding mutate create_group lookup erase insert Memory.new persist FileStore.◌>>=◌
    write_snapshot_file discard_open discard_closed note_persisted FileStore.on_error
    FileStore.mkdir_all FileStore.create_temp FileStore.pure FileStore.write FileStore.sync
    FileStore.close FileStore.ignore FileStore.rename FileStore.remove FileStore.count_error
made = refl

not_blank : ◌≢◌ {A = String} "store.json" ""
not_blank = ground (arith, eq_iff "store.json" "")

new-mutate_example :
    Reopened
      (machine 100)
      opened
      grouped
      (pos 2)
      (mutate (machine 100) (plain (create_group hall)) opened).1
unfolding Memory.new
new-mutate_example =
    new-mutate (machine 100) opened grouped (pos 2) (plain (create_group hall)) tt applies made
      (λ bytes e. sym e) refl not_blank (opened-Fresh 100) (omega arith) (omega arith) (omega arith)
      (omega arith)

abbrev written : PersistedSnapshot
written = to_persist (machine 100) (record opened { inner = grouped })

mutate-ok_example :
    ((mutate healthy (plain (create_group hall)) opened).0 ≡ ok tt)
    × Committed healthy grouped opened (mutate healthy (plain (create_group hall)) opened).1
unfolding Memory.new
mutate-ok_example =
    mutate-ok healthy (λ n. refl) (plain (create_group hall)) opened tt grouped written applies refl
      (opened-Fresh 100) (omega arith) (omega arith)

handed : (mutate (machine 100) (plain (create_group hall)) opened).1.handed ≡ written ∷ []
unfolding mutate apply_replica_snapshot create_group lookup erase insert Memory.new persist
    FileStore.◌>>=◌ write_snapshot_file discard_open discard_closed note_persisted
    FileStore.on_error FileStore.mkdir_all FileStore.create_temp FileStore.pure FileStore.write
    FileStore.sync FileStore.close FileStore.ignore FileStore.rename FileStore.remove
    FileStore.count_error clone_group clone_string_map
handed = refl

taken : (apply_replica_snapshot (machine 100) written opened).0 ≡ ok tt
unfolding mutate apply_replica_snapshot create_group lookup erase insert Memory.new persist
    FileStore.◌>>=◌ write_snapshot_file discard_open discard_closed note_persisted
    FileStore.on_error FileStore.mkdir_all FileStore.create_temp FileStore.pure FileStore.write
    FileStore.sync FileStore.close FileStore.ignore FileStore.rename FileStore.remove
    FileStore.count_error
taken = refl

apply_replica_snapshot-mutate_example :
    ((apply_replica_snapshot (machine 100) written opened).1.inner ≡ sorted_groups grouped)
    × (lookup "store.json" (apply_replica_snapshot (machine 100) written opened).1.files
        ≡ some written)
unfolding Memory.new
apply_replica_snapshot-mutate_example =
    apply_replica_snapshot-mutate (machine 100) opened grouped opened written
      (plain (create_group hall)) tt applies made refl handed taken (λ bytes e. sym e)
      (opened-Fresh 100) (opened-Fresh 100) (omega arith) (omega arith) (omega arith) (omega arith)
