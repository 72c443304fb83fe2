-- ===== src/FileStore.antt =====
-- internal/store/file/store.go: a memory store whose every change is written to a JSON file. The
-- state and the calls of the file system are here, the store's own steps in the modules below. The
-- mutexes make every operation one step.
pub mod Triples
pub mod Persist
pub mod Write
pub mod Outcome
pub mod Reload
pub mod Replica
pub mod Succeeds
pub mod Operations
use getdata.Base.{
  ℕ, ◌+◌, String, Bool, Option, none, some, List, Result, ok, err, Error, if◌then◌else◌,
}
use getdata.Base.Dict.{Dict, insert, erase, lookup}
use getdata.Base.Words.{inc64}
use getdata.Model.{Time}
use getdata.Store.{Store}
use getdata.Store.Snapshot.{Snapshot}

pub record PersistedSnapshot : Type 0 where
  pub version : ℕ
  pub saved_at : Time
  pub snapshot : Snapshot

-- What the machine answers. `fault` is the error of the n-th call of the operating system, none if
-- the call succeeds; `partial` is what a failed write leaves in the file; `encode` and `decode` are
-- the JSON form of a snapshot, the bytes being of the type `Data`.
pub record Host : Type 1 where
  pub Data : Type 0
  pub encode : PersistedSnapshot → Result Data
  pub decode : Data → Result PersistedSnapshot
  pub empty : Data
  pub partial : ℕ → Data → Data
  pub fault : ℕ → Option Error
  pub temp_name : ℕ → String
  pub now : ℕ → Time

-- `calls` numbers the answers of the machine. `files` is the directory of the store, and `handed`
-- are the snapshots that the hook was called with, newest first.
pub record FileStore (Data : Type 0) : Type 0 where
  pub path : String
  pub inner : Store
  pub last_persisted_at : Time
  pub persist_errors : ℕ
  pub after_persist : Bool
  pub files : Dict Data
  pub calls : ℕ
  pub handed : List Data

-- A step that may fail. What it did before it failed stays done.
abbrev pub Step : Type 0 → Type 0 → Type 0
Step Data A = FileStore Data → Result A × FileStore Data

module _ {Data : Type 0} where
  abbrev pub continue : {A B : Type 0} → Result A → (A → Step Data B) → Step Data B
  continue (ok a) f s = f a s
  continue (err e) f s = (err e, s)

  infixl 5 ◌>>=◌ ◌>>◌
  unfoldable pub ◌>>=◌ : {A B : Type 0} → Step Data A → (A → Step Data B) → Step Data B
  ◌>>=◌ m f s = let (r, s') = m s in continue r f s'

  abbrev pub ◌>>◌ : {A B : Type 0} → Step Data A → Step Data B → Step Data B
  m >> k = m >>= λ _. k

  unfoldable pub pure : {A : Type 0} → A → Step Data A
  pure a s = (ok a, s)

  abbrev pub settle : {A : Type 0} → Result A → Step Data (Unit {0}) → Step Data A
  settle (ok a) cleanup s = (ok a, s)
  settle (err e) cleanup s = (err e, (cleanup s).1)

  -- if err := m; err != nil { cleanup; return err }
  unfoldable pub on_error : {A : Type 0} → Step Data A → Step Data (Unit {0}) → Step Data A
  on_error m cleanup s = let (r, s') = m s in settle r cleanup s'

  -- _ = m
  unfoldable pub ignore : Step Data (Unit {0}) → Step Data (Unit {0})
  ignore m s = (ok tt, (m s).1)

  -- s.persistErrors++
  unfoldable pub count_error : Step Data (Unit {0})
  count_error s = (ok tt, record s { persist_errors = inc64 s.persist_errors })

-- The file `source` becomes the file `target`.
unfoldable pub moved {ℓ} : {V : Type ℓ} → String → String → Dict V → Dict V
unfolding lookup
moved source target files = elim (lookup source files) [
  | none ↦ files
  | some bytes ↦ insert target bytes (erase source files)
]

module _ (host : Host) where
  -- A call of the operating system: `done` is what it does to the files, `failed` what it does to
  -- them when it fails.
  abbrev pub answered :
      (done failed : Dict host.Data → Dict host.Data) → Option Error → Step host.Data (Unit {0})
  answered done failed none s = (ok tt, record s { files = done s.files; calls = s.calls + 1 })
  answered done failed (some e) s =
      (err e, record s { files = failed s.files; calls = s.calls + 1 })

  unfoldable pub system :
      (done failed : Dict host.Data → Dict host.Data) → Step host.Data (Unit {0})
  system done failed s = answered done failed (host.fault s.calls) s

  abbrev pub unchanged : Dict host.Data → Dict host.Data
  unchanged files = files

  -- os.ReadFile, which tells a missing file from a failure.
  unfoldable pub read_file : String → Step host.Data (Option host.Data)
  read_file name s =
      let s' = record s { calls = s.calls + 1 } in
      elim (lookup name s.files) [
        | none ↦ (ok none, s')
        | some bytes ↦ elim (host.fault s.calls) [
          | none ↦ (ok (some bytes), s')
          | some e ↦ (err e, s')
        ]
      ]

  -- os.MkdirAll, tmpFile.Sync and tmpFile.Close change no file's content.
  unfoldable pub mkdir_all : Step host.Data (Unit {0})
  unfolding system
  mkdir_all = system unchanged unchanged

  unfoldable pub sync : Step host.Data (Unit {0})
  unfolding system
  sync = system unchanged unchanged

  unfoldable pub close : Step host.Data (Unit {0})
  unfolding system
  close = system unchanged unchanged

  -- os.CreateTemp and tmpFile.Name
  unfoldable pub create_temp : Step host.Data String
  unfolding system
  create_temp s =
      let name = host.temp_name s.calls in
      (system (insert name host.empty) unchanged >>= λ _. pure name) s

  -- tmpFile.Write
  unfoldable pub write : String → host.Data → Step host.Data (Unit {0})
  unfolding system
  write name bytes s = system (insert name bytes) (insert name (host.partial s.calls bytes)) s

  -- os.Remove of a file
  unfoldable pub remove : String → Step host.Data (Unit {0})
  unfolding system
  remove name = system (erase name) unchanged

  -- os.Rename: it replaces the target.
  unfoldable pub rename : String → String → Step host.Data (Unit {0})
  unfolding system moved
  rename source target = system (moved source target) unchanged
