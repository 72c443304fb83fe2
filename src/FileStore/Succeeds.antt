-- ===== src/FileStore/Succeeds.antt =====
-- On a machine whose calls succeed, a change that the memory store takes is persisted.
use getdata.Base.{◌<◌, ◌+◌, refl, ℕ, String, subst⁻¹, ◌≡◌, none, ok, err, Result}
use getdata.Base.Dict.{Dict}
use getdata.Model.{Time}
use getdata.Store.{Store}
use getdata.Store.Snapshot.{Snapshot, snapshot}
use getdata.FileStore.{
  Host, FileStore, Step, ◌>>=◌, pure, on_error, ignore, answered, system, mkdir_all, sync, close,
  create_temp, write, rename,
}
use getdata.FileStore.Persist.{
  note_persisted, write_snapshot_file, persist, written, mutate, applied, settled,
}
use getdata.FileStore.Triples.{Post, Triple, Triple-bind, Triple-on_error, Triple-pure, Triple-read}
use getdata.FileStore.Outcome.{to_persist, Fresh, Committed, mutate-Committed}

-- The step does not fail.
pub record Succeeds {Data A : Type 0} (m : Step Data A) : Type 0 where
  pub triple : Triple (λ _. Unit {0}) m (λ _ _. Unit {0}) (λ _. ⊥)

module _ {Data : Type 0} where
  Succeeds-bind :
      {A B : Type 0} (m : Step Data A) (f : A → Step Data B)
      → Succeeds m
      → ((a : A) → Succeeds (f a))
      → Succeeds (m >>= f)
  Succeeds-bind m f h k = record { triple = Triple-bind h.triple (λ a. (k a).triple) }

  Succeeds-on_error :
      {A : Type 0} (m : Step Data A) (cleanup : Step Data (Unit {0}))
      → Succeeds m
      → Succeeds (on_error m cleanup)
  Succeeds-on_error m cleanup h = record {
    triple = Triple-on_error h.triple (record { holds = λ s p. absurd p });
  }

  Succeeds-ignore : (m : Step Data (Unit {0})) → Succeeds (ignore m)
  unfolding ignore
  Succeeds-ignore m = record { triple = record { holds = λ s p. tt } }

  Succeeds-pure : {A : Type 0} (a : A) → Succeeds {Data = Data} (pure a)
  unfolding pure
  Succeeds-pure a = record { triple = Triple-pure a }

module _ (host : Host) (sound : (n : ℕ) → host.fault n ≡ none) where
  Succeeds-system :
      (done failed : Dict host.Data → Dict host.Data) → Succeeds (system host done failed)
  unfolding system
  Succeeds-system done failed = record {
    triple = record {
      holds = λ s p.
          subst⁻¹ (λ x. Post (λ _ _. Unit {0}) (λ _. ⊥) (answered host done failed x s))
            (sound s.calls) tt;
    };
  }

  Succeeds-mkdir_all : Succeeds (mkdir_all host)
  unfolding mkdir_all
  Succeeds-mkdir_all = Succeeds-system _ _

  Succeeds-create_temp : Succeeds (create_temp host)
  unfolding create_temp pure
  Succeeds-create_temp = record {
    triple = Triple-read _ λ s.
        (Succeeds-bind _ _ (Succeeds-system _ _)
          (λ _. Succeeds-pure (host.temp_name s.calls))).triple;
  }

  Succeeds-write : (name : String) (bytes : host.Data) → Succeeds (write host name bytes)
  unfolding write
  Succeeds-write name bytes = record { triple = Triple-read _ λ s. (Succeeds-system _ _).triple }

  Succeeds-sync : Succeeds (sync host)
  unfolding sync
  Succeeds-sync = Succeeds-system _ _

  Succeeds-close : Succeeds (close host)
  unfolding close
  Succeeds-close = Succeeds-system _ _

  Succeeds-rename : (source target : String) → Succeeds (rename host source target)
  unfolding rename
  Succeeds-rename source target = Succeeds-system _ _

  Succeeds-note_persisted : (at : Time) → Succeeds (note_persisted host at)
  unfolding note_persisted
  Succeeds-note_persisted at = record { triple = record { holds = λ s p. tt } }

  Succeeds-write_snapshot_file :
      (path : String) (bytes : host.Data) (at : Time)
      → Succeeds (write_snapshot_file host path bytes at)
  unfolding write_snapshot_file
  Succeeds-write_snapshot_file path bytes at =
      search
        (
          Succeeds-bind, Succeeds-on_error, Succeeds-ignore, Succeeds-mkdir_all,
          Succeeds-create_temp, Succeeds-write, Succeeds-sync, Succeeds-close, Succeeds-rename,
          Succeeds-note_persisted,
        )
        depth 30

  -- No error is given.
  abbrev Ends : {A : Type 0} → Result A × FileStore host.Data → Type 0
  Ends x = Post (λ _ _. Unit {0}) (λ _. ⊥) x

  persist-Ends :
      (s : FileStore host.Data) (bytes : host.Data)
      → host.encode (to_persist host s) ≡ ok bytes
      → Ends (persist host s)
  unfolding persist
  persist-Ends s bytes h =
      subst⁻¹ (λ r. Ends (written host (to_persist host s) r (record s { calls = s.calls + 1 }))) h
        ((Succeeds-bind _ _ (Succeeds-write_snapshot_file s.path bytes (host.now s.calls))
            (λ _. Succeeds-pure bytes)).triple.holds
          _ tt)

  settled_ok :
      {A : Type 0} (rollback : Snapshot) (a : A) (x : Result host.Data × FileStore host.Data)
      → Ends x
      → (settled host rollback a x).0 ≡ ok a
  settled_ok rollback a (ok _, s) h = refl
  settled_ok rollback a (err _, s) h = absurd h

  mutate_lem :
      {A : Type 0} (apply : Store → Result (A × Store)) (s : FileStore host.Data) (a : A)
      (t : Store) (bytes : host.Data)
      → apply s.inner ≡ ok (a, t)
      → host.encode (to_persist host (record s { inner = t })) ≡ ok bytes
      → (mutate host apply s).0 ≡ ok a
  unfolding mutate
  mutate_lem apply s a t bytes q h =
      subst⁻¹ (λ r. (applied host (snapshot s.inner) r s).0 ≡ ok a) q
        (settled_ok (snapshot s.inner) a _ (persist-Ends (record s { inner = t }) bytes h))

  -- If no call of the operating system fails and the new state has a JSON form, a change that the
  -- memory store takes succeeds with its result, and it is made: the memory is the new state, the
  -- snapshot file holds its JSON form, no error is counted, and the hook is handed that form if one is
  -- set. The temporary files must be new, and the retentions positive.
  pub mutate-ok :
      {A : Type 0} (apply : Store → Result (A × Store)) (s : FileStore host.Data) (a : A)
      (t : Store) (bytes : host.Data)
      → apply s.inner ≡ ok (a, t)
      → host.encode (to_persist host (record s { inner = t })) ≡ ok bytes
      → Fresh host s
      → 0 < s.inner.telemetry_retention
      → 0 < s.inner.alert_retention
      → ((mutate host apply s).0 ≡ ok a) × Committed host t s (mutate host apply s).1
  mutate-ok apply s a t bytes q h fresh k l =
      let r = mutate_lem apply s a t bytes q h in
      (r, mutate-Committed host apply s k l a t fresh q r)
