-- ===== src/FileStore/Outcome.antt =====
-- A change of the file store is committed to memory and file alike, or it leaves the memory as it
-- was.
use getdata.Base.{
  String, List, arith, [], ◌+◌, ◌<◌, ◌≡◌, ◌≢◌, refl, sym, ap, ◌∙◌, subst⁻¹, ℕ, inl, ◌∷◌, some,
  Result, ok, err, Error, if◌then◌else◌,
}
use getdata.Base.Dict.{Dict, lookup, map_values}
use getdata.Base.Words.{inc64}
use getdata.Store.{Store}
use getdata.Store.Snapshot.{snapshot, sorted_copy}
use getdata.Store.Snapshot.RoundTrip.{restore-snapshot, sorted_copy-eq}
use getdata.Store.Sorting.Laws.{sort_strings_idem}
use getdata.FileStore.{PersistedSnapshot, Host, FileStore, pure, count_error}
use getdata.FileStore.Persist.{persist, written, mutate, applied, settled}
use getdata.FileStore.Triples.{Post, Triple-bind}
use getdata.FileStore.Write.{OldOrNone, Failed, Written, write_snapshot_file-Triple}

abbrev pub sorted_groups : Store → Store
sorted_groups t = record t { device_ids_by_group = map_values sorted_copy t.device_ids_by_group }

ok_not_err : {A : Type 0} {e : Error} {a : A} → ◌≢◌ {A = Result A} (ok a) (err e)
ok_not_err = λ h. ground arith

sorted_copy_idem : (xs : List String) → sorted_copy (sorted_copy xs) ≡ sorted_copy xs
sorted_copy_idem xs =
    rw (sorted_copy-eq (sorted_copy xs), sorted_copy-eq xs, sort_strings_idem) refl

map_values_idem :
    {V : Type 0} (f : V → V)
    → ((v : V) → f (f v) ≡ f v)
    → (m : Dict V) → map_values f (map_values f m) ≡ map_values f m
unfolding map_values
map_values_idem f h [] = refl
map_values_idem f h ((k, v) ∷ m) = cc (h v, map_values_idem f h m)

sorted_groups_idem : (t : Store) → sorted_groups (sorted_groups t) ≡ sorted_groups t
sorted_groups_idem t = rw (map_values_idem sorted_copy sorted_copy_idem t.device_ids_by_group) refl

-- The store of a success.
abbrev new_store : {A : Type 0} → Store → Result (A × Store) → Store
new_store fallback (err e) = fallback
new_store fallback (ok (a, t)) = t

module _ (host : Host) where
  -- CreateTemp makes a new file, never the snapshot file.
  abbrev pub Fresh : FileStore host.Data → Type 0
  Fresh s = (n : ℕ) → host.temp_name n ≢ s.path

  -- What `persist` encodes.
  abbrev pub to_persist : FileStore host.Data → PersistedSnapshot
  to_persist s = record { version = 1; saved_at = host.now s.calls; snapshot = snapshot s.inner }

  abbrev Persisted : FileStore host.Data → host.Data → FileStore host.Data → Type 0
  Persisted s bytes s' =
      (host.encode (to_persist s) ≡ ok bytes) × Written host s bytes (host.now s.calls) s'

  written_lem :
      (s : FileStore host.Data) (r : Result host.Data)
      → Fresh s
      → host.encode (to_persist s) ≡ r
      → Post
          (Persisted s)
          (Failed host s)
          (written host (to_persist s) r (record s { calls = s.calls + 1 }))
  unfolding count_error pure
  written_lem s (err e) fresh h = (refl, refl, refl, refl, refl, refl, inl refl)
  written_lem s (ok bytes) fresh h =
      (Triple-bind (write_snapshot_file-Triple host s bytes (host.now s.calls) fresh)
          (λ _. record { holds = λ t w. (h, w) })).holds
        (record s { calls = s.calls + 1 }) (refl, refl, refl, refl, refl, refl, refl)

  persist_lem :
      (s : FileStore host.Data) → Fresh s → Post (Persisted s) (Failed host s) (persist host s)
  unfolding persist
  persist_lem s fresh = written_lem s (host.encode (to_persist s)) fresh refl

  -- The memory is `t`, its snapshot is in the file, and the hook got it if one is set.
  abbrev pub Committed : Store → FileStore host.Data → FileStore host.Data → Type 0
  Committed t s s' =
      (s'.inner ≡ t)
      × (s'.path ≡ s.path)
      × (s'.persist_errors ≡ s.persist_errors)
      × (s'.last_persisted_at ≡ host.now s.calls)
      × ((bytes : host.Data) × (host.encode (to_persist (record s { inner = t })) ≡ ok bytes)
          × (lookup s.path s'.files ≡ some bytes)
          × (s'.handed ≡ (if s.after_persist then bytes ∷ s.handed else s.handed)))

  -- The memory is as it was, one error is counted, and the file is the old one or gone.
  abbrev pub Undone : FileStore host.Data → FileStore host.Data → Type 0
  Undone s s' =
      (s'.inner ≡ sorted_groups s.inner)
      × (s'.path ≡ s.path)
      × (s'.persist_errors ≡ inc64 s.persist_errors)
      × (s'.last_persisted_at ≡ s.last_persisted_at)
      × (s'.handed ≡ s.handed)
      × OldOrNone host s (lookup s.path s'.files)

  pub data Outcome {A : Type 0} (apply : Store → Result (A × Store)) (s : FileStore host.Data)
      : Result A × FileStore host.Data → Type 0 where
    refused : (e : Error) → apply s.inner ≡ err e → Outcome apply s (err e, s)
    undone :
        (a : A) (t : Store) (e : Error) (s' : FileStore host.Data)
        → apply s.inner ≡ ok (a, t)
        → Undone s s'
        → Outcome apply s (err e, s')
    committed :
        (a : A) (t : Store) (s' : FileStore host.Data)
        → apply s.inner ≡ ok (a, t)
        → Committed t s s'
        → Outcome apply s (ok a, s')

  module _ {A : Type 0} (apply : Store → Result (A × Store)) (s : FileStore host.Data)
      (h : 0 < s.inner.telemetry_retention) (k : 0 < s.inner.alert_retention) where
    settled_lem :
        (a : A) (t : Store) (x : Result host.Data × FileStore host.Data)
        → apply s.inner ≡ ok (a, t)
        → Post (Persisted (record s { inner = t })) (Failed host (record s { inner = t })) x
        → Outcome apply s (settled host (snapshot s.inner) a x)
    settled_lem a t (err e, s') q (p, i, _, d, l, c, f) =
        undone a t e _ q (restore-snapshot s.inner s'.inner h k, p, c, l, d, f)
    settled_lem a t (ok bytes, s') q (b, (p, i, w, d, l, c, f)) =
        committed a t _ q (i, p, c, l, (bytes, b, f, cc (w, d)))

    applied_lem :
        Fresh s
        → (r : Result (A × Store)) → apply s.inner ≡ r
        → Outcome apply s (applied host (snapshot s.inner) r s)
    applied_lem fresh (err e) q = refused e q
    applied_lem fresh (ok (a, t)) q =
        settled_lem a t (persist host (record s { inner = t })) q
          (persist_lem (record s { inner = t }) fresh)

    -- Every change ends in one of three ways: refused by the memory store, it changes nothing;
    -- not persisted, it leaves the memory as it was, up to the order of a group's devices, counts one error, and leaves the old file or none; otherwise memory, file and hook have the new state. The temporary files must be new, and the retentions positive.
    pub mutate-Outcome : Fresh s → Outcome apply s (mutate host apply s)
    unfolding mutate
    mutate-Outcome fresh = applied_lem fresh (apply s.inner) refl

    made :
        (x : Result A × FileStore host.Data) (a : A) (t : Store)
        → apply s.inner ≡ ok (a, t)
        → Outcome apply s x
        → x.0 ≡ ok a
        → Committed t s x.1
    made _ a t q (refused e q') r = absurd (ok_not_err (sym r))
    made _ a t q (undone a' t' e s' q' w) r = absurd (ok_not_err (sym r))
    made _ a t q (committed a' t' s' q' w) r =
        subst⁻¹ (λ u. Committed u s s') (ap (new_store t) (sym q ∙ q')) w

    -- A change that the memory store takes and that gives no error is committed.
    pub mutate-Committed :
        (a : A) (t : Store)
        → Fresh s
        → apply s.inner ≡ ok (a, t)
        → (mutate host apply s).0 ≡ ok a
        → Committed t s (mutate host apply s).1
    mutate-Committed a t fresh q r = made _ a t q (mutate-Outcome fresh) r

    unseen :
        (x : Result A × FileStore host.Data) (e : Error)
        → Outcome apply s x
        → x.0 ≡ err e
        → sorted_groups x.1.inner ≡ sorted_groups s.inner
    unseen _ e (refused e' q) r = refl
    unseen _ e (undone a t e' s' q (i, _, _, _, _, _)) r = rw (i, sorted_groups_idem) refl
    unseen _ e (committed a t s' q w) r = absurd (ok_not_err r)

    -- A change that fails, for whatever reason, leaves the memory as it was, up to the order of a
    -- group's devices. The temporary files must be new, and the retentions positive.
    pub mutate-err :
        (e : Error)
        → Fresh s
        → (mutate host apply s).0 ≡ err e
        → sorted_groups (mutate host apply s).1.inner ≡ sorted_groups s.inner
    mutate-err e fresh r = unseen (mutate host apply s) e (mutate-Outcome fresh) r
