-- ===== src/FileStore/Replica.antt =====
-- A replica that applies what the primary's hook was handed has the primary's state.
use getdata.Base.{◌<◌, ◌≡◌, ◌∙◌, subst⁻¹, ap, refl, some, true, ◌∷◌, Result, ok, err, arith}
use getdata.Base.Dict.{lookup}
use getdata.Store.{Store}
use getdata.Store.Snapshot.{restore}
use getdata.Store.Snapshot.RoundTrip.{restore-snapshot}
use getdata.FileStore.{PersistedSnapshot, Host, FileStore}
use getdata.FileStore.Persist.{mutate, replicated, apply_replica_snapshot}
use getdata.FileStore.Triples.{Post, Triple-bind}
use getdata.FileStore.Write.{OldOrNone, Failed, write_snapshot_file-Triple}
use getdata.FileStore.Outcome.{sorted_groups, Fresh, to_persist, Committed, mutate-Outcome}
use getdata.FileStore.Reload.{Readable, committed_lem}

module _ (host : Host) where
  -- The replica has the snapshot in memory, and its bytes in the file.
  abbrev Replicated :
      host.Data → PersistedSnapshot → FileStore host.Data → FileStore host.Data → Type 0
  Replicated bytes p r r' =
      (r'.inner ≡ restore p.snapshot r.inner) × (lookup r.path r'.files ≡ some bytes)

  abbrev Refused : FileStore host.Data → FileStore host.Data → Type 0
  Refused r r' = (r'.inner ≡ r.inner) × OldOrNone host r (lookup r.path r'.files)

  weakened :
      (bytes : host.Data) (p : PersistedSnapshot) (r : FileStore host.Data)
      (x : Result (Unit {0}) × FileStore host.Data)
      → Post (λ _. Replicated bytes p r) (Failed host r) x
      → Post (λ _. Replicated bytes p r) (Refused r) x
  weakened bytes p r (ok _, r') h = h
  weakened bytes p r (err _, r') (_, i, _, _, _, _, f) = (i, f)

  write_then_take_over :
      (bytes : host.Data) (p : PersistedSnapshot) (r : FileStore host.Data)
      → Fresh host r
      → Post (λ _. Replicated bytes p r) (Failed host r) (replicated host bytes (ok p) r)
  write_then_take_over bytes p r fresh =
      (Triple-bind (write_snapshot_file-Triple host r bytes p.saved_at fresh)
          (λ _. record { holds = λ s (a, b, c, d, e, f, g). (ap (restore p.snapshot) b, g) })).holds
        r (refl, refl, refl, refl, refl, refl, refl)

  replicated_lem :
      (bytes : host.Data) (p : PersistedSnapshot) (r : FileStore host.Data)
      → Fresh host r
      → Post (λ _. Replicated bytes p r) (Refused r) (replicated host bytes (ok p) r)
  replicated_lem bytes p r fresh =
      weakened bytes p r (replicated host bytes (ok p) r) (write_then_take_over bytes p r fresh)

  on_success :
      (Q E : FileStore host.Data → Type 0) (x : Result (Unit {0}) × FileStore host.Data)
      → Post (λ _. Q) E x
      → x.0 ≡ ok tt
      → Q x.1
  on_success Q E (ok _, r') h e = h
  on_success Q E (err _, r') h e = absurd (ground arith)

  module _ (s : FileStore host.Data) (t : Store) (r : FileStore host.Data) (bytes : host.Data) where
    -- The bytes that the hook was handed are those of the state `t`.
    handed_lem :
        (s' : FileStore host.Data)
        → Committed host t s s'
        → s.after_persist ≡ true
        → s'.handed ≡ bytes ∷ s.handed
        → host.encode (to_persist host (record s { inner = t })) ≡ ok bytes
    handed_lem s' (_, _, _, _, (b, e, _, d)) hook h = ground (arith, e, d, h, hook)

    abbrev TakenOver : Result PersistedSnapshot → Type 0
    TakenOver d =
        ((replicated host bytes d r).1.inner ≡ sorted_groups t)
        × (lookup r.path (replicated host bytes d r).1.files ≡ some bytes)

    taken :
        (p : PersistedSnapshot) (d : Result PersistedSnapshot)
        → Fresh host r
        → restore p.snapshot r.inner ≡ sorted_groups t
        → d ≡ ok p
        → (replicated host bytes d r).0 ≡ ok tt
        → TakenOver d
    taken p d fr restored e =
        subst⁻¹ (λ d. (replicated host bytes d r).0 ≡ ok tt → TakenOver d) e
          λ done.
            let (i, f) =
              on_success (Replicated bytes p r) (Refused r) (replicated host bytes (ok p) r)
                (replicated_lem bytes p r fr) done in
            (i ∙ restored, f)

    -- A replica that takes over what the hook was handed has the state of the primary, with the
    -- device list of each group sorted, and the same bytes in its file. The JSON of the state must
    -- decode to it, the temporary files must be new, and the retentions positive.
    pub apply_replica_snapshot-mutate :
        {A : Type 0} (apply : Store → Result (A × Store)) (a : A)
        → apply s.inner ≡ ok (a, t)
        → (mutate host apply s).0 ≡ ok a
        → s.after_persist ≡ true
        → (mutate host apply s).1.handed ≡ bytes ∷ s.handed
        → (apply_replica_snapshot host bytes r).0 ≡ ok tt
        → Readable host s t
        → Fresh host s
        → Fresh host r
        → 0 < s.inner.telemetry_retention
        → 0 < s.inner.alert_retention
        → 0 < t.telemetry_retention
        → 0 < t.alert_retention
        → ((apply_replica_snapshot host bytes r).1.inner ≡ sorted_groups t)
          × (lookup r.path (apply_replica_snapshot host bytes r).1.files ≡ some bytes)
    unfolding apply_replica_snapshot
    apply_replica_snapshot-mutate apply a q ok_s hook h ok_r readable fs fr p₁ p₂ h₁ h₂ =
        taken (to_persist host (record s { inner = t })) (host.decode bytes) fr
          (restore-snapshot t r.inner h₁ h₂)
          (readable bytes (
            handed_lem (mutate host apply s).1
              (committed_lem host s t apply a _ q (mutate-Outcome host apply s p₁ p₂ fs) ok_s) hook
              h))
          ok_r
