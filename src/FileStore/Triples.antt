-- ===== src/FileStore/Triples.antt =====
-- Rules for the steps of the file store: what holds before a step, after it succeeds, and after it
-- fails.
use getdata.Base.{◌+◌, Option, none, some, Result, ok, err, Error}
use getdata.Base.Dict.{Dict}
use getdata.FileStore.{
  Host, FileStore, Step, ◌>>=◌, continue, pure, on_error, settle, ignore, answered, system,
}

module _ {Data : Type 0} where
  abbrev pub Post :
      {A : Type 0}
      → (A → FileStore Data → Type 0)
      → (FileStore Data → Type 0)
      → Result A × FileStore Data
      → Type 0
  Post Q E (ok a, s) = Q a s
  Post Q E (err e, s) = E s

  pub record Triple {A : Type 0} (P : FileStore Data → Type 0) (m : Step Data A)
      (Q : A → FileStore Data → Type 0) (E : FileStore Data → Type 0) : Type 0 where
    pub holds : (s : FileStore Data) → P s → Post Q E (m s)

  continue_holds :
      {A B : Type 0} {Q : A → FileStore Data → Type 0} {R : B → FileStore Data → Type 0}
      {E : FileStore Data → Type 0} (r : Result A) (f : A → Step Data B) (s : FileStore Data)
      → ((a : A) → Triple (Q a) (f a) R E)
      → Post Q E (r, s)
      → Post R E (continue r f s)
  continue_holds (ok a) f s k p = (k a).holds s p
  continue_holds (err e) f s k p = p

  pub Triple-bind :
      {A B : Type 0} {P : FileStore Data → Type 0} {Q : A → FileStore Data → Type 0}
      {R : B → FileStore Data → Type 0} {E : FileStore Data → Type 0} {m : Step Data A}
      {f : A → Step Data B}
      → Triple P m Q E
      → ((a : A) → Triple (Q a) (f a) R E)
      → Triple P (m >>= f) R E
  unfolding ◌>>=◌
  Triple-bind {m} {f} h k = record {
    holds = λ s p. continue_holds (m s).0 f (m s).1 k (h.holds s p);
  }

  abbrev either :
      (F : FileStore Data → Type 0) (x : Result (Unit {0}) × FileStore Data)
      → Post (λ _. F) F x
      → F x.1
  either F (ok _, s) p = p
  either F (err _, s) p = p

  settle_holds :
      {A : Type 0} (Q : A → FileStore Data → Type 0) {E F : FileStore Data → Type 0} (r : Result A)
      (cleanup : Step Data (Unit {0})) (s : FileStore Data)
      → Triple E cleanup (λ _. F) F
      → Post Q E (r, s)
      → Post Q F (settle r cleanup s)
  settle_holds Q (ok a) cleanup s k p = p
  settle_holds Q {F} (err e) cleanup s k p = either F (cleanup s) (k.holds s p)

  pub Triple-on_error :
      {A : Type 0} {P : FileStore Data → Type 0} {Q : A → FileStore Data → Type 0}
      {E F : FileStore Data → Type 0} {m : Step Data A} {cleanup : Step Data (Unit {0})}
      → Triple P m Q E
      → Triple E cleanup (λ _. F) F
      → Triple P (on_error m cleanup) Q F
  unfolding on_error
  Triple-on_error {Q} {m} {cleanup} h k = record {
    holds = λ s p. settle_holds Q (m s).0 cleanup (m s).1 k (h.holds s p);
  }

  pub Triple-ignore :
      {P Q E : FileStore Data → Type 0} {m : Step Data (Unit {0})}
      → Triple P m (λ _. Q) Q
      → Triple P (ignore m) (λ _. Q) E
  unfolding ignore
  Triple-ignore {Q} {m} h = record { holds = λ s p. either Q (m s) (h.holds s p) }

  pub Triple-pure :
      {A : Type 0} {Q : A → FileStore Data → Type 0} {E : FileStore Data → Type 0} (a : A)
      → Triple (Q a) (pure a) Q E
  unfolding pure
  Triple-pure a = record { holds = λ s p. p }

  -- A fact that no step changes.
  pub Triple-given :
      {A : Type 0} {P : FileStore Data → Type 0} {Q : A → FileStore Data → Type 0}
      {E : FileStore Data → Type 0} {H : Type 0} {m : Step Data A}
      → (H → Triple P m Q E)
      → Triple (λ s. P s × H) m Q E
  Triple-given k = record { holds = λ s (p, h). (k h).holds s p }

  -- A step that looks at the state first.
  pub Triple-read :
      {A : Type 0} {P : FileStore Data → Type 0} {Q : A → FileStore Data → Type 0}
      {E : FileStore Data → Type 0} (f : FileStore Data → Step Data A)
      → ((s : FileStore Data) → Triple P (f s) Q E)
      → Triple P (λ s. f s s) Q E
  Triple-read f h = record { holds = λ s p. (h s).holds s p }

module _ (host : Host) (done failed : Dict host.Data → Dict host.Data) where
  answered_holds :
      (Q E : FileStore host.Data → Type 0) (answer : Option Error) (s : FileStore host.Data)
      → Q (record s { files = done s.files; calls = s.calls + 1 })
      → E (record s { files = failed s.files; calls = s.calls + 1 })
      → Post (λ _. Q) E (answered host done failed answer s)
  answered_holds Q E none s q e = q
  answered_holds Q E (some _) s q e = e

  -- A call of the operating system does one of two things to the files.
  pub Triple-system :
      {P Q E : FileStore host.Data → Type 0}
      → ((s : FileStore host.Data)
          → P s
          → Q (record s { files = done s.files; calls = s.calls + 1 }))
      → ((s : FileStore host.Data)
          → P s
          → E (record s { files = failed s.files; calls = s.calls + 1 }))
      → Triple P (system host done failed) (λ _. Q) E
  unfolding system
  Triple-system {Q} {E} h k = record {
    holds = λ s p. answered_holds Q E (host.fault s.calls) s (h s p) (k s p);
  }
