-- ===== src/Core/State/Preserves.antt =====
-- Invariants of operations: one rule for each way to build an operation.
use getdata.Base.{◌≡◌, refl, Bool, true, false, if◌then◌else◌, Result, ok, err, Error}
use getdata.Store.{Store}
use getdata.Core.State.{
  Service, Action, continue, ◌>>=◌, pure, fail, lift, query, gets, modify, write, update, stored,
  commit, committed, attempt,
}

-- The operation keeps `P`, whether it succeeds or fails.
pub record Preserves {A : Type 0} (P : Service → Type 0) (m : Action A) : Type 0 where
  pub holds : (s : Service) → P s → P (m s).1

stored_keeps :
    (P : Service → Type 0) (r : Result Store) (s : Service)
    → ((t : Store) → r ≡ ok t → P (record s { store = t }))
    → P s
    → P (stored r s).1
unfolding stored
stored_keeps P (ok t) s h p = h t refl
stored_keeps P (err e) s h p = p

committed_keeps :
    {A : Type 0} (P : Service → Type 0) (r : Result (A × Store)) (s : Service)
    → ((a : A) (t : Store) → r ≡ ok (a, t) → P (record s { store = t }))
    → P s
    → P (committed r s).1
unfolding committed
committed_keeps P (ok (a, t)) s h p = h a t refl
committed_keeps P (err e) s h p = p

module _ {P : Service → Type 0} where
  continue_keeps :
      {A B : Type 0} (r : Result A) (f : A → Action B) (s : Service)
      → ((a : A) → Preserves P (f a))
      → P s
      → P (continue r f s).1
  continue_keeps (ok a) f s k p = (k a).holds s p
  continue_keeps (err e) f s k p = p

  pub Preserves-bind :
      {A B : Type 0} (m : Action A) (f : A → Action B)
      → Preserves P m
      → ((a : A) → Preserves P (f a))
      → Preserves P (m >>= f)
  unfolding ◌>>=◌
  Preserves-bind m f first later = record {
    holds = λ s p. continue_keeps (m s).0 f (m s).1 later (first.holds s p);
  }

  pub Preserves-pure : {A : Type 0} (a : A) → Preserves P (pure a)
  unfolding pure
  Preserves-pure a = record { holds = λ s p. p }

  pub Preserves-fail : {A : Type 0} (e : Error) → Preserves P (fail {A = A} e)
  unfolding fail
  Preserves-fail e = record { holds = λ s p. p }

  pub Preserves-lift : {A : Type 0} (r : Result A) → Preserves P (lift r)
  unfolding lift
  Preserves-lift r = record { holds = λ s p. p }

  pub Preserves-query : {A : Type 0} (f : Store → Result A) → Preserves P (query f)
  unfolding query
  Preserves-query f = record { holds = λ s p. p }

  pub Preserves-gets : {A : Type 0} (f : Service → A) → Preserves P (gets f)
  unfolding gets
  Preserves-gets f = record { holds = λ s p. p }

  pub Preserves-attempt : {A : Type 0} (m : Action A) → Preserves P m → Preserves P (attempt m)
  unfolding attempt
  Preserves-attempt m k = record { holds = λ s p. k.holds s p }

  pub Preserves-if :
      {A : Type 0} (b : Bool) (m n : Action A)
      → Preserves P m
      → Preserves P n
      → Preserves P (if b then m else n)
  Preserves-if true m n left right = left
  Preserves-if false m n left right = right

  pub Preserves-modify :
      (f : Service → Service) → ((s : Service) → P s → P (f s)) → Preserves P (modify f)
  unfolding modify
  Preserves-modify f h = record { holds = h }

  pub Preserves-write :
      (f : Store → Store)
      → ((s : Service) → P s → P (record s { store = f s.store }))
      → Preserves P (write f)
  unfolding write
  Preserves-write f h = record { holds = h }

  pub Preserves-update :
      (f : Store → Result Store)
      → ((s : Service) (t : Store) → f s.store ≡ ok t → P s → P (record s { store = t }))
      → Preserves P (update f)
  unfolding update
  Preserves-update f h = record { holds = λ s p. stored_keeps P (f s.store) s (λ t e. h s t e p) p }

  pub Preserves-commit :
      {A : Type 0} (f : Store → Result (A × Store))
      → ((s : Service) (a : A) (t : Store)
          → f s.store ≡ ok (a, t)
          → P s
          → P (record s { store = t }))
      → Preserves P (commit f)
  unfolding commit
  Preserves-commit f h = record {
    holds = λ s p. committed_keeps P (f s.store) s (λ a t e. h s a t e p) p;
  }

pub ruleset preserve_rules = (
  Preserves-bind, Preserves-pure, Preserves-fail, Preserves-lift, Preserves-query, Preserves-gets,
  Preserves-attempt, Preserves-if,
)
