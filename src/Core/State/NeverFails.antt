-- ===== src/Core/State/NeverFails.antt =====
-- Operations that return a value from every state.
use getdata.Base.{String, ◌≡◌, refl, Bool, true, false, if◌then◌else◌, Result, ok}
use getdata.Model.{ServerMessage}
use getdata.Store.{Store}
use getdata.Core.State.{
  Env, Service, Action, continue, ◌>>=◌, pure, gets, modify, write, attempt, new_id, Session,
  read_clock, deliver,
}

pub record NeverFails {A : Type 0} (m : Action A) : Type 0 where
  pub returns : (s : Service) → (a : A) × ((m s).0 ≡ ok a)

continue_returns :
    {A B : Type 0} (r : Result A) (a : A) (f : A → Action B) (s : Service)
    → r ≡ ok a
    → (b : B) × ((f a s).0 ≡ ok b)
    → (b : B) × ((continue r f s).0 ≡ ok b)
continue_returns r a f s e (b, h) = (b, rw e h)

pub NeverFails-bind :
    {A B : Type 0} (m : Action A) (f : A → Action B)
    → NeverFails m
    → ((a : A) → NeverFails (f a))
    → NeverFails (m >>= f)
unfolding ◌>>=◌
NeverFails-bind m f first later = record {
  returns = λ s.
      let (a, e) = first.returns s in
      continue_returns (m s).0 a f (m s).1 e ((later a).returns (m s).1);
}

pub NeverFails-pure : {A : Type 0} (a : A) → NeverFails (pure a)
unfolding pure
NeverFails-pure a = record { returns = λ s. (a, refl) }

pub NeverFails-gets : {A : Type 0} (f : Service → A) → NeverFails (gets f)
unfolding gets
NeverFails-gets f = record { returns = λ s. (f s, refl) }

pub NeverFails-modify : (f : Service → Service) → NeverFails (modify f)
unfolding modify
NeverFails-modify f = record { returns = λ s. (tt, refl) }

pub NeverFails-write : (f : Store → Store) → NeverFails (write f)
unfolding write
NeverFails-write f = record { returns = λ s. (tt, refl) }

pub NeverFails-attempt : {A : Type 0} (m : Action A) → NeverFails (attempt m)
unfolding attempt
NeverFails-attempt m = record { returns = λ s. ((m s).0, refl) }

pub NeverFails-new_id : (env : Env) (prefix : String) → NeverFails (new_id env prefix)
unfolding new_id
NeverFails-new_id env prefix = record { returns = λ s. (_, refl) }

pub NeverFails-if :
    {A : Type 0} (b : Bool) (m n : Action A)
    → NeverFails m
    → NeverFails n
    → NeverFails (if b then m else n)
NeverFails-if true m n left right = left
NeverFails-if false m n left right = right

pub NeverFails-clock : (env : Env) → NeverFails (read_clock env)
unfolding read_clock
NeverFails-clock env = record { returns = λ s. (_, refl) }

pub NeverFails-deliver :
    (env : Env) (session : Session) (m : ServerMessage) → NeverFails (deliver env session m)
unfolding deliver
NeverFails-deliver env session m = record { returns = λ s. (_, refl) }

-- Operations that return one given value from every state.
pub record Yields {A : Type 0} (a : A) (m : Action A) : Type 0 where
  pub yields : (s : Service) → (m s).0 ≡ ok a

pub Yields-pure : {A : Type 0} (a : A) → Yields a (pure a)
unfolding pure
Yields-pure a = record { yields = λ s. refl }

continue_yields :
    {A B : Type 0} (r : Result A) (a : A) (b : B) (f : A → Action B) (s : Service)
    → r ≡ ok a
    → (f a s).0 ≡ ok b
    → (continue r f s).0 ≡ ok b
continue_yields r a b f s e h = rw e h

pub Yields-bind :
    {A B : Type 0} (b : B) (m : Action A) (f : A → Action B)
    → NeverFails m
    → ((a : A) → Yields b (f a))
    → Yields b (m >>= f)
unfolding ◌>>=◌
Yields-bind b m f first later = record {
  yields = λ s.
      let (a, e) = first.returns s in
      continue_yields (m s).0 a b f (m s).1 e ((later a).yields (m s).1);
}

pub ruleset returns_rules = (
  NeverFails-bind, NeverFails-pure, NeverFails-gets, NeverFails-modify, NeverFails-write,
  NeverFails-attempt, NeverFails-new_id, NeverFails-if, NeverFails-clock, NeverFails-deliver,
)
