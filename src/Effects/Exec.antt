-- ===== src/Effects/Exec.antt =====
-- An action reads and changes the world, returns a value, and lists the events in their order.
use matrix_identity_admin.Prelude.{List, [], ◌∷◌, ◌++◌, Bool}
use matrix_identity_admin.Models.Error.{Result, ok, err, is_ok}
use matrix_identity_admin.Effects.Database.{Database}
use matrix_identity_admin.Effects.Event.{Op, Event, event}

-- `upstream` is whatever the services and the environment keep; the program cannot look inside.
pub record World (W : Type 0) : Type 0 where
  pub upstream : W
  pub db : Database

pub record Run (W : Type 0) (A : Type 0) : Type 0 where
  pub value : A
  pub world : World W
  pub events : List Event

abbrev pub Exec : Type 0 → Type 0 → Type 0
Exec W A = World W → Run W A

module _ {W A : Type 0} where
  abbrev pub pure : A → Exec W A
  pure a w = record { value = a; world = w; events = [] }

  -- An answer of the environment that is no call of a service: a fresh id, the time.
  abbrev pub ask : (W → A × W) → Exec W A
  ask f w =
      let (a, u) = f w.upstream in
      record { value = a; world = record w { upstream = u }; events = [] }

  -- A call of a service; `good` says of its answer whether it succeeded completely.
  abbrev pub call_if : Op → (A → Bool) → (W → A × W) → Exec W A
  call_if op good f w =
      let (a, u) = f w.upstream in
      record { value = a; world = record w { upstream = u }; events = event op (good a) ∷ [] }

module _ {W A B : Type 0} where
  infixl 5 ◌>>=◌ ◌>>◌
  unfoldable pub ◌>>=◌ : Exec W A → (A → Exec W B) → Exec W B
  ◌>>=◌ m f w =
      let r = m w in
      let s = f r.value r.world in
      record { value = s.value; world = s.world; events = r.events ++ s.events }

  abbrev pub ◌>>◌ : Exec W A → Exec W B → Exec W B
  m >> k = m >>= λ _. k

  -- What follows `?`: an error is returned at once.
  unfoldable pub or_return : (A → Exec W (Result B)) → Result A → Exec W (Result B)
  or_return f (ok a) = f a
  or_return f (err e) = pure (err e)

-- `let a = m.await?; f(a)`
abbrev pub try_then :
    {W A B : Type 0} → Exec W (Result A) → (A → Exec W (Result B)) → Exec W (Result B)
try_then m f = m >>= or_return f

abbrev pub call : {W A : Type 0} → Op → (W → Result A × W) → Exec W (Result A)
call op f = call_if op is_ok f
