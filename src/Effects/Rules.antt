-- ===== src/Effects/Rules.antt =====
-- Properties of every run of an action: of the world before it, the world after it and its events.
-- One rule for each way to build an action.
use matrix_identity_admin.Prelude.{List, [], ◌++◌, Bool, true, false, if◌then◌else◌}
use matrix_identity_admin.Models.Error.{Result, ok, err}
use matrix_identity_admin.Effects.Event.{Event}
use matrix_identity_admin.Effects.Exec.{World, Exec, pure, ◌>>=◌, or_return, try_then}

-- A property that holds of no change and passes from two runs to their sequence.
pub record Trace (W : Type 0) : Type 1 where
  pub Valid : World W → World W → List Event → Type 0
  pub empty : (w : World W) → Valid w w []
  pub append :
      (a b c : World W) (xs ys : List Event) → Valid a b xs → Valid b c ys → Valid a c (xs ++ ys)

pub record Holds {W A : Type 0} (T : Trace W) (m : Exec W A) : Type 0 where
  pub at : (w : World W) → T.Valid w (m w).world (m w).events

module _ {W : Type 0} (T : Trace W) {A : Type 0} where
  pub Holds-pure : (a : A) → Holds T (pure a)
  Holds-pure a = record { at = λ w. T.empty w }

module _ {W : Type 0} (T : Trace W) {A B : Type 0} where
  pub Holds-bind :
      (m : Exec W A) (f : A → Exec W B) → Holds T m → ((a : A) → Holds T (f a)) → Holds T (m >>= f)
  unfolding ◌>>=◌
  Holds-bind m f hm hf = record {
    at = λ w.
        T.append w (m w).world (f (m w).value (m w).world).world (m w).events
          (f (m w).value (m w).world).events (hm.at w) ((hf (m w).value).at (m w).world);
  }

  pub Holds-or_return :
      (f : A → Exec W (Result B)) (r : Result A)
      → ((a : A) → Holds T (f a))
      → Holds T (or_return f r)
  unfolding or_return
  Holds-or_return f (ok a) hf = hf a
  Holds-or_return f (err e) hf = record { at = λ w. T.empty w }

module _ {W : Type 0} (T : Trace W) {A B : Type 0} where
  pub Holds-try_then :
      (m : Exec W (Result A)) (f : A → Exec W (Result B))
      → Holds T m
      → ((a : A) → Holds T (f a))
      → Holds T (try_then m f)
  Holds-try_then m f hm hf = Holds-bind T m (or_return f) hm (λ r. Holds-or_return T f r hf)

module _ {W : Type 0} (T : Trace W) {A : Type 0} where
  pub Holds-if : (b : Bool) (m n : Exec W A) → Holds T m → Holds T n → Holds T (if b then m else n)
  Holds-if true m n hm hn = hm
  Holds-if false m n hm hn = hn
