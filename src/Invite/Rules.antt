-- ===== src/Invite/Rules.antt =====
-- Actions whose result tells whether the invitation was sent, and actions that decide nothing.
use matrix_identity_admin.Prelude.{
  List, ◌++◌, append-nil, Bool, true, false, not, ◌&&◌, any, any-append, ◌≡◌, ◌∙◌, arith,
  if◌then◌else◌,
}
use matrix_identity_admin.Models.Error.{Result, ok, err, is_ok}
use matrix_identity_admin.Effects.Event.{Event, Kind, kind}
use matrix_identity_admin.Effects.Exec.{World, Exec, pure, or_return, try_then, ◌>>=◌}

abbrev pub of_audit : Kind → Bool
of_audit Kind.audit = true
of_audit _ = false

-- Some operation of a sort succeeded, or failed.
abbrev pub some_ok : (Kind → Bool) → List Event → Bool
some_ok sort = any (λ e. sort (kind e.op) && e.succeeded)

abbrev pub some_failed : (Kind → Bool) → List Event → Bool
some_failed sort = any (λ e. sort (kind e.op) && not e.succeeded)

abbrev pub of_invitation : Kind → Bool
of_invitation Kind.invitation = true
of_invitation _ = false

-- The mail was sent, and no write of an audit entry failed.
abbrev pub sent : List Event → Bool
sent es = some_ok of_invitation es && not (some_failed of_audit es)

-- No mail, and no failed write of an audit entry unless the result is an error.
abbrev pub Quiet : Bool → List Event → Type 0
Quiet good es = (some_ok of_invitation es ≡ false) × ((good && some_failed of_audit es) ≡ false)

pub record Fatal {W A : Type 0} (good : A → Bool) (m : Exec W A) : Type 0 where
  pub at : (w : World W) → Quiet (good (m w).value) (m w).events

pub record Ends {W A : Type 0} (m : Exec W (Result A)) : Type 0 where
  pub at : (w : World W) → is_ok (m w).value ≡ sent (m w).events

sent-append :
    (xs ys : List Event)
    → some_ok of_invitation xs ≡ false
    → some_failed of_audit xs ≡ false
    → sent ys ≡ sent (xs ++ ys)
sent-append xs ys h k = ground (
  arith,
  h,
  k,
  any-append (λ e. of_invitation (kind e.op) && e.succeeded) xs ys,
  any-append (λ e. of_audit (kind e.op) && not e.succeeded) xs ys,
)

Quiet-append :
    (good : Bool) (xs ys : List Event) → Quiet true xs → Quiet good ys → Quiet good (xs ++ ys)
Quiet-append good xs ys h k = (
  ground (arith, h.0, k.0, any-append (λ e. of_invitation (kind e.op) && e.succeeded) xs ys),
  ground (arith, h.1, k.1, any-append (λ e. of_audit (kind e.op) && not e.succeeded) xs ys),
)

abbrev pub always : {A : Type 0} → A → Bool
always a = true

module _ {W A : Type 0} where
  pub Fatal-pure : (good : A → Bool) (a : A) → Fatal good (pure {W = W} a)
  Fatal-pure good a = record { at = λ w. ground arith }

  pub Fatal-if :
      (good : A → Bool) (b : Bool) (m n : Exec W A)
      → Fatal good m
      → Fatal good n
      → Fatal good (if b then m else n)
  Fatal-if good true m n hm hn = hm
  Fatal-if good false m n hm hn = hn

module _ {W A B : Type 0} where
  pub Fatal-bind :
      (good : B → Bool) (m : Exec W A) (f : A → Exec W B)
      → Fatal always m
      → ((a : A) → Fatal good (f a))
      → Fatal good (m >>= f)
  unfolding ◌>>=◌
  Fatal-bind good m f hm hf = record {
    at = λ w.
        Quiet-append _ (m w).events (f (m w).value (m w).world).events (hm.at w)
          ((hf (m w).value).at (m w).world);
  }

  pub Ends-bind :
      (m : Exec W A) (f : A → Exec W (Result B))
      → Fatal always m
      → ((a : A) → Ends (f a))
      → Ends (m >>= f)
  unfolding ◌>>=◌
  Ends-bind m f hm hf = record {
    at = λ w.
        (hf (m w).value).at (m w).world
        ∙ sent-append (m w).events (f (m w).value (m w).world).events (hm.at w).0 (hm.at w).1;
  }

  pub Ends-after :
      (f : A → Exec W (Result B)) (r : Result A) (xs : List Event) (v : World W)
      → Quiet (is_ok r) xs
      → ((a : A) → Ends (f a))
      → is_ok (or_return f r v).value ≡ sent (xs ++ (or_return f r v).events)
  unfolding or_return
  Ends-after f (ok a) xs v q hf = (hf a).at v ∙ sent-append xs (f a v).events q.0 q.1
  Ends-after f (err e) xs v q hf = ground (arith, q.0, append-nil xs)

  pub Ends-try_then :
      (m : Exec W (Result A)) (f : A → Exec W (Result B))
      → Fatal is_ok m
      → ((a : A) → Ends (f a))
      → Ends (try_then m f)
  unfolding ◌>>=◌
  Ends-try_then m f hm hf = record {
    at = λ w. Ends-after f (m w).value (m w).events (m w).world (hm.at w) hf;
  }
