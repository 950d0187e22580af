-- ===== src/Reconcile/Joins.antt =====
-- The rooms that a run joins a user to, in their order.
use matrix_identity_admin.Prelude.{
  List, [], ◌∷◌, ◌++◌, append-nil, append_assoc, true, false, ◌≡◌, refl, sym, ap, ◌∙◌, Bool,
  if◌then◌else◌,
}
use matrix_identity_admin.Text.{Text}
use matrix_identity_admin.Effects.Event.{Op, Event, Kind, kind}
use matrix_identity_admin.Effects.Exec.{World, Exec, pure, call_if, ◌>>=◌}
use matrix_identity_admin.Effects.Rules.{Trace}
use matrix_identity_admin.AuditService.{AuditService, Actor, log, insert}
use matrix_identity_admin.Lifecycle.{Subject, log_result}
use matrix_identity_admin.Lifecycle.Observes.{Observes}

abbrev pub join_room : Op → List Text
join_room (Op.force_join_user user room) = room ∷ []
join_room _ = []

-- The rooms of the join calls, whether they succeeded or not.
abbrev pub joins_of : List Event → List Text
joins_of [] = []
joins_of (e ∷ es) = join_room e.op ++ joins_of es

pub joins_of-append : (xs ys : List Event) → joins_of (xs ++ ys) ≡ joins_of xs ++ joins_of ys
joins_of-append [] ys = refl
joins_of-append (x ∷ xs) ys =
    ap (λ t. join_room x.op ++ t) (joins_of-append xs ys)
    ∙ sym (append_assoc (join_room x.op) (joins_of xs) (joins_of ys))

pub record Joins {W A : Type 0} (rooms : List Text) (m : Exec W A) : Type 0 where
  pub at : (w : World W) → joins_of (m w).events ≡ rooms

module _ {W A : Type 0} where
  pub Joins-pure : (a : A) → Joins [] (pure {W = W} a)
  Joins-pure a = record { at = λ w. refl }

  pub Joins-call :
      (op : Op) (good : A → Bool) (f : W → A × W) → Joins (join_room op) (call_if op good f)
  Joins-call op good f = record { at = λ w. append-nil (join_room op) }

  pub Joins-if :
      (xs : List Text) (b : Bool) (m n : Exec W A)
      → Joins xs m
      → Joins xs n
      → Joins xs (if b then m else n)
  Joins-if xs true m n hm hn = hm
  Joins-if xs false m n hm hn = hn

module _ {W A B : Type 0} where
  pub Joins-bind :
      (xs ys : List Text) (m : Exec W A) (f : A → Exec W B)
      → Joins xs m
      → ((a : A) → Joins ys (f a))
      → Joins (xs ++ ys) (m >>= f)
  unfolding ◌>>=◌
  Joins-bind xs ys m f hm hf = record {
    at = λ w.
        joins_of-append (m w).events (f (m w).value (m w).world).events
        ∙ ap (λ t. t ++ joins_of (f (m w).value (m w).world).events) (hm.at w)
        ∙ ap (λ t. xs ++ t) ((hf (m w).value).at (m w).world);
  }

  -- An action whose value is known.
  pub Joins-known :
      (xs ys : List Text) (a : A) (m : Exec W A) (f : A → Exec W B)
      → ((w : World W) → (m w).value ≡ a)
      → Joins xs m
      → Joins ys (f a)
      → Joins (xs ++ ys) (m >>= f)
  unfolding ◌>>=◌
  Joins-known xs ys a m f known hm hf = record {
    at = λ w.
        joins_of-append (m w).events (f (m w).value (m w).world).events
        ∙ ap (λ t. t ++ joins_of (f (m w).value (m w).world).events) (hm.at w)
        ∙ ap (λ v. xs ++ joins_of (f v (m w).world).events) (known w)
        ∙ ap (λ t. xs ++ t) (hf.at (m w).world);
  }

abbrev pub no_join : Kind → Bool
no_join Kind.join = false
no_join _ = true

join_room_none : (op : Op) → no_join (kind op) ≡ true → join_room op ≡ []
join_room_none (Op.force_join_user user room) h = cc
join_room_none _ h = refl

abbrev pub JoinlessTrace : (W : Type 0) → Trace W
JoinlessTrace W = record {
  Valid = λ a b es. joins_of es ≡ [];
  empty = λ w. refl;
  append = λ a b c xs ys h k. joins_of-append xs ys ∙ ap (λ t. t ++ joins_of ys) h ∙ k;
}

nil_first : (xs ys : List Text) → xs ≡ [] → ys ≡ [] → xs ++ ys ≡ []
nil_first xs ys h k = ap (λ t. t ++ ys) h ∙ k

pub Joinless-Observes :
    {W : Type 0} (audit : AuditService W) (who : Actor) (user : Subject)
    → Observes (JoinlessTrace W) audit who user no_join
unfolding log_result log insert ◌>>=◌
Joinless-Observes audit who user = record {
  plain = λ A op good f _ h. record { at = λ w. append-nil (join_room op) ∙ join_room_none op h };
  logged = λ A B op f action metadata k _ h hk. record {
    at = λ w. nil_first _ _ (join_room_none op h) ((hk _ _).at _);
  };
}
