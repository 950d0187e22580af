-- ===== src/Effects/Reports.antt =====
-- Actions whose result tells whether every call succeeded. `Reports good before m`: what `good`
-- says of the result is that `before` holds and that all events of the run succeeded.
use mathlib.Core.Bool.{and-true, and-false}
use matrix_identity_admin.Prelude.{
  List, Bool, true, false, ◌&&◌, ◌≡◌, sym, ◌∙◌, ap, all-append, arith, if◌then◌else◌, ◌++◌,
}
use matrix_identity_admin.Models.Error.{AppError, Result, ok, err, is_ok}
use matrix_identity_admin.Effects.Event.{Op, Event, all_ok}
use matrix_identity_admin.Effects.Exec.{World, Exec, pure, call_if, ◌>>=◌, or_return, try_then}

pub record Reports {W A : Type 0} (good : A → Bool) (before : Bool) (m : Exec W A) : Type 0 where
  pub at : (w : World W) → good (m w).value ≡ (before && all_ok (m w).events)

all_ok-append : (xs ys : List Event) → all_ok (xs ++ ys) ≡ (all_ok xs && all_ok ys)
all_ok-append xs ys = all-append (λ e. e.succeeded) xs ys

chain : (a b c p q pq : Bool) → b ≡ (a && p) → c ≡ (b && q) → pq ≡ (p && q) → c ≡ (a && pq)
chain a b c p q pq h k e = ground arith

module _ {W A : Type 0} where
  pub Reports-pure :
      (good : A → Bool) (before : Bool) (a : A)
      → good a ≡ before
      → Reports good before (pure {W = W} a)
  Reports-pure good before a h = record { at = λ w. h ∙ sym (and-true before) }

  pub Reports-if :
      (good : A → Bool) (before b : Bool) (m n : Exec W A)
      → Reports good before m
      → Reports good before n
      → Reports good before (if b then m else n)
  Reports-if good before true m n hm hn = hm
  Reports-if good before false m n hm hn = hn

  pub Reports-from :
      (good : A → Bool) (before before' : Bool) (m : Exec W A)
      → before ≡ before'
      → Reports good before m
      → Reports good before' m
  Reports-from good before before' m e h = record {
    at = λ w. h.at w ∙ ap (λ b. b && all_ok (m w).events) e;
  }

  -- A call, whose own success is added to what held before.
  pub Reports-call_if :
      (before : Bool) (op : Op) (good : A → Bool) (f : W → A × W)
      → Reports (λ a. before && good a) before (call_if op good f)
  Reports-call_if before op good f = record {
    at = λ w. ap (λ b. before && b) (sym (and-true (good (f w.upstream).0)));
  }

module _ {W A B : Type 0} where
  pub Reports-bind :
      (mid : A → Bool) (good : B → Bool) (before : Bool) (m : Exec W A) (f : A → Exec W B)
      → Reports mid before m
      → ((a : A) → Reports good (mid a) (f a))
      → Reports good before (m >>= f)
  unfolding ◌>>=◌
  Reports-bind mid good before m f hm hf = record {
    at = λ w.
        let r = m w in
        let s = f r.value r.world in
        chain before (mid r.value) (good s.value) (all_ok r.events) (all_ok s.events)
          (all_ok (r.events ++ s.events)) (hm.at w) ((hf r.value).at r.world)
          (all_ok-append r.events s.events);
  }

  pub Reports-or_return :
      (good : Result B → Bool) (before : Bool) (f : A → Exec W (Result B)) (r : Result A)
      → ((a : A) → Reports good before (f a))
      → ((e : AppError) → good (err e) ≡ false)
      → Reports good (before && is_ok r) (or_return f r)
  unfolding or_return
  Reports-or_return good before f (ok a) hf he =
      Reports-from good before (before && true) (f a) (sym (and-true before)) (hf a)
  Reports-or_return good before f (err e) hf he =
      Reports-pure good (before && false) (err e) (he e ∙ sym (and-false before))

module _ {W A B : Type 0} where
  pub Reports-try_then :
      (good : Result B → Bool) (before : Bool) (m : Exec W (Result A)) (f : A → Exec W (Result B))
      → Reports (λ r. before && is_ok r) before m
      → ((a : A) → Reports good before (f a))
      → ((e : AppError) → good (err e) ≡ false)
      → Reports good before (try_then m f)
  Reports-try_then good before m f hm hf he =
      Reports-bind (λ r. before && is_ok r) good before m (or_return f) hm
        (λ r. Reports-or_return good before f r hf he)
