-- ===== src/AuditQueries/Ordered.antt =====
-- src/db/audit.rs: ORDER BY timestamp DESC. It leaves one order only if no two timestamps agree.
use mathlib.Core.List.{mem-cons, mem-cons_self, not-mem-nil, Pairwise, Perm}
use mathlib.Core.List.Perm
use mathlib.Core.List.{Permᴰ}
use mathlib.Core.Path.{subst}
use mathlib.Core.Logic.{∥∥₁_elim}
use mathlib.Core.Logic.Or
use matrix_identity_admin.Prelude.{
  ℕ, suc, List, [], ◌∷◌, length, true, ◌≡◌, ◌≢◌, refl, sym, ap, ◌∙◌, arith,
}
use matrix_identity_admin.Text.{Text}
use matrix_identity_admin.Models.Audit.{AuditLog}
use matrix_identity_admin.PolicyTables.{text_compare}
use matrix_identity_admin.AuditQueries.{text_le}

-- No row comes before one that is newer.
abbrev pub Descending : List AuditLog → Type 0
Descending = Pairwise (λ (a b : AuditLog). text_le b.timestamp a.timestamp ≡ true)

abbrev pub DifferentTimes : List AuditLog → Type 0
DifferentTimes = Pairwise (λ (a b : AuditLog). a.timestamp ≢ b.timestamp)

text_le_antisymm : (s t : Text) → text_le s t ≡ true → text_le t s ≡ true → s ≡ t
unfolding text_compare
text_le_antisymm [] [] h k = refl
text_le_antisymm [] (y ∷ ys) h k = ground (arith, h, k)
text_le_antisymm (x ∷ xs) [] h k = ground (arith, h, k)
text_le_antisymm (x ∷ xs) (y ∷ ys) h k = ground (arith, h, k, text_le_antisymm xs ys)

AuditLog-set : IsSet AuditLog
AuditLog-set = hlevel

length-permᴰ : {A : Type 0} {xs ys : List A} → Permᴰ xs ys → length xs ≡ length ys
length-permᴰ Permᴰ.nil = refl
length-permᴰ (Permᴰ.cons e p) = ap suc (length-permᴰ p)
length-permᴰ (Permᴰ.swap e f) = refl
length-permᴰ (Permᴰ.trans p q) = length-permᴰ p ∙ length-permᴰ q

native_set : IsSet ℕ
native_set = hlevel

pub length-perm : {xs ys : List AuditLog} → Perm xs ys → length xs ≡ length ys
length-perm {xs} {ys} p = ∥∥₁_elim p (native_set (length xs) (length ys)) length-permᴰ

-- Two orders of the same rows are one.
pub Descending-unique :
    (xs ys : List AuditLog)
    → Perm xs ys
    → Descending xs
    → DifferentTimes xs
    → Descending ys
    → xs ≡ ys
Descending-unique [] [] p d u e = refl
Descending-unique [] (y ∷ ys) p d u e = absurd (not-mem-nil ((Perm.mem_iff p).1 mem-cons_self))
Descending-unique (x ∷ xs) [] p d u e = absurd (not-mem-nil ((Perm.mem_iff p).0 mem-cons_self))
Descending-unique (x ∷ xs) (y ∷ ys) p (Pairwise.cons hx dx) (Pairwise.cons nx ux)
      (Pairwise.cons hy dy) =
    let heads : x ≡ y =
      Or.elim (AuditLog-set x y) (mem-cons.0 ((Perm.mem_iff p).0 mem-cons_self)) (λ e. e)
        (λ m.
          Or.elim (AuditLog-set x y) (mem-cons.0 ((Perm.mem_iff p).1 mem-cons_self)) (λ e. sym e)
            (λ n. absurd (nx y n (text_le_antisymm x.timestamp y.timestamp (hy x m) (hx y n))))) in
    ap (λ t. t ∷ xs) heads
    ∙ ap (λ r. y ∷ r)
        (Descending-unique xs ys (Perm.cons_inv (subst (λ t. Perm (t ∷ xs) (y ∷ ys)) heads p)) dx ux
          dy)
