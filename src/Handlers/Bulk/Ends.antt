-- ===== src/Handlers/Bulk/Ends.antt =====
-- src/handlers/bulk_reconcile.rs: the loop over the pages ends, and counts every user once.
use matrix_identity_admin.Prelude.{
  ◌⊎◌, ℕ, zero, suc, ◌+◌, ◌-◌, ◌*◌, ◌%◌, ◌^◌, ◌≤◌, ◌<◌, List, [], ◌∷◌, Option, none, some, true,
  false, not, ltb, is_empty, length, Bool-cases, inl, inr, ◌≡◌, refl, ap, ◌∙◌, arith,
}
use matrix_identity_admin.Models.Error.{Result, ok, err}
use matrix_identity_admin.Models.Accounts.{KeycloakUser, KeycloakGroup, KeycloakRole}
use matrix_identity_admin.Models.Policy.{PolicyBinding}
use matrix_identity_admin.Models.Workflow.{WorkflowOutcome}
use matrix_identity_admin.Effects.Exec.{World, Exec, ◌>>=◌, or_return}
use matrix_identity_admin.Effects.Clients.{MatrixService}
use matrix_identity_admin.AuditQueries.{take, drop}
use matrix_identity_admin.AuditQueries.Pages.{length-drop, length-take_full, take_all}
use matrix_identity_admin.Handlers.Session.{AppState, AuthenticatedAdmin}
use matrix_identity_admin.Handlers.Bulk.{
  BulkReconcileResult, nothing_done, concluded, fetched_roles, reconcile_in_groups,
  reconcile_enabled, reconcile_one, reconcile_page, page_done, reconcile_pages, users_per_page,
}

abbrev pub counted : BulkReconcileResult → ℕ
counted r = r.users_processed + r.users_skipped

concluded-counted :
    (user : KeycloakUser) (r : BulkReconcileResult) (o : Result WorkflowOutcome)
    → counted (concluded user r o) ≡ counted r + 1
unfolding concluded
concluded-counted user r (ok o) = omega arith
concluded-counted user r (err e) = omega arith

fetched_roles-counted :
    (user : KeycloakUser) (r : BulkReconcileResult) (o : Result (List KeycloakRole))
    → counted (fetched_roles user r o).1 ≡ counted r
unfolding fetched_roles
fetched_roles-counted user r (ok o) = refl
fetched_roles-counted user r (err e) = refl

module _ {W : Type 0} (state : AppState W) (admin : AuthenticatedAdmin) (synapse : MatrixService W)
    (bindings : List PolicyBinding) where
  in_groups-counted :
      (user : KeycloakUser) (r : BulkReconcileResult) (groups : Result (List KeycloakGroup))
      (w : World W)
      → counted (reconcile_in_groups state admin synapse bindings user r groups w).value
        ≡ counted r + 1
  unfolding reconcile_in_groups ◌>>=◌
  in_groups-counted user r (err e) w = omega arith
  in_groups-counted user r (ok groups) w =
      let found = state.keycloak.get_user_roles user.id w.upstream in
      concluded-counted user (fetched_roles user r found.0).1 _
      ∙ ap (λ n. n + 1) (fetched_roles-counted user r found.0)

  one-counted :
      (user : KeycloakUser) (r : BulkReconcileResult) (w : World W)
      → counted (reconcile_one state admin synapse bindings user r w).value ≡ counted r + 1
  unfolding reconcile_one reconcile_enabled ◌>>=◌
  one-counted user r w = elim (Bool-cases (not user.enabled)) [
    | inl off ↦ rw off (omega arith)
    | inr on ↦ rw on (in_groups-counted user r _ _)
  ]

  page-counted :
      (users : List KeycloakUser) (r : BulkReconcileResult) (w : World W)
      → counted (reconcile_page state admin synapse bindings r users w).value
        ≡ counted r + length users
  unfolding reconcile_page ◌>>=◌
  page-counted [] r w = omega arith
  page-counted (user ∷ rest) r w =
      let done = reconcile_one state admin synapse bindings user r w in
      page-counted rest done.value done.world
      ∙ ap (λ n. n + length rest) (one-counted user r w)
      ∙ one_more (counted r) (length rest)
    where
      one_more : (a b : ℕ) → a + 1 + b ≡ a + suc b
      one_more a b = omega arith

-- The answers of a Keycloak that has these users: each page that it returns is the slice of them
-- that was asked for. It may fail at any call.
abbrev pub IsSlice : List KeycloakUser → ℕ → Result (List KeycloakUser) → Type 0
IsSlice users first (err e) = Unit
IsSlice users first (ok page) = page ≡ take users_per_page (drop first users)

abbrev pub Serves : {W : Type 0} → AppState W → List KeycloakUser → Type 0
Serves {W} state users =
    (first : ℕ) (u : W)
    → IsSlice users first (state.keycloak.search_users [] users_per_page first u).0

-- The loop ended, and unless it ended with an error it counted n users.
abbrev pub Counts : ℕ → Result (Option BulkReconcileResult) → Type 0
Counts n (err e) = Unit
Counts n (ok none) = ⊥
Counts n (ok (some r)) = counted r ≡ n

-- A slice is full, or it is what is left.
slice_length :
    (first : ℕ) (users : List KeycloakUser)
    → let n = length (take users_per_page (drop first users)) in
      let left = length users - first in ((n ≡ 100) × (100 ≤ left)) ⊎ ((n ≡ left) × (left < 100))
slice_length first users = elim (Bool-cases (ltb (length users - first) 100)) [
  | inl few ↦ inr (
    ap length (take_all 100 (drop first users) (omega (arith, length-drop first users, below few)))
        ∙ length-drop first users,
    below few,
  )
  | inr many ↦ inl (
    length-take_full 100 (drop first users) (omega (arith, length-drop first users, above many)),
    above many,
  )
]
  where
    below : ltb (length users - first) 100 ≡ true → length users - first < 100
    below h = ground (arith, h)

    above : ltb (length users - first) 100 ≡ false → 100 ≤ length users - first
    above h = ground (arith, h)

nonempty : {A : Type 0} (xs : List A) → length xs ≡ 100 → is_empty xs ≡ false
nonempty [] h = ground (arith, h)
nonempty (x ∷ xs) h = refl

empty_length : {A : Type 0} (xs : List A) → is_empty xs ≡ true → length xs ≡ 0
empty_length [] h = refl
empty_length (x ∷ xs) h = ground (arith, h)

is_short : (n : ℕ) → n < 100 → ltb (n % 2 ^ 32) 100 ≡ true
is_short n h = ground (arith, h)

no_wrap : (n : ℕ) → n < 2 ^ 32 → n % 2 ^ 32 ≡ n
no_wrap n h = omega (arith, h)

module _ {W : Type 0} (state : AppState W) (admin : AuthenticatedAdmin) (synapse : MatrixService W)
    (bindings : List PolicyBinding) (users : List KeycloakUser) where
  page_done-Counts :
      (continue : ℕ → BulkReconcileResult → Exec W (Result (Option BulkReconcileResult)))
      (first : ℕ) (r : BulkReconcileResult) (page : List KeycloakUser) (w : World W)
      → length users < 2 ^ 32
      → counted r ≡ first
      → first ≤ length users
      → IsSlice users first (ok page)
      → ((done : BulkReconcileResult) (v : World W)
          → counted done ≡ first + 100
          → first + 100 ≤ length users
          → Counts (length users) (continue (first + 100) done v).value)
      → Counts (length users) (page_done state admin synapse bindings continue first r page w).value
  unfolding page_done ◌>>=◌
  page_done-Counts continue first r page w small c le slice next =
      let sum = page-counted state admin synapse bindings page r w in
      let n = ap length slice in
      elim (slice_length first users) [
        | inl (full, more) ↦ rw (nonempty page (n ∙ full)) (
            rw (n ∙ full) (
              rw (no_wrap (first + 100) (omega (arith, more, le, small)))
                (next _ _ (sum ∙ omega (arith, c, n, full)) (omega (arith, more, le)))))
        | inr (last, few) ↦ elim (Bool-cases (is_empty page)) [
          | inl none_left ↦
              rw none_left (omega (arith, c, le, last, n, empty_length page none_left))
          | inr some_left ↦ rw some_left (
              rw (is_short (length page) (omega (arith, n, last, few)))
                (sum ∙ omega (arith, c, n, last, le)))
        ]
      ]

  answer-Counts :
      (answer : Result (List KeycloakUser)) (first : ℕ)
      (f : List KeycloakUser → Exec W (Result (Option BulkReconcileResult))) (w : World W)
      → IsSlice users first answer
      → ((page : List KeycloakUser)
          → IsSlice users first (ok page)
          → Counts (length users) (f page w).value)
      → Counts (length users) (or_return f answer w).value
  unfolding or_return
  answer-Counts (err e) first f w slice each = tt
  answer-Counts (ok page) first f w slice each = each page slice

  loop-Counts :
      (fuel first : ℕ) (r : BulkReconcileResult) (w : World W)
      → Serves state users
      → length users < 2 ^ 32
      → counted r ≡ first
      → first ≤ length users
      → length users < first + fuel * 100
      → Counts (length users) (reconcile_pages state admin synapse bindings fuel first r w).value
  unfolding reconcile_pages ◌>>=◌
  loop-Counts zero first r w serves small c le enough = absurd (omega (arith, le, enough))
  loop-Counts (suc fuel) first r w serves small c le enough =
      answer-Counts _ first _ _ (serves first w.upstream) λ page slice.
        page_done-Counts _ first r page _ small c le slice λ done v d more.
          loop-Counts fuel (first + 100) done v serves small d more (omega (arith, enough))

  -- If each page that Keycloak returns is the slice of a list of users that was asked for, though
  -- any call may fail, and the users are fewer than 2 ^ 32, then with one unit of fuel for each
  -- hundred users and one more the loop of the bulk reconciliation ends by itself; and unless the
  -- search failed, every user has been counted once, as processed or as skipped, whatever Synapse,
  -- the audit log and the lookups of groups and roles answer.
  pub reconcile_pages-Counts :
      (fuel : ℕ) (w : World W)
      → Serves state users
      → length users < 2 ^ 32
      → length users < fuel * 100
      → Counts
          (length users)
          (reconcile_pages state admin synapse bindings fuel 0 nothing_done w).value
  reconcile_pages-Counts fuel w serves small enough =
      loop-Counts fuel 0 nothing_done w serves small refl (omega arith) (omega (arith, enough))
