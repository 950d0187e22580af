-- ===== src/Handlers/Audit/Listing.antt =====
-- src/handlers/audit.rs: what the pages of the audit log hold, from the first to the last.
use mathlib.Core.List.{Perm}
use mathlib.Core.List.Perm
use mathlib.Core.HLevel.{¬_prop}
use matrix_identity_admin.Prelude.{
  ℕ, zero, suc, ◌-◌, ◌*◌, ◌≤◌, List, [], ◌++◌, map, map-append, length-map, Option-cases, inl, inr,
  none, true, ◌&&◌, leb, length, ◌≡◌, refl, sym, ap, ◌∙◌, arith,
}
use matrix_identity_admin.Text.{ℤ, pos, negsuc}
use matrix_identity_admin.Models.Error.{Result, ok, err}
use matrix_identity_admin.Models.Audit.{AuditLog}
use matrix_identity_admin.PolicyTables.{statement, attempt}
use matrix_identity_admin.Effects.Exec.{World, Exec, ◌>>=◌, or_return, try_then}
use matrix_identity_admin.AuditQueries.{
  AuditFilter, AuditReader, take, drop, selected, count_with_filter, page_with_filter,
}
use matrix_identity_admin.Effects.Database.{Database}
use matrix_identity_admin.AuditQueries.Ordered.{
  Descending, DifferentTimes, Descending-unique, length-perm,
}
use matrix_identity_admin.AuditQueries.Pages.{length-take, pages, pages-take, take_all}
use matrix_identity_admin.Handlers.Audit.{
  AuditQuery, AuditPage, AuditRow, audit_row, filter_of, clamp_page, total_pages_of, page_size,
  list_page, list,
}

clamp_within :
    (n : ℕ) (p : ℤ)
    → (leb 1 (clamp_page (total_pages_of n) p)
        && leb (clamp_page (total_pages_of n) p) (total_pages_of n))
      ≡ true
unfolding clamp_page total_pages_of
clamp_within n (negsuc k) = ground arith
clamp_within n (pos k) = ground arith

clamp_page_inside : (n k : ℕ) → suc k ≤ n → clamp_page n (pos (suc k)) ≡ suc k
unfolding clamp_page
clamp_page_inside n k h = ground (arith, h)

total_pages_enough : (n : ℕ) → n ≤ total_pages_of n * page_size
unfolding total_pages_of
total_pages_enough n = ground arith

abbrev pub at_page : AuditQuery → ℤ → AuditQuery
at_page query p = record query { page = p }

filter_of-at_page : (query : AuditQuery) (p : ℤ) → filter_of (at_page query p) ≡ filter_of query
unfolding filter_of
filter_of-at_page query p = refl

abbrev pub rows_of : Result AuditPage → List AuditRow
rows_of (ok p) = p.logs
rows_of (err e) = []

module _ {W : Type 0} (reader : AuditReader W) where
  abbrev pub NeverFails : Type 0
  NeverFails = (u : W) → (reader.sqlite.failure u).0 ≡ none

  -- ORDER BY timestamp DESC of some rows, in any state: the rows, newest first.
  abbrev pub Sorts : List AuditLog → Type 0
  Sorts rows = (u : W) → Perm (reader.arrange u rows) rows × Descending (reader.arrange u rows)

  -- With different timestamps there is one such order.
  arrange_same :
      (rows : List AuditLog) (u v : W)
      → Sorts rows
      → DifferentTimes rows
      → reader.arrange u rows ≡ reader.arrange v rows
  arrange_same rows u v sorts apart =
      Descending-unique (reader.arrange u rows) (reader.arrange v rows)
        (Perm.trans (sorts u).0 (Perm.symm (sorts v).0)) (sorts u).1
        (Perm.pairwise (λ a b. ¬_prop) (λ a b n e. n (sym e)) (Perm.symm (sorts u).0) apart)
        (sorts v).1

  list-page_of :
      (query : AuditQuery) (filter : AuditFilter) (w : World W) (rows : List AuditLog)
      → NeverFails
      → ((u : W) → reader.arrange u (selected filter w.db) ≡ rows)
      → filter_of query ≡ ok filter
      → let total = total_pages_of (length (selected filter w.db)) in
        let page = clamp_page total query.page in
        (list reader query w).value
        ≡ ok (record {
          logs = map audit_row (take page_size (drop ((page - 1) * page_size) rows));
          page = page;
          total_pages = total;
        })
  unfolding list list_page or_return ◌>>=◌ count_with_filter page_with_filter statement attempt
  list-page_of query filter w rows never same h = rw h (
      rw (never w.upstream) (
        rw (never (reader.sqlite.failure w.upstream).1)
          (rw (same (reader.sqlite.failure w.upstream).1) refl)))

  -- The rows of the pages from 1 to n, one after the other, each page in a world of its own.
  abbrev pub first_pages : AuditQuery → (ℕ → World W) → ℕ → List AuditRow
  first_pages query ws zero = []
  first_pages query ws (suc n) =
      first_pages query ws n ++ rows_of (list reader (at_page query (pos (suc n))) (ws n)).value

  first_pages-pages :
      (query : AuditQuery) (filter : AuditFilter) (ws : ℕ → World W) (db : Database)
      (rows : List AuditLog)
      → NeverFails
      → ((n : ℕ) → (ws n).db ≡ db)
      → ((u : W) → reader.arrange u (selected filter db) ≡ rows)
      → filter_of query ≡ ok filter
      → (n : ℕ) → n ≤ total_pages_of (length (selected filter db))
      → first_pages query ws n ≡ map audit_row (pages page_size n rows)
  first_pages-pages query filter ws db rows never still same h zero le = refl
  first_pages-pages query filter ws db rows never still same h (suc n) le =
      let before =
        first_pages-pages query filter ws db rows never still same h n (omega (arith, le)) in
      let this =
        list-page_of (at_page query (pos (suc n))) filter (ws n) rows never
          (λ u. ap (λ d. reader.arrange u (selected filter d)) (still n) ∙ same u)
          (filter_of-at_page query (pos (suc n)) ∙ h) in
      rw before (
        rw this (
          rw (still n) (
            rw (clamp_page_inside (total_pages_of (length (selected filter db))) n le) (
              rw (pred n) (
                sym (
                  map-append audit_row (pages page_size n rows)
                    (take page_size (drop (n * page_size) rows))))))))
    where
      pred : (n : ℕ) → suc n - 1 ≡ n
      pred n = omega arith

  -- Let no statement fail, the filters of a query be valid, the database be the same at each
  -- request, and the rows that the filter selects have different timestamps; each statement may
  -- order them as it will, as long as it gives the same rows, newest first. Then there is an order
  -- of exactly the selected rows, newest first, such that the pages from 1 to the number of pages
  -- that the audit handler shows, one after the other, are its rows.
  pub list-Complete :
      (query : AuditQuery) (filter : AuditFilter) (ws : ℕ → World W) (db : Database)
      → NeverFails
      → ((n : ℕ) → (ws n).db ≡ db)
      → Sorts (selected filter db)
      → DifferentTimes (selected filter db)
      → filter_of query ≡ ok filter
      → (rows : List AuditLog) × Perm rows (selected filter db)
        × Descending rows
        × (first_pages query ws (total_pages_of (length (selected filter db))) ≡ map audit_row rows)
  list-Complete query filter ws db never still sorts apart h =
      let some_rows = selected filter db in
      let u = (ws 0).upstream in
      let rows = reader.arrange u some_rows in
      let n = total_pages_of (length some_rows) in
      (
        rows,
        (sorts u).0,
        (sorts u).1,
        first_pages-pages query filter ws db rows never still
              (λ v. arrange_same some_rows v u sorts apart) h n (omega arith)
            ∙ ap (map audit_row) (
                pages-take page_size n rows
                ∙ take_all (n * page_size) rows (
                    omega (arith, total_pages_enough (length some_rows), length-perm (sorts u).0))),
      )

abbrev pub Within : Result AuditPage → Type 0
Within (err e) = Unit
Within (ok p) = (1 ≤ p.page) × (p.page ≤ p.total_pages) × (length p.logs ≤ 50)

page_bounds :
    (n : ℕ) (p : ℤ)
    → (1 ≤ clamp_page (total_pages_of n) p) × (clamp_page (total_pages_of n) p ≤ total_pages_of n)
page_bounds n p = (ground (arith, clamp_within n p), ground (arith, clamp_within n p))

page_short :
    (rows : List AuditLog) (p : ℕ)
    → length (map audit_row (take page_size (drop ((p - 1) * page_size) rows))) ≤ 50
page_short rows p =
    let from = drop ((p - 1) * page_size) rows in
    omega (arith, length-map audit_row (take page_size from), length-take page_size from)

module _ {W : Type 0} where
  Within-or_return :
      {A : Type 0} (f : A → Exec W (Result AuditPage)) (r : Result A) (w : World W)
      → ((a : A) (v : World W) → Within (f a v).value)
      → Within (or_return f r w).value
  unfolding or_return
  Within-or_return f (ok a) w h = h a w
  Within-or_return f (err e) w h = tt

  Within-try_then :
      {A : Type 0} (m : Exec W (Result A)) (f : A → Exec W (Result AuditPage)) (w : World W)
      → ((a : A) (v : World W) → Within (f a v).value)
      → Within (try_then m f w).value
  unfolding ◌>>=◌
  Within-try_then m f w h = Within-or_return f (m w).value (m w).world h

module _ {W : Type 0} (reader : AuditReader W) where
  list_page-Within :
      (query : AuditQuery) (filter : AuditFilter) (total : ℕ) (w : World W)
      → Within (list_page reader query filter total w).value
  unfolding list_page or_return ◌>>=◌ page_with_filter statement attempt
  list_page-Within query filter total w = elim (Option-cases (reader.sqlite.failure w.upstream).0) [
    | inl none_failed ↦ rw none_failed (
      (page_bounds total query.page).0,
      (page_bounds total query.page).1,
      page_short (reader.arrange w.upstream (selected filter w.db))
          (clamp_page (total_pages_of total) query.page),
    )
    | inr (message, failed) ↦ rw failed tt
  ]

  -- Whatever page is asked for, a negative one or one past the end included, an answer of the audit
  -- page shows a page from 1 to the number of pages, with at most 50 rows.
  pub list-Within : (query : AuditQuery) (w : World W) → Within (list reader query w).value
  unfolding list
  list-Within query w =
      Within-or_return
        (λ filter.
          try_then (count_with_filter reader filter) (λ total. list_page reader query filter total))
        (filter_of query) w
        λ filter v.
          Within-try_then (count_with_filter reader filter)
            (λ total. list_page reader query filter total) v
            (λ total u. list_page-Within query filter total u)
