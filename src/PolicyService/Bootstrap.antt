-- ===== src/PolicyService/Bootstrap.antt =====
-- src/services/policy_service.rs: the import of the legacy mappings.
use mathlib.Core.Path.{subst}
use matrix_identity_admin.Prelude.{
  ℕ, ◌+◌, List, [], ◌∷◌, ◌++◌, Option, none, some, true, false, ◌≡◌, refl, ap, arith, if◌then◌else◌,
  is_some, length, Bool, ◌&&◌, any, All, append_assoc, append-nil, sym, ◌∙◌, Bool-cases, inl, inr,
}
use matrix_identity_admin.Text.{Text, text_eq, text_eq_refl}
use matrix_identity_admin.Models.Error.{Result, Done, ok, err, is_ok}
use matrix_identity_admin.Models.Policy.{GroupMapping, value, room_id}
use matrix_identity_admin.Effects.Database.{Database, BindingRow}
use matrix_identity_admin.Effects.Exec.{World, Run, pure, or_return, ◌>>=◌}
use matrix_identity_admin.PolicyTables.{
  attempt, statement, inserted, insert_binding, has_bootstrapped, mark_bootstrapped,
}
use matrix_identity_admin.PolicyService.{
  PolicyService, mapped_row, import_mappings, import_new, bootstrap_from_env,
}
use matrix_identity_admin.PolicyService.Bindings.{Inserted, attempt-Inserted}

-- The row is for the group and the room of one of the mappings.
abbrev pub is_for : BindingRow → GroupMapping → Bool
is_for row m =
    text_eq row.subject_value m.keycloak_group && text_eq row.target_room_id m.matrix_room_id

abbrev pub IsMapped : List GroupMapping → BindingRow → Type 0
IsMapped mappings row = any (is_for row) mappings ≡ true

-- What a run of the import returns: the number of new rows, which follow the rows that were there,
-- with the import marked as done.
abbrev pub Imported : List GroupMapping → Database → Database → Result ℕ → Type 0
Imported mappings before after (ok n) =
    (added : List BindingRow) × (after.policy_bindings ≡ before.policy_bindings ++ added)
    × (length added ≡ n)
    × All (IsMapped mappings) added
    × (is_some after.policy_bootstrap_state ≡ true)
Imported mappings before after (err e) = Unit

-- No import, and no change.
abbrev pub Skipped : Database → Database → Result ℕ → Type 0
Skipped before after (ok n) = (n ≡ 0) × (after ≡ before)
Skipped before after (err e) = after ≡ before

abbrev Marked : Database → Result ℕ → Type 0
Marked after (ok n) = is_some after.policy_bootstrap_state ≡ true
Marked after (err e) = Unit

Imported-Marked :
    (mappings : List GroupMapping) (before after : Database) (r : Result ℕ)
    → Imported mappings before after r
    → Marked after r
Imported-Marked mappings before after (ok n) (added, _, _, _, m) = m
Imported-Marked mappings before after (err e) h = tt

Skipped-Marked :
    (before after : Database) (r : Result ℕ)
    → is_some before.policy_bootstrap_state ≡ true
    → Skipped before after r
    → Marked after r
Skipped-Marked before after (ok n) h (_, e) = ap (λ db. is_some db.policy_bootstrap_state) e ∙ h
Skipped-Marked before after (err e) h k = tt

-- The rows that the loop has added, from `count` on.
abbrev Added : List GroupMapping → ℕ → Database → Database → ℕ → Type 0
Added mappings count before after n =
    (added : List BindingRow) × (after.policy_bindings ≡ before.policy_bindings ++ added)
    × (count + length added ≡ n)
    × All (IsMapped mappings) added

IsMapped-more :
    (m : GroupMapping) (mappings : List GroupMapping) (rows : List BindingRow)
    → All (IsMapped mappings) rows
    → All (IsMapped (m ∷ mappings)) rows
IsMapped-more m mappings [] h = tt
IsMapped-more m mappings (r ∷ rows) (h, hs) = (ground (arith, h), IsMapped-more m mappings rows hs)

mapped_row-IsMapped :
    (id now : Text) (m : GroupMapping) (mappings : List GroupMapping)
    → IsMapped (m ∷ mappings) (mapped_row id m now)
unfolding value room_id
mapped_row-IsMapped id now m mappings =
    ground (arith, text_eq_refl m.keycloak_group, text_eq_refl m.matrix_room_id)

-- One more mapping before the rest of the loop, inserted or not.
Added-cons :
    (m : GroupMapping) (mappings : List GroupMapping) (id now : Text) (count n : ℕ)
    (before mid after : Database) (r : Done)
    → Inserted (mapped_row id m now) before (r, mid)
    → Added mappings (if is_ok r then count + 1 else count) mid after n
    → Added (m ∷ mappings) count before after n
Added-cons m mappings id now count n before mid after (ok _) h (added, e, l, a) = (
  mapped_row id m now ∷ added,
  e ∙ ap (λ t. t ++ added) h ∙ append_assoc before.policy_bindings (mapped_row id m now ∷ []) added,
  omega (arith, l),
  (mapped_row-IsMapped id now m mappings, IsMapped-more m mappings added a),
)
Added-cons m mappings id now count n before mid after (err _) h (added, e, l, a) = (
  added,
  e ∙ ap (λ (db : Database). db.policy_bindings ++ added) h,
  l,
  IsMapped-more m mappings added a,
)

module _ {W : Type 0} (service : PolicyService W) where
  import_mappings-Added :
      (now : Text) (count : ℕ) (mappings : List GroupMapping) (w : World W)
      → let r = import_mappings service now count mappings w in
        Added mappings count w.db r.world.db r.value
  unfolding import_mappings insert_binding statement ◌>>=◌
  import_mappings-Added now count [] w =
      ([], sym (append-nil w.db.policy_bindings), omega arith, tt)
  import_mappings-Added now count (mapping ∷ rest) w =
      let (id, u) = service.new_v4 w.upstream in
      let (failure, v) = service.sqlite.failure u in
      let r =
        attempt failure (inserted service.sqlite.constraint_failed (mapped_row id mapping now))
          w.db in
      let end =
        import_mappings service now (if is_ok r.0 then count + 1 else count) rest
          (record { upstream = v; db = r.1 }) in
      Added-cons mapping rest id now count _ w.db r.1 end.world.db r.0
        (attempt-Inserted service.sqlite.constraint_failed (mapped_row id mapping now) w.db failure)
        (import_mappings-Added now (if is_ok r.0 then count + 1 else count) rest
          (record { upstream = v; db = r.1 }))

  -- The end of the import, after its mappings.
  mark-Imported :
      (mappings : List GroupMapping) (source now : Text) (count : ℕ) (before : Database)
      (failure : Option Text) (db : Database) (v : W)
      → Added mappings 0 before db count
      → let m =
          attempt failure
            (λ (d : Database). (
              ok (tt {0}),
              record d {
                policy_bootstrap_state =
                    some (record { bootstrap_source = source; bootstrapped_at = now });
              },
            ))
            db in
        let r = or_return {W = W} (λ _. pure (ok count)) m.0 (record { upstream = v; db = m.1 }) in
        Imported mappings before r.world.db r.value
  unfolding attempt or_return
  mark-Imported mappings source now count before (some m) db v h = tt
  mark-Imported mappings source now count before none db v (added, e, l, a) =
      (added, e, omega (arith, l), a, refl)

  import_new-Imported :
      (mappings : List GroupMapping) (source : Text) (w : World W)
      → let r = import_new service mappings source false w in
        Imported mappings w.db r.world.db r.value
  unfolding import_new mark_bootstrapped statement ◌>>=◌
  import_new-Imported mappings source w =
      let (now, u) = service.now w.upstream in
      mark-Imported mappings source _ _ w.db _ _ _
        (import_mappings-Added now 0 mappings (record { upstream = u; db = w.db }))

  -- From the answer of the first statement.
  abbrev asked : List GroupMapping → Text → Option Text → W → Database → Run W (Result ℕ)
  asked mappings source failure v db =
      let r =
        attempt failure (λ (db : Database). (ok (is_some db.policy_bootstrap_state), db)) db in
      or_return (import_new service mappings source) r.0 (record { upstream = v; db = r.1 })

  asked-Imported :
      (mappings : List GroupMapping) (source : Text) (failure : Option Text) (v : W) (db : Database)
      → is_some db.policy_bootstrap_state ≡ false
      → let r = asked mappings source failure v db in Imported mappings db r.world.db r.value
  unfolding attempt or_return
  asked-Imported mappings source (some m) v db h = tt
  asked-Imported mappings source none v db h =
      rw h (import_new-Imported mappings source (record { upstream = v; db = db }))

  asked-Skipped :
      (mappings : List GroupMapping) (source : Text) (failure : Option Text) (v : W) (db : Database)
      → is_some db.policy_bootstrap_state ≡ true
      → let r = asked mappings source failure v db in Skipped db r.world.db r.value
  unfolding attempt or_return import_new
  asked-Skipped mappings source (some m) v db h = refl
  asked-Skipped mappings source none v db h = rw h (refl, refl)

  -- If the import has not been marked as done and `bootstrap_from_env` returns n, then the table of
  -- bindings is the one before it, whatever that held, with n rows appended, each for the group and
  -- the room of one of the mappings, and the import is marked as done.
  pub bootstrap_from_env-Imported :
      (mappings : List GroupMapping) (source : Text) (w : World W)
      → is_some w.db.policy_bootstrap_state ≡ false
      → let r = bootstrap_from_env service mappings source w in
        Imported mappings w.db r.world.db r.value
  unfolding bootstrap_from_env has_bootstrapped statement ◌>>=◌
  bootstrap_from_env-Imported mappings source w h = asked-Imported mappings source _ _ w.db h

  bootstrap_from_env-Skipped :
      (mappings : List GroupMapping) (source : Text) (w : World W)
      → is_some w.db.policy_bootstrap_state ≡ true
      → let r = bootstrap_from_env service mappings source w in Skipped w.db r.world.db r.value
  unfolding bootstrap_from_env has_bootstrapped statement ◌>>=◌
  bootstrap_from_env-Skipped mappings source w h = asked-Skipped mappings source _ _ w.db h

  bootstrap_from_env-Marked :
      (mappings : List GroupMapping) (source : Text) (w : World W)
      → let r = bootstrap_from_env service mappings source w in Marked r.world.db r.value
  bootstrap_from_env-Marked mappings source w =
      elim (Bool-cases (is_some w.db.policy_bootstrap_state)) [
        | inl h ↦
            Skipped-Marked w.db (bootstrap_from_env service mappings source w).world.db _ h
              (bootstrap_from_env-Skipped mappings source w h)
        | inr h ↦
            Imported-Marked mappings w.db (bootstrap_from_env service mappings source w).world.db _
              (bootstrap_from_env-Imported mappings source w h)
      ]

  -- If a run of `bootstrap_from_env` returns, whatever it found and did, then any later run that
  -- finds the mark of the import as the first one left it, with other mappings and another table of
  -- bindings if need be, leaves the database as it is, and returns 0 unless it fails.
  pub bootstrap_from_env-Once :
      (mappings later : List GroupMapping) (source source' : Text) (w v : World W) (n : ℕ)
      → (bootstrap_from_env service mappings source w).value ≡ ok n
      → v.db.policy_bootstrap_state
        ≡ (bootstrap_from_env service mappings source w).world.db.policy_bootstrap_state
      → let r = bootstrap_from_env service later source' v in Skipped v.db r.world.db r.value
  bootstrap_from_env-Once mappings later source source' w v n returned kept =
      let first = bootstrap_from_env service mappings source w in
      bootstrap_from_env-Skipped later source' v (
        ap is_some kept
        ∙ subst (λ r. Marked first.world.db r) returned
            (bootstrap_from_env-Marked mappings source w))
