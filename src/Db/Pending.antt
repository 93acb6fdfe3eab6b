-- ===== src/Db/Pending.antt =====
-- Lemmas on db/migrator.ts: what the loop does with the migrations that are not recorded.
use openzigs_social.Prelude.{
  ℕ, suc, String, Bool, true, false, not, ◌||◌, Option, none, some, List, [], ◌∷◌, ◌++◌, ◌≡◌, refl,
  ap, sym, ◌∙◌, inl, inr, arith, map, keep, take, drop, ◌==◌, Bool-cases, All, includes,
}
use mathlib.Core.List.{append-nil, append_assoc}
use mathlib.Core.Path.{subst}
use openzigs_social.Effects.{Result, ok, err, Result-cases}
use openzigs_social.Sql.Order.{insert_by}
use mathlib.Core.Bool.{or-false}
use openzigs_social.Db.Distinct.{IsDistinct, includes-insert_by}
use openzigs_social.Db.Migrator.{
  Migration, version, MigrateError, failed, already_recorded, row_version, Database,
  applied_versions, apply_one, apply_each,
}

-- The migrations that are not among the versions that are done.
abbrev pub pending : List ℕ → List Migration → List Migration
pending done = keep (λ m. not (includes (version m) done))

-- Whether a version is recorded.
abbrev pub is_recorded : {S : Type 0} → ℕ → Database S → Bool
is_recorded v db = includes v (applied_versions db)

or_swap : (a b c : Bool) → ((a || b) || c) ≡ (b || (a || c))
or_swap a b c = ground arith

module _ {S : Type 0} (exec : String → S → Result String S) where
  -- Migrations one after the other.
  abbrev pub run_sql : List Migration → S → Result String S
  run_sql [] s = ok s
  run_sql (m ∷ ms) s = elim (exec m.sql s) [ err e ↦ err e | ok s' ↦ run_sql ms s' ]

  -- How the loop ended: nothing is left, or the next migration threw.
  abbrev pub Ended : List ℕ → Result MigrateError (List ℕ) → List Migration → S → Type 0
  Ended applied (ok versions) rest s = (rest ≡ []) × (versions ≡ applied)
  Ended applied (err e) [] s = ⊥
  Ended applied (err e) (m ∷ rest) s =
      (text : String) × (exec m.sql s ≡ err text) × (e ≡ failed text)

  -- The first `count` of the pending migrations were applied.
  pub record IsMigrated (ms : List Migration) (applied : List ℕ) (db : Database S)
      (result : Result MigrateError (List ℕ)) (db' : Database S) : Type 0 where
    pub count : ℕ
    pub schema : run_sql (take count ms) db.schema ≡ ok db'.schema
    pub recorded :
        (v : ℕ) → is_recorded v db' ≡ (is_recorded v db || includes v (map version (take count ms)))
    pub ended : Ended (applied ++ map version (take count ms)) result (drop count ms) db'.schema

  abbrev next : ℕ → Migration → S → Database S → Database S
  next now m s db = record {
    schema = s;
    schema_migrations =
        insert_by row_version (record { version = m.version; applied_at = now })
          db.schema_migrations;
  }

  recorded-next :
      (now : ℕ) (m : Migration) (s : S) (db : Database S) (v : ℕ)
      → is_recorded v (next now m s db) ≡ (version m == v || is_recorded v db)
  unfolding applied_versions
  recorded-next now m s db v = includes-insert_by row_version v _ db.schema_migrations

  fresh-next :
      (now : ℕ) (m : Migration) (s : S) (db : Database S) (ms : List Migration)
      → includes (version m) (map version ms) ≡ false
      → All (λ x. is_recorded (version x) db ≡ false) ms
      → All (λ x. is_recorded (version x) (next now m s db) ≡ false) ms
  fresh-next now m s db [] h f = tt
  fresh-next now m s db (x ∷ ms) h f = (
    recorded-next now m s db (version x) ∙ ground (arith, h, f.0),
    fresh-next now m s db ms (ground (arith, h)) f.1,
  )

  module _ (now : ℕ) (m : Migration) (db : Database S) where
    apply_one-throws :
        (e : String)
        → exec m.sql db.schema ≡ err e
        → apply_one exec now m db ≡ (some (failed e), db)
    unfolding apply_one
    apply_one-throws e thrown = rw (thrown, apply_one) refl

    apply_one-refuses :
        (s : S)
        → exec m.sql db.schema ≡ ok s
        → is_recorded (version m) db ≡ true
        → apply_one exec now m db ≡ (some (already_recorded m.version), db)
    unfolding apply_one
    apply_one-refuses s ran there = rw (ran, apply_one) (rw there refl)

    apply_one-goes_on :
        (s : S)
        → exec m.sql db.schema ≡ ok s
        → is_recorded (version m) db ≡ false
        → apply_one exec now m db ≡ (none, next now m s db)
    unfolding apply_one
    apply_one-goes_on s ran fresh = rw (ran, apply_one) (rw fresh refl)

  module _ (now : ℕ) (done : List ℕ) (m : Migration) (ms : List Migration) (applied : List ℕ)
      (db : Database S) where
    apply_each-skips :
        includes (version m) done ≡ true
        → apply_each exec now done (m ∷ ms) applied db ≡ apply_each exec now done ms applied db
    unfolding apply_each
    apply_each-skips hit = rw hit refl

    abbrev after : Option MigrateError × Database S → Result MigrateError (List ℕ) × Database S
    after p = elim p.0 [
      | some e ↦ (err e, p.1)
      | none ↦ apply_each exec now done ms (applied ++ m.version ∷ []) p.1
    ]

    apply_each-step :
        includes (version m) done ≡ false
        → apply_each exec now done (m ∷ ms) applied db ≡ after (apply_one exec now m db)
    unfolding apply_each
    apply_each-step miss = rw miss refl

    apply_each-throws :
        (e : String)
        → includes (version m) done ≡ false
        → exec m.sql db.schema ≡ err e
        → apply_each exec now done (m ∷ ms) applied db ≡ (err (failed e), db)
    apply_each-throws e miss thrown =
        apply_each-step miss ∙ ap after (apply_one-throws now m db e thrown)

    apply_each-refuses :
        (s : S)
        → includes (version m) done ≡ false
        → exec m.sql db.schema ≡ ok s
        → is_recorded (version m) db ≡ true
        → apply_each exec now done (m ∷ ms) applied db ≡ (err (already_recorded m.version), db)
    apply_each-refuses s miss ran there =
        apply_each-step miss ∙ ap after (apply_one-refuses now m db s ran there)

    apply_each-goes_on :
        (s : S)
        → includes (version m) done ≡ false
        → exec m.sql db.schema ≡ ok s
        → is_recorded (version m) db ≡ false
        → apply_each exec now done (m ∷ ms) applied db
          ≡ apply_each exec now done ms (applied ++ m.version ∷ []) (next now m s db)
    apply_each-goes_on s miss ran fresh =
        apply_each-step miss ∙ ap after (apply_one-goes_on now m db s ran fresh)

  apply_each-nil :
      (now : ℕ) (done applied : List ℕ) (db : Database S)
      → apply_each exec now done [] applied db ≡ (ok applied, db)
  unfolding apply_each
  apply_each-nil now done applied db = refl

  pub apply_each-pending :
      (now : ℕ) (done : List ℕ) (ms : List Migration) (applied : List ℕ) (db : Database S)
      → apply_each exec now done ms applied db ≡ apply_each exec now [] (pending done ms) applied db
  apply_each-pending now done [] applied db =
      apply_each-nil now done applied db ∙ sym (apply_each-nil now [] applied db)
  apply_each-pending now done (m ∷ ms) applied db = elim (Bool-cases (includes (version m) done)) [
    | inl hit ↦
        rw hit (
          apply_each-skips now done m ms applied db hit ∙ apply_each-pending now done ms applied db)
    | inr miss ↦ rw miss (elim (Result-cases (exec m.sql db.schema)) [
      | inr (e, thrown) ↦
          apply_each-throws now done m ms applied db e miss thrown
          ∙ sym (apply_each-throws now [] m (pending done ms) applied db e refl thrown)
      | inl (s, ran) ↦ elim (Bool-cases (is_recorded (version m) db)) [
        | inl there ↦
            apply_each-refuses now done m ms applied db s miss ran there
            ∙ sym (apply_each-refuses now [] m (pending done ms) applied db s refl ran there)
        | inr fresh ↦
            apply_each-goes_on now done m ms applied db s miss ran fresh
            ∙ apply_each-pending now done ms (applied ++ m.version ∷ []) (next now m s db)
            ∙ sym (apply_each-goes_on now [] m (pending done ms) applied db s refl ran fresh)
      ]
    ])
  ]

  abbrev Migrates : ℕ → List Migration → List ℕ → Database S → Type 0
  Migrates now ms applied db =
      let out = apply_each exec now [] ms applied db in IsMigrated ms applied db out.0 out.1

  pub apply_each-IsMigrated :
      (now : ℕ) (ms : List Migration) (applied : List ℕ) (db : Database S)
      → IsDistinct ms
      → All (λ m. is_recorded (version m) db ≡ false) ms
      → Migrates now ms applied db
  unfolding IsDistinct
  apply_each-IsMigrated now [] applied db d f =
      subst (λ out. IsMigrated [] applied db out.0 out.1) (sym (apply_each-nil now [] applied db))
        (record {
          count = 0;
          schema = refl;
          recorded = λ v. sym (or-false (is_recorded v db));
          ended = (refl, sym (append-nil applied));
        })
  apply_each-IsMigrated now (m ∷ ms) applied db d f = elim (Result-cases (exec m.sql db.schema)) [
    | inr (e, thrown) ↦
        subst (λ out. IsMigrated (m ∷ ms) applied db out.0 out.1)
          (sym (apply_each-throws now [] m ms applied db e refl thrown))
          (record {
            count = 0;
            schema = refl;
            recorded = λ v. sym (or-false (is_recorded v db));
            ended = (e, thrown, refl);
          })
    | inl (s, ran) ↦
        let db1 = next now m s db in
        let ih =
          apply_each-IsMigrated now ms (applied ++ m.version ∷ []) db1 d.1
            (fresh-next now m s db ms d.0 f.1) in
        subst (λ out. IsMigrated (m ∷ ms) applied db out.0 out.1)
          (sym (apply_each-goes_on now [] m ms applied db s refl ran f.0))
          (record {
            count = suc ih.count;
            schema = rw ran ih.schema;
            recorded = λ v.
                ih.recorded v
                ∙ ap (λ b. b || includes v (map version (take ih.count ms)))
                    (recorded-next now m s db v)
                ∙ or_swap (version m == v) (is_recorded v db)
                    (includes v (map version (take ih.count ms)));
            ended =
                subst
                  (λ l.
                    Ended l (apply_each exec now [] ms (applied ++ m.version ∷ []) db1).0
                      (drop ih.count ms)
                      (apply_each exec now [] ms (applied ++ m.version ∷ []) db1).1.schema)
                  (append_assoc applied (m.version ∷ []) (map version (take ih.count ms))) ih.ended;
          })
  ]
