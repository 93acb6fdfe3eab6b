-- ===== src/Db/Migrator.antt =====
-- db/migrator.ts. A directory is the list of its files with their contents, in the order of readdirSync.
-- What SQL does to a database, apart from schema_migrations, is a parameter, and so is the match of a
-- file's name with FILENAME_RE. A transaction that throws leaves the database as it was.
use openzigs_social.Prelude.{
  ℕ, String, Option, none, some, List, [], ◌∷◌, ◌++◌, map, if◌then◌else◌, includes,
}
use openzigs_social.Effects.{Result, ok, err}
use openzigs_social.Sql.Order.{insert_by, sort_by}

pub record Migration : Type 0 where
  pub version : ℕ
  pub name : String
  pub sql : String

abbrev pub version : Migration → ℕ
version m = m.version

pub record File : Type 0 where
  pub file_name : String
  pub contents : String

pub data MigrateError : Type 0 where
  duplicate_version : ℕ → MigrateError
  failed : String → MigrateError
  already_recorded : ℕ → MigrateError

pub record VersionRow : Type 0 where
  pub version : ℕ
  pub applied_at : ℕ

abbrev pub row_version : VersionRow → ℕ
row_version r = r.version

pub record MigrateResult : Type 0 where
  pub applied : List ℕ
  pub already_applied : List ℕ

module _ (parse_name : String → Option (ℕ × String)) where
  -- The loop over the files: `seen` has the versions of the migrations so far.
  abbrev pub load_from : List File → List Migration → Result MigrateError (List Migration)
  load_from [] migrations = ok migrations
  load_from (f ∷ fs) migrations = elim (parse_name f.file_name) [
    | none ↦ load_from fs migrations
    | some (v, name) ↦
        let rest =
          load_from fs (migrations ++ record { version = v; name = name; sql = f.contents } ∷ []) in
        if includes v (map version migrations) then err (duplicate_version v) else rest
  ]

  unfoldable pub load_migrations : List File → Result MigrateError (List Migration)
  unfolding sort_by
  load_migrations dir = elim (load_from dir []) [
    | err e ↦ err e
    | ok migrations ↦ ok (sort_by version migrations)
  ]

pub record Database (Schema : Type 0) : Type 0 where
  pub schema : Schema
  pub schema_migrations : List VersionRow

abbrev pub report : List ℕ → Result MigrateError (List ℕ) → Result MigrateError MigrateResult
report done (ok applied) = ok (record { applied = applied; already_applied = done })
report done (err e) = err e

module _ {Schema : Type 0} where
  -- By the primary key.
  unfoldable pub applied_versions : Database Schema → List ℕ
  applied_versions db = map row_version db.schema_migrations

  module _ (exec : String → Schema → Result String Schema) where
    -- The transaction of a migration.
    unfoldable pub apply_one :
        ℕ → Migration → Database Schema → Option MigrateError × Database Schema
    unfolding applied_versions insert_by
    apply_one now m db = elim (exec m.sql db.schema) [
      | err e ↦ (some (failed e), db)
      | ok schema ↦
          if includes m.version (applied_versions db)
          then (some (already_recorded m.version), db)
          else (
            none,
            record {
              schema = schema;
              schema_migrations =
                  insert_by row_version (record { version = m.version; applied_at = now })
                    db.schema_migrations;
            },
          )
    ]

    -- The loop, with what `apply_one` returned for the migration before the rest.
    unfoldable pub apply_each :
        ℕ
        → List ℕ
        → List Migration
        → List ℕ
        → Database Schema
        → Result MigrateError (List ℕ) × Database Schema
    unfolding apply_one
    apply_each now done [] applied db = (ok applied, db)
    apply_each now done (m ∷ ms) applied db =
        let (thrown, db') = apply_one now m db in
        let skipped = apply_each now done ms applied db in
        let next = apply_each now done ms (applied ++ m.version ∷ []) db' in
        if includes m.version done
        then skipped
        else elim thrown [ some e ↦ (err e, db') | none ↦ next ]

    unfoldable pub migrate :
        (String → Option (ℕ × String))
        → ℕ
        → List File
        → Database Schema
        → Result MigrateError MigrateResult × Database Schema
    unfolding applied_versions load_migrations apply_each
    migrate parse_name now dir db =
        let done = applied_versions db in
        elim (load_migrations parse_name dir) [
          | err e ↦ (err e, db)
          | ok migrations ↦
              let (result, db') = apply_each now done migrations [] db in (report done result, db')
        ]
