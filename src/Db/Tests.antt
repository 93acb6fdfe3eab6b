-- ===== src/Db/Tests.antt =====
-- A directory whose third migration is broken.
use openzigs_social.Prelude.{
  ℕ, String, Option, none, some, List, [], ◌∷◌, ◌++◌, ◌≡◌, refl, drop, str_eq, if◌then◌else◌,
}
use openzigs_social.Effects.{Result, ok, err}
use openzigs_social.Sql.Order.{insert_by, sort_by, IsSorted}
use openzigs_social.Db.Migrator.{
  Migration, version, File, MigrateError, failed, report, Database, load_migrations,
  applied_versions, apply_one, apply_each, migrate,
}
use openzigs_social.Db.Pending.{pending, IsMigrated}
use openzigs_social.Db.Migrated.{migrate-IsMigrated}

abbrev parse_name : String → Option (ℕ × String)
parse_name s =
    if str_eq s "0001-a.sql"
    then some (1, "a")
    else if str_eq s "0002-b.sql"
    then some (2, "b")
    else if str_eq s "0003-c.sql"
    then some (3, "c")
    else none

abbrev exec : String → List String → Result String (List String)
exec sql schema = if str_eq sql "bad" then err "syntax error" else ok (schema ++ sql ∷ [])

abbrev dir : List File
dir =
    record { file_name = "0002-b.sql"; contents = "create b" }
    ∷ record { file_name = "README.md"; contents = "" }
    ∷ record { file_name = "0003-c.sql"; contents = "bad" }
    ∷ record { file_name = "0001-a.sql"; contents = "create a" }
    ∷ []

abbrev loaded : List Migration
loaded =
    record { version = 1; name = "a"; sql = "create a" }
    ∷ record { version = 2; name = "b"; sql = "create b" }
    ∷ record { version = 3; name = "c"; sql = "bad" }
    ∷ []

load_dir : load_migrations parse_name dir ≡ ok loaded
unfolding load_migrations sort_by insert_by
load_dir = refl

abbrev db : Database (List String)
db = record { schema = []; schema_migrations = record { version = 1; applied_at = 5 } ∷ [] }

second_applied : migrate exec parse_name 9 dir db ≡ (
  err (failed "syntax error"),
  record {
    schema = "create b" ∷ [];
    schema_migrations =
        record { version = 1; applied_at = 5 } ∷ record { version = 2; applied_at = 9 } ∷ [];
  },
)
unfolding migrate load_migrations apply_each apply_one applied_versions sort_by insert_by
second_applied = refl

migrate-IsMigrated_example :
    let done = applied_versions db in
    let out = migrate exec parse_name 9 dir db in
    IsSorted version loaded
    × (result : Result MigrateError (List ℕ)) × (run : IsMigrated exec
        (pending done loaded)
        []
        db
        result
        out.1)
    × (out.0 ≡ report done result)
    × (pending (applied_versions out.1) loaded ≡ drop run.count (pending done loaded))
migrate-IsMigrated_example = migrate-IsMigrated exec parse_name 9 dir loaded db load_dir
