-- ===== src/Migrations.antt =====
-- The migration runner (src/migrations.ts). What SQL does to the rest of the database is a
-- parameter; the files are read and sorted before, and the advisory lock makes a run exclusive.
pub mod Laws
use perk_os_nayori_platform.Prelude.{
  String, Bool, true, false, ◌&&◌, ◌||◌, Option, none, some, List, [], ◌∷◌, ◌==◌, if◌then◌else◌,
  any, Result, ok, err,
}
use perk_os_nayori_platform.Prelude.Table.{lookup}

pub record MigrationFile : Type 0 where
  pub version : String
  pub filename : String
  pub checksum : String
  pub sql : String

-- A row of `schema_migrations`.
pub record AppliedRow : Type 0 where
  pub version : String
  pub filename : String
  pub checksum : String

pub data MigrationError : Type 0 where
  no_files mismatch failed : MigrationError

pub record Database (S : Type 0) : Type 0 where
  pub schema : S
  pub applied : List AppliedRow

abbrev pub row_of : MigrationFile → AppliedRow
row_of f = record { version = f.version; filename = f.filename; checksum = f.checksum }

-- `version` is the primary key and `filename` is unique.
abbrev pub clashes : MigrationFile → AppliedRow → Bool
clashes f r = r.version == f.version || r.filename == f.filename

abbrev pub matches_file : MigrationFile → AppliedRow → Bool
matches_file f r = r.filename == f.filename && r.checksum == f.checksum

module _ {S : Type 0} (execute : String → S → Option S) where
  abbrev record_applied : MigrationFile → Option S → Database S → Option (Database S)
  record_applied f none db = none
  record_applied f (some s) db =
      if any (clashes f) db.applied
      then none
      else some (record { schema = s; applied = row_of f ∷ db.applied })

  -- `applyMigration`, with `none` for the ROLLBACK
  unfoldable pub apply_migration : MigrationFile → Database S → Option (Database S)
  apply_migration f db = record_applied f (execute f.sql db.schema) db

  abbrev pub find_applied : String → List AppliedRow → Option AppliedRow
  find_applied version rows = lookup (λ (r : AppliedRow). r.version) version rows

  -- The loop, with the rows that were read before it.
  unfoldable pub run_files :
      List AppliedRow
      → List MigrationFile
      → Database S
      → Result MigrationError (Unit {0}) × Database S
  run_files before [] db = (ok tt, db)
  run_files before (f ∷ fs) db = elim (find_applied f.version before) [
    | some existing ↦ elim (matches_file f existing) [
      | true ↦ run_files before fs db
      | false ↦ (err MigrationError.mismatch, db)
    ]
    | none ↦ elim (apply_migration f db) [
      | none ↦ (err MigrationError.failed, db)
      | some db' ↦ run_files before fs db'
    ]
  ]

  -- `runMigrations`
  unfoldable pub run_migrations :
      List MigrationFile → Database S → Result MigrationError (Unit {0}) × Database S
  unfolding run_files apply_migration
  run_migrations [] db = (err MigrationError.no_files, db)
  run_migrations (f ∷ fs) db = run_files db.applied (f ∷ fs) db
