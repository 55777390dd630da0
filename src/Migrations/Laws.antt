-- ===== src/Migrations/Laws.antt =====
-- What a run of the migrations leaves (src/migrations.ts).
use perk_os_nayori_platform.Prelude.{
  String, ◌≡◌, refl, inl, inr, true, false, Option, some, List, [], ◌∷◌, arith, eq_iff, eq_refl,
  Bool-cases, Option-cases, any, All, ok,
}
use perk_os_nayori_platform.Prelude.Table.{lookup, lookup_key, lookup_of_any}
use perk_os_nayori_platform.Migrations.{
  MigrationFile, AppliedRow, Database, row_of, clashes, matches_file, apply_migration, find_applied,
  run_files, run_migrations,
}

abbrev version_key : AppliedRow → String
version_key r = r.version

module _ {S : Type 0} (execute : String → S → Option S) where
  -- The file's version is in the table, with its name and checksum.
  abbrev pub IsRecorded : List AppliedRow → MigrationFile → Type 0
  IsRecorded rows f =
      (r : AppliedRow) × (find_applied execute f.version rows ≡ some r) × (matches_file f r ≡ true)

  abbrev pub Keeps : List AppliedRow → List AppliedRow → Type 0
  Keeps rows rows' =
      (v : String) (r : AppliedRow)
      → find_applied execute v rows ≡ some r
      → find_applied execute v rows' ≡ some r

  apply-Keeps :
      (f : MigrationFile) (db db' : Database S)
      → apply_migration execute f db ≡ some db'
      → Keeps db.applied db'.applied × IsRecorded db'.applied f
  unfolding apply_migration lookup
  apply-Keeps f db db' h = elim (Option-cases (execute f.sql db.schema)) [
    | inl failed ↦ ground arith
    | inr (s, done) ↦
        let free : any (clashes f) db.applied ≡ false = ground arith in
        let e : db'.applied ≡ row_of f ∷ db.applied = ground arith in
        (
          λ v r found. rw e (
              ground (
                arith,
                lookup_of_any version_key (clashes f) v db.applied r free found,
                lookup_key version_key v db.applied r found,
                eq_iff f.version v,
                eq_iff r.version f.version,
              )),
          (
            row_of f,
            rw e (ground (arith, eq_refl f.version)),
            ground (arith, eq_refl f.filename, eq_refl f.checksum),
          ),
        )
  ]

  run_files_sound :
      (before : List AppliedRow) (fs : List MigrationFile) (db db' : Database S)
      → Keeps before db.applied
      → run_files execute before fs db ≡ (ok tt, db')
      → Keeps db.applied db'.applied × All (IsRecorded db'.applied) fs
  unfolding run_files
  run_files_sound before [] db db' kept h =
      let e : db ≡ db' = ground arith in (λ v r found. rw (← e) found, tt)
  run_files_sound before (f ∷ fs) db db' kept h =
      elim (Option-cases (find_applied execute f.version before)) [
        | inr (r, known) ↦ elim (Bool-cases (matches_file f r)) [
          | inr differs ↦ ground arith
          | inl same ↦
              let (grown, rest) = run_files_sound before fs db db' kept (ground arith) in
              (grown, ((r, grown f.version r (kept f.version r known), same), rest))
        ]
        | inl new ↦ elim (Option-cases (apply_migration execute f db)) [
          | inl failed ↦ ground arith
          | inr (db1, done) ↦
              let (kept1, (r, found, same)) = apply-Keeps f db db1 done in
              let (grown, rest) =
                run_files_sound before fs db1 db' (λ v s known. kept1 v s (kept v s known))
                  (ground arith) in
              (λ v s known. grown v s (kept1 v s known), ((r, grown f.version r found, same), rest))
        ]
      ]

  run_files_again :
      (fs : List MigrationFile) (db : Database S)
      → All (IsRecorded db.applied) fs
      → run_files execute db.applied fs db ≡ (ok tt, db)
  unfolding run_files
  run_files_again [] db recorded = refl
  run_files_again (f ∷ fs) db ((r, found, same), recorded) =
      let rest = run_files_again fs db recorded in ground (arith, rest)

  -- After a run that succeeds, every migration of the repository is recorded as applied, with its
  -- file name and checksum, what was applied before is still recorded, and a further run with the
  -- same files succeeds and executes nothing.
  pub run_migrations_lem :
      (fs : List MigrationFile) (db db' : Database S)
      → run_migrations execute fs db ≡ (ok tt, db')
      → Keeps db.applied db'.applied
        × All (IsRecorded db'.applied) fs
        × (run_migrations execute fs db' ≡ (ok tt, db'))
  unfolding run_migrations
  run_migrations_lem [] db db' h = ground arith
  run_migrations_lem (f ∷ fs) db db' h =
      let (kept, recorded) = run_files_sound db.applied (f ∷ fs) db db' (λ v r found. found) h in
      (kept, recorded, run_files_again (f ∷ fs) db' recorded)
