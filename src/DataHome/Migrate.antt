-- ===== src/DataHome/Migrate.antt =====
-- The migration of the database (internal/datahome/migrate.go). What a file system and a database
-- answer at each step is a parameter, and so are the digest and what other processes do to the files
-- before the copy is published. The files of the stage stand apart: MkdirTemp makes a directory that
-- was not there. A directory is no file here.
pub mod Published
use optix.Base.{
  Bool, true, false, ◌||◌, not, List, [], ◌∷◌, ◌++◌, Option, none, some, if◌then◌else◌,
}
use optix.Base.Text.{Text, text_eq, codes}

-- The bytes of a file.
abbrev pub Content : Type 0
Content = Text

pub record Stage : Type 0 where
  pub backup : Option Content
  pub pending : Option Content

pub record Disk : Type 0 where
  pub files : List (Text × Content)
  pub stage : Option Stage

unfoldable pub file_at : Text → List (Text × Content) → Option Content
unfolding text_eq
file_at p [] = none
file_at p ((q, c) ∷ fs) = let rest = file_at p fs in if text_eq p q then some c else rest

unfoldable pub is_file : Text → List (Text × Content) → Bool
unfolding text_eq
is_file p [] = false
is_file p ((q, c) ∷ fs) = text_eq p q || is_file p fs

-- The answers of the steps; `snapshot` is what VACUUM INTO writes, and `copied` what the copy of it
-- holds when it is read again; `left_stage` is what `os.RemoveAll` leaves of the stage, nothing where it
-- succeeds. Its error and that of `os.Remove` are ignored.
pub record Steps : Type 0 where
  pub source_abs : Bool
  pub source_stat : Bool
  pub is_regular : Bool
  pub lstat_fails : Text → Bool
  pub cancelled_before : Bool
  pub makes_directory : Bool
  pub makes_stage : Bool
  pub opens_source : Bool
  pub snapshot : Option Content
  pub chmods : Bool
  pub opens_backup : Bool
  pub checks : Bool
  pub is_sound : Bool
  pub copies : Bool
  pub copied : Content
  pub reads_again : Bool
  pub digest : Content → Text
  pub syncs : Bool
  pub cancelled_after : Bool
  pub others : List (Text × Content) → List (Text × Content)
  pub links : Bool
  pub left_stage : Option Stage
  pub removes_pending : Bool
  pub syncs_directory : Bool

pub data MigrateError : Type 0 where
  bad_path bad_source not_regular destination_exists stat_failed cancelled : MigrateError
  no_directory no_stage no_source no_snapshot no_chmod no_backup no_check unsound : MigrateError
  no_copy not_read_again checksum_mismatch not_synced not_linked : MigrateError

-- The backup is returned with or without an error once the copy is published.
pub data MigrateResult : Type 0 where
  refused : MigrateError → MigrateResult
  published : Bool → MigrateResult

-- The first test that holds.
unfoldable pub first_error : List (Bool × MigrateError) → Option MigrateError
first_error [] = none
first_error ((b, e) ∷ tests) = let rest = first_error tests in if b then some e else rest

-- The destination and its sidecars.
unfoldable pub sidecars : Text → List Text
sidecars dst = dst ∷ (dst ++ codes "-wal") ∷ (dst ++ codes "-shm") ∷ (dst ++ codes "-journal") ∷ []

unfoldable pub check_absent : Steps → List (Text × Content) → List Text → Option MigrateError
unfolding is_file
check_absent s files [] = none
check_absent s files (p ∷ ps) =
    let rest = check_absent s files ps in
    if is_file p files
    then some destination_exists
    else if s.lstat_fails p
    then some stat_failed
    else rest

-- What is tested before there is a stage; `dst` is the absolute path of the destination.
unfoldable pub preflight : Steps → Text → List (Text × Content) → Option MigrateError
unfolding first_error check_absent sidecars
preflight s dst files =
    elim (first_error (
      (not s.source_abs, bad_path)
      ∷ (not s.source_stat, bad_source)
      ∷ (not s.is_regular, not_regular)
      ∷ [])) [
        | some e ↦ some e
        | none ↦ elim (check_absent s files (sidecars dst)) [
          | some e ↦ some e
          | none ↦ first_error (
              (s.cancelled_before, cancelled)
              ∷ (not s.makes_directory, no_directory)
              ∷ (not s.makes_stage, no_stage)
              ∷ [])
        ]
      ]

-- The steps in the stage, from the snapshot on.
unfoldable pub verify : Steps → Content → Option MigrateError
unfolding first_error text_eq
verify s backup = first_error (
    (not s.chmods, no_chmod)
    ∷ (not s.opens_backup, no_backup)
    ∷ (not s.checks, no_check)
    ∷ (not s.is_sound, unsound)
    ∷ (not s.copies, no_copy)
    ∷ (not s.reads_again, not_read_again)
    ∷ (not (text_eq (s.digest backup) (s.digest s.copied)), checksum_mismatch)
    ∷ (not s.syncs, not_synced)
    ∷ (s.cancelled_after, cancelled)
    ∷ [])

-- `os.Link(pending, dst)`, which fails where there is a file, and what follows it.
unfoldable pub publish : Steps → Text → Content → List (Text × Content) → MigrateResult × Disk
unfolding is_file
publish s dst backup files =
    if is_file dst files || not s.links
    then (refused not_linked, record { files = files; stage = s.left_stage })
    else (
      published s.syncs_directory,
      record {
        files = (dst, s.copied) ∷ files;
        stage = some (record {
          backup = some backup;
          pending = if s.removes_pending then none else some s.copied;
        });
      },
    )

-- The stage is removed where the copy is not published.
unfoldable pub build : Steps → Text → List (Text × Content) → MigrateResult × Disk
unfolding verify publish
build s dst files =
    if not s.opens_source
    then (refused no_source, record { files = files; stage = s.left_stage })
    else elim s.snapshot [
      | none ↦ (refused no_snapshot, record { files = files; stage = s.left_stage })
      | some backup ↦ elim (verify s backup) [
        | some e ↦ (refused e, record { files = files; stage = s.left_stage })
        | none ↦ publish s dst backup (s.others files)
      ]
    ]

unfoldable pub migrate : Steps → Option Text → List (Text × Content) → MigrateResult × Disk
unfolding preflight build
migrate s none files = (refused bad_path, record { files = files; stage = none })
migrate s (some dst) files = elim (preflight s dst files) [
  | some e ↦ (refused e, record { files = files; stage = none })
  | none ↦ build s dst files
]
