-- ===== src/DataHome/Tests.antt =====
-- A choice of the database, and its migration.
use optix.Base.{◌≡◌, refl, true, false, List, [], ◌∷◌, ◌++◌, none, some}
use optix.Base.Text.{Text, text_eq, codes}
use optix.DataHome.Resolve.{
  Options, Source, Resolution, Paths, absent, resolved, resolve, default_path, check_legacy,
}
use optix.DataHome.Resolve.Chosen.{IsChosen, resolve-IsChosen}
use optix.DataHome.Migrate.{Content, Steps, file_at, migrate}
use optix.DataHome.Migrate.Published.{IsMigrated, migrate-IsMigrated, migrate-keeps}

abbrev joined : List Text → Text
joined [] = []
joined (p ∷ ps) = codes "/" ++ p ++ joined ps

abbrev machine : Paths
machine = record { join = joined; is_abs = λ p. true; abs = λ p. some p; lstat = λ p. absent }

abbrev options : Options
options = record {
  flag = [];
  env = [];
  config = [];
  home = codes "h";
  xdg = [];
  os = codes "linux";
  legacy = codes "data" ∷ [];
}

abbrev chosen : Resolution
chosen = record { path = default_path machine options; source = Source.default }

options-resolve : resolve machine options ≡ resolved chosen
unfolding resolve check_legacy text_eq
options-resolve = refl

resolve-IsChosen_example : IsChosen machine options chosen
resolve-IsChosen_example = resolve-IsChosen machine options chosen options-resolve

abbrev steps : Steps
steps = record {
  source_abs = true;
  source_stat = true;
  is_regular = true;
  lstat_fails = λ p. false;
  cancelled_before = false;
  makes_directory = true;
  makes_stage = true;
  opens_source = true;
  snapshot = some (codes "rows");
  chmods = true;
  opens_backup = true;
  checks = true;
  is_sound = true;
  copies = true;
  copied = codes "rows";
  reads_again = true;
  digest = λ c. c;
  syncs = true;
  cancelled_after = false;
  others = λ files. files;
  links = true;
  left_stage = none;
  removes_pending = true;
  syncs_directory = true;
}

abbrev old_files : List (Text × Content)
old_files = (codes "old.db", codes "rows") ∷ []

migrated :
    (migrate steps (some (codes "new.db")) old_files).1.files
    ≡ (codes "new.db", codes "rows") ∷ old_files
unfolding migrate text_eq
migrated = refl

migrate-IsMigrated_example :
    IsMigrated steps (codes "new.db") old_files (migrate steps (some (codes "new.db")) old_files)
migrate-IsMigrated_example = migrate-IsMigrated steps (codes "new.db") old_files

old_there : file_at (codes "old.db") old_files ≡ some (codes "rows")
unfolding file_at text_eq
old_there = refl

migrate-keeps_example :
    file_at (codes "old.db") (migrate steps (some (codes "old.db")) old_files).1.files
    ≡ some (codes "rows")
migrate-keeps_example =
    migrate-keeps steps (some (codes "old.db")) (codes "old.db") old_files (codes "rows") old_there
      old_there
