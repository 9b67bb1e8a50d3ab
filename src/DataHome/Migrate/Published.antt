-- ===== src/DataHome/Migrate/Published.antt =====
-- What a migration does to the files.
use optix.Base.{
  ◌≡◌, refl, sym, ap, ◌∙◌, true, false, ◌||◌, not, List, [], ◌∷◌, ◌⊎◌, inl, inr, Option, none, some,
  arith, Bool-cases, Option-cases, if◌then◌else◌,
}
use mathlib.Core.Bool.{false≢true}
use optix.Base.Text.{Text, text_eq, text_eq→eq}
use optix.DataHome.Migrate.{
  Content, Disk, Steps, MigrateResult, refused, published, file_at, is_file, first_error, sidecars,
  check_absent, preflight, verify, publish, build, migrate,
}

verify-none :
    (s : Steps) (backup : Content)
    → verify s backup ≡ none
    → (s.is_sound ≡ true) × (text_eq (s.digest backup) (s.digest s.copied) ≡ true)
unfolding verify first_error
verify-none s backup h = ground arith

-- The record of a migration.
abbrev pub IsMigrated : Steps → Text → List (Text × Content) → MigrateResult × Disk → Type 0
IsMigrated s dst files (refused e, d) =
    ((d.stage ≡ none) ⊎ (d.stage ≡ s.left_stage)) × ((d.files ≡ files) ⊎ (d.files ≡ s.others files))
IsMigrated s dst files (published ok, d) =
    (backup : Content) × (s.snapshot ≡ some backup)
    × (s.is_sound ≡ true)
    × (text_eq (s.digest backup) (s.digest s.copied) ≡ true)
    × (is_file dst files ≡ false)
    × (is_file dst (s.others files) ≡ false)
    × (d ≡ record {
      files = (dst, s.copied) ∷ s.others files;
      stage = some (record {
        backup = some backup;
        pending = if s.removes_pending then none else some s.copied;
      });
    })

preflight-absent :
    (s : Steps) (dst : Text) (files : List (Text × Content))
    → preflight s dst files ≡ none
    → is_file dst files ≡ false
unfolding preflight check_absent sidecars first_error
preflight-absent s dst files h = ground arith

build-IsMigrated :
    (s : Steps) (dst : Text) (files : List (Text × Content))
    → is_file dst files ≡ false
    → IsMigrated s dst files (build s dst files)
unfolding build publish
build-IsMigrated s dst files h = elim (Bool-cases s.opens_source) [
  | inr e ↦ rw e (inr refl, inl refl)
  | inl e ↦ elim (Option-cases s.snapshot) [
    | inl k ↦ rw (e, k) (inr refl, inl refl)
    | inr (backup, k) ↦ elim (Option-cases (verify s backup)) [
      | inr (error, v) ↦ rw (e, k, v) (inr refl, inl refl)
      | inl v ↦ elim (Bool-cases (is_file dst (s.others files) || not s.links)) [
        | inl l ↦ rw (e, k, v, l) (inr refl, inr refl)
        | inr l ↦
            let (sound, same) = verify-none s backup v in
            rw (e, k, v, l) (backup, k, sound, same, h, ground arith, refl)
      ]
    ]
  ]
]

-- A migration to a path that is refused before its copy is published leaves no stage, or what the
-- removal of the stage leaves of it, and leaves the files as they are or as other processes make them
-- meanwhile: it adds none. One that publishes its copy, whether or not it returns an error after that,
-- found no file at the destination, at first and at the last moment, adds the copy there and nothing
-- else, and keeps the backup, with the other copy where that is not removed; the snapshot of the source
-- passed its integrity check, and the copy has its digest.
pub migrate-IsMigrated :
    (s : Steps) (dst : Text) (files : List (Text × Content))
    → IsMigrated s dst files (migrate s (some dst) files)
unfolding migrate
migrate-IsMigrated s dst files = elim (Option-cases (preflight s dst files)) [
  | inr (e, h) ↦ rw (h, migrate, IsMigrated) (inl refl, inl refl)
  | inl h ↦ rw (h, migrate) (build-IsMigrated s dst files (preflight-absent s dst files h))
]

file_at-is_file :
    (p : Text) (files : List (Text × Content)) (c : Content)
    → file_at p files ≡ some c
    → is_file p files ≡ true
unfolding file_at is_file
file_at-is_file p [] c h = cc
file_at-is_file p ((q, x) ∷ files) c h = ground (arith, file_at-is_file p files c)

still_at :
    (s : Steps) (dst p : Text) (files : List (Text × Content)) (c : Content)
    (run : MigrateResult × Disk)
    → IsMigrated s dst files run
    → file_at p files ≡ some c
    → file_at p (s.others files) ≡ some c
    → file_at p run.1.files ≡ some c
unfolding file_at
still_at s dst p files c (refused e, d) (_, inl same) h k = ap (file_at p) same ∙ h
still_at s dst p files c (refused e, d) (_, inr same) h k = ap (file_at p) same ∙ k
still_at s dst p files c (published ok, d) (backup, _, _, _, _, new, same) h k =
    ap (λ (u : Disk). file_at p u.files) same ∙ elim (Bool-cases (text_eq p dst)) [
      | inl e ↦
          let there : is_file dst (s.others files) ≡ true =
            ap (λ t. is_file t (s.others files)) (sym (text_eq→eq p dst e))
            ∙ file_at-is_file p (s.others files) c k in
          absurd (false≢true (sym new ∙ there))
      | inr e ↦ ground (arith, e, k)
    ]

-- A migration, to whatever path and whatever it meets, leaves what is in each file that is there and
-- that no other process changes: the source, and a file at the destination.
pub migrate-keeps :
    (s : Steps) (dst : Option Text) (p : Text) (files : List (Text × Content)) (c : Content)
    → file_at p files ≡ some c
    → file_at p (s.others files) ≡ some c
    → file_at p (migrate s dst files).1.files ≡ some c
unfolding migrate
migrate-keeps s none p files c h k = h
migrate-keeps s (some dst) p files c h k =
    still_at s dst p files c (migrate s (some dst) files) (migrate-IsMigrated s dst files) h k
