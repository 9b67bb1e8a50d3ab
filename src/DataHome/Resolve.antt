-- ===== src/DataHome/Resolve.antt =====
-- The choice of the database (internal/datahome/paths.go). The functions of the operating system and
-- of file paths (Join, IsAbs, Abs and Lstat) are parameters.
pub mod Chosen
use optix.Base.{Bool, true, false, ◌&&◌, not, List, [], ◌∷◌, Option, none, some, if◌then◌else◌}
use optix.Base.Text.{Text, text_eq, codes}

pub record Options : Type 0 where
  pub flag : Text
  pub env : Text
  pub config : Text
  pub home : Text
  pub xdg : Text
  pub os : Text
  pub legacy : List Text

pub data Source : Type 0 where
  flag environment config default : Source

pub record Resolution : Type 0 where
  pub path : Text
  pub source : Source

-- What `os.Lstat` finds: a file, none, or another error.
pub data Stat : Type 0 where
  present absent unreadable : Stat

pub record Paths : Type 0 where
  pub join : List Text → Text
  pub is_abs : Text → Bool
  pub abs : Text → Option Text
  pub lstat : Text → Stat

pub data ResolveError : Type 0 where
  no_home relative_xdg no_absolute_path stat_failed : ResolveError
  legacy_database : Text → ResolveError

pub data Resolved : Type 0 where
  resolved : Resolution → Resolved
  refused : ResolveError → Resolved

-- The loop over the legacy paths.
unfoldable pub check_legacy : Paths → Text → List Text → Option ResolveError
unfolding text_eq
check_legacy os path [] = none
check_legacy os path (p ∷ ps) =
    let rest = check_legacy os path ps in
    elim (os.abs p) [
      | none ↦ some no_absolute_path
      | some a ↦ if text_eq a path then rest else elim (os.lstat p) [
        | present ↦ some (legacy_database p)
        | absent ↦ rest
        | unreadable ↦ some stat_failed
      ]
    ]

-- The directory that holds the data, without XDG_DATA_HOME.
abbrev pub data_directory : Paths → Options → Text
data_directory os o =
    if text_eq o.os (codes "darwin")
    then os.join (o.home ∷ codes "Library" ∷ codes "Application Support" ∷ [])
    else os.join (o.home ∷ codes ".local" ∷ codes "share" ∷ [])

abbrev pub default_path : Paths → Options → Text
default_path os o = os.join (
    (if text_eq o.xdg [] then data_directory os o else o.xdg)
    ∷ codes "optix"
    ∷ codes "optix.db"
    ∷ [])

unfoldable pub resolve_default : Paths → Options → Resolved
unfolding check_legacy text_eq
resolve_default os o =
    let path = default_path os o in
    if text_eq o.home []
    then refused no_home
    else if not (text_eq o.xdg []) && not (os.is_abs o.xdg)
    then refused relative_xdg
    else elim (check_legacy os path o.legacy) [
      | some e ↦ refused e
      | none ↦ resolved (record { path = path; source = Source.default })
    ]

-- The first of the choices that is not empty.
unfoldable pub resolve : Paths → Options → Resolved
unfolding resolve_default text_eq
resolve os o =
    if not (text_eq o.flag [])
    then resolved (record { path = o.flag; source = Source.flag })
    else if not (text_eq o.env [])
    then resolved (record { path = o.env; source = Source.environment })
    else if not (text_eq o.config [])
    then resolved (record { path = o.config; source = Source.config })
    else resolve_default os o
