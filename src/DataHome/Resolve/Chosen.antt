-- ===== src/DataHome/Resolve/Chosen.antt =====
-- Which database is chosen.
use optix.Base.{
  ◌≡◌, refl, subst, true, false, ◌&&◌, not, List, [], ◌∷◌, ◌⊎◌, inl, inr, Option, none, some,
  Bool-cases, Option-cases, All,
}
use optix.Base.Text.{Text, text_eq, text_eq→eq}
use optix.DataHome.Resolve.{
  Options, Source, Resolution, Paths, Stat, present, absent, unreadable, ResolveError, Resolved,
  resolved, refused, check_legacy, default_path, resolve_default, resolve,
}

-- No other database stands at a legacy path.
abbrev pub IsFree : Paths → Text → Text → Type 0
IsFree os path p =
    ((a : Text) × (os.abs p ≡ some a) × (text_eq a path ≡ true)) ⊎ (os.lstat p ≡ absent)

Stat-cases : (x : Stat) → (x ≡ present) ⊎ ((x ≡ absent) ⊎ (x ≡ unreadable))
Stat-cases present = inl refl
Stat-cases absent = inr (inl refl)
Stat-cases unreadable = inr (inr refl)

HasChecked : Paths → Text → List Text → Option ResolveError → Type 0
HasChecked os path ps none = All (IsFree os path) ps
HasChecked os path ps (some e) = Unit

module _ (os : Paths) (path p : Text) (ps : List Text) where
  go_on :
      (o : Option ResolveError)
      → IsFree os path p
      → HasChecked os path ps o
      → HasChecked os path (p ∷ ps) o
  unfolding HasChecked
  go_on none h k = (h, k)
  go_on (some e) h k = tt

  checked_one :
      HasChecked os path ps (check_legacy os path ps)
      → HasChecked os path (p ∷ ps) (check_legacy os path (p ∷ ps))
  unfolding check_legacy HasChecked
  checked_one h = elim (Option-cases (os.abs p)) [
    | inl e ↦ rw (e, check_legacy, HasChecked) tt
    | inr (a, e) ↦ elim (Bool-cases (text_eq a path)) [
      | inl same ↦ rw (e, same, check_legacy) (go_on _ (inl (a, e, same)) h)
      | inr other ↦ elim (Stat-cases (os.lstat p)) [
        | inl s ↦ rw (e, other, s, check_legacy, HasChecked) tt
        | inr (inl s) ↦ rw (e, other, s, check_legacy) (go_on _ (inr s) h)
        | inr (inr s) ↦ rw (e, other, s, check_legacy, HasChecked) tt
      ]
    ]
  ]

check_legacy-HasChecked :
    (os : Paths) (path : Text) (ps : List Text) → HasChecked os path ps (check_legacy os path ps)
unfolding check_legacy HasChecked
check_legacy-HasChecked os path [] = tt
check_legacy-HasChecked os path (p ∷ ps) =
    checked_one os path p ps (check_legacy-HasChecked os path ps)

-- What a choice means.
abbrev pub IsChosen : Paths → Options → Resolution → Type 0
IsChosen os o r = elim r.source [
  | Source.flag ↦ (r.path ≡ o.flag) × (text_eq o.flag [] ≡ false)
  | Source.environment ↦ (r.path ≡ o.env) × (text_eq o.env [] ≡ false) × (o.flag ≡ [])
  | Source.config ↦
      (r.path ≡ o.config) × (text_eq o.config [] ≡ false) × (o.flag ≡ []) × (o.env ≡ [])
  | Source.default ↦
      (r.path ≡ default_path os o)
      × (o.flag ≡ [])
      × (o.env ≡ [])
      × (o.config ≡ [])
      × All (IsFree os r.path) o.legacy
]

IsAnswer : Paths → Options → Resolved → Type 0
IsAnswer os o (resolved r) = IsChosen os o r
IsAnswer os o (refused e) = Unit

resolve_default-IsAnswer :
    (os : Paths) (o : Options)
    → o.flag ≡ []
    → o.env ≡ []
    → o.config ≡ []
    → IsAnswer os o (resolve_default os o)
unfolding resolve_default IsAnswer
resolve_default-IsAnswer os o f v c = elim (Bool-cases (text_eq o.home [])) [
  | inl h ↦ rw (h, resolve_default, IsAnswer) tt
  | inr h ↦ elim (Bool-cases (not (text_eq o.xdg []) && not (os.is_abs o.xdg))) [
    | inl x ↦ rw (h, x, resolve_default, IsAnswer) tt
    | inr x ↦ elim (Option-cases (check_legacy os (default_path os o) o.legacy)) [
      | inr (e, l) ↦ rw (h, x, l, resolve_default, IsAnswer) tt
      | inl l ↦
          let free =
            subst (HasChecked os (default_path os o) o.legacy) l
              (check_legacy-HasChecked os (default_path os o) o.legacy) in
          rw (h, x, l, resolve_default, IsAnswer) (refl, f, v, c, unfold HasChecked in free)
    ]
  ]
]

resolve-IsAnswer : (os : Paths) (o : Options) → IsAnswer os o (resolve os o)
unfolding resolve IsAnswer
resolve-IsAnswer os o = elim (Bool-cases (text_eq o.flag [])) [
  | inr f ↦ rw (f, resolve, IsAnswer) (refl, f)
  | inl f ↦ elim (Bool-cases (text_eq o.env [])) [
    | inr v ↦ rw (f, v, resolve, IsAnswer) (refl, v, text_eq→eq o.flag [] f)
    | inl v ↦ elim (Bool-cases (text_eq o.config [])) [
      | inr c ↦
          rw (f, v, c, resolve, IsAnswer) (refl, c, text_eq→eq o.flag [] f, text_eq→eq o.env [] v)
      | inl c ↦
          rw (f, v, c, resolve)
            (resolve_default-IsAnswer os o (text_eq→eq o.flag [] f) (text_eq→eq o.env [] v)
              (text_eq→eq o.config [] c))
    ]
  ]
]

-- A database that is resolved is the path of the flag, of the environment or of the configuration, the first
-- of them that is not empty; or, where all three are empty, it is the default path, and at every legacy
-- path there is no file, or the path is the default one.
pub resolve-IsChosen :
    (os : Paths) (o : Options) (r : Resolution) → resolve os o ≡ resolved r → IsChosen os o r
unfolding IsAnswer
resolve-IsChosen os o r h = subst (IsAnswer os o) h (resolve-IsAnswer os o)
