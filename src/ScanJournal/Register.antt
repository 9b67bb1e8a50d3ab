-- ===== src/ScanJournal/Register.antt =====
-- `Register` (internal/scanjournal/register.go): the whole batch is checked before the store is
-- touched.
pub mod Again
use optix.Base.{
  ℕ, suc, ◌+◌, Bool, true, false, ◌||◌, not, List, [], ◌∷◌, ◌⊎◌, inl, inr, Option, none, some,
  if◌then◌else◌, keep,
}
use optix.Base.Int.{ℤ, pos, eqb_ℤ, ltb_ℤ}
use optix.Base.Text.{Text, text_lt, trim_space, to_upper, is_space, codes}
use optix.Base.Time.{Instant, parse_iso}
use optix.ScanJournal.Types.{CandidateId, CandidateInput, RegisterPayload, ScanCandidate}
use optix.ScanJournal.Store.{Store, insert_scan_candidates}

-- `NormalizeSymbol`
unfoldable pub normalize_symbol : Text → Text
unfolding to_upper is_space
normalize_symbol s = to_upper (keep (λ c. not (is_space c)) s)

-- The errors, with the position of the candidate, from 1.
pub data RegisterError : Type 0 where
  invalid_scan_date no_candidates : RegisterError
  empty_symbol rank_not_contiguous strike_or_spot_not_positive : ℕ → RegisterError
  bid_not_positive invalid_expiry expiry_not_after_scan : ℕ → RegisterError

pub record RegisterResult : Type 0 where
  pub registered : ℕ
  pub skipped : ℕ
  pub scan_date : Text

abbrev is_blank : Text → Bool
is_blank [] = true
is_blank (c ∷ s) = false

abbrev pub is_date : Text → Bool
is_date s = elim (parse_iso s) [ some d ↦ true | none ↦ false ]

-- The first check that a candidate fails, where it fails one.
unfoldable pub check_input : Text → ℕ → CandidateInput → Option RegisterError
unfolding normalize_symbol
check_input scan_date i in_ =
    if is_blank (normalize_symbol in_.symbol)
    then some (empty_symbol i)
    else if not (eqb_ℤ in_.rank (pos i))
    then some (rank_not_contiguous i)
    else if not (ltb_ℤ (pos 0) in_.strike) || not (ltb_ℤ (pos 0) in_.spot)
    then some (strike_or_spot_not_positive i)
    else if not (ltb_ℤ (pos 0) in_.bid)
    then some (bid_not_positive i)
    else if not (is_date in_.expiry)
    then some (invalid_expiry i)
    else if not (text_lt scan_date in_.expiry)
    then some (expiry_not_after_scan i)
    else none

unfoldable pub candidate_of : Text → Text → Instant → CandidateInput → ScanCandidate
unfolding normalize_symbol trim_space
candidate_of scan_date source now in_ = record {
  candidate_id = record {
    scan_date = scan_date;
    symbol = normalize_symbol in_.symbol;
    expiry = in_.expiry;
    strike = in_.strike;
  };
  scan_date = scan_date;
  symbol = normalize_symbol in_.symbol;
  right = codes "P";
  input = in_;
  symbol_source = trim_space source;
  created_at = now;
}

-- The loop over the payload, from its `i`th candidate.
unfoldable pub build :
    Text → Text → Instant → ℕ → List CandidateInput → RegisterError ⊎ List ScanCandidate
unfolding check_input candidate_of
build scan_date source now i [] = inr []
build scan_date source now i (in_ ∷ ins) =
    let rest = build scan_date source now (suc i) ins in
    elim (check_input scan_date i in_) [
      | some e ↦ inl e
      | none ↦ elim rest [
        | inl e ↦ inl e
        | inr cs ↦ inr (candidate_of scan_date source now in_ ∷ cs)
      ]
    ]

-- The date in the payload, or today's in New York.
unfoldable pub scan_date_of : Text → Text → Option Text
unfolding trim_space
scan_date_of today given =
    let d = trim_space given in
    if is_blank d then some today else if is_date d then some d else none

unfoldable pub register_on :
    Text → Instant → RegisterPayload → Store → (RegisterError ⊎ RegisterResult) × Store
unfolding build insert_scan_candidates
register_on scan_date now p st =
    if (elim p.candidates [ [] ↦ true | c ∷ cs ↦ false ])
    then (inl no_candidates, st)
    else elim (build scan_date p.symbol_source now 1 p.candidates) [
      | inl e ↦ (inl e, st)
      | inr cs ↦
          let ((registered, skipped), st') = insert_scan_candidates cs st in
          (inr (record { registered = registered; skipped = skipped; scan_date = scan_date }), st')
    ]

unfoldable pub register :
    Text → Instant → RegisterPayload → Store → (RegisterError ⊎ RegisterResult) × Store
unfolding scan_date_of register_on
register today now p st = elim (scan_date_of today p.scan_date) [
  | none ↦ (inl invalid_scan_date, st)
  | some scan_date ↦ register_on scan_date now p st
]
