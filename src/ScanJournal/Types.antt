-- ===== src/ScanJournal/Types.antt =====
-- The data of the scan journal (pkg/model/scanjournal.go, internal/scanjournal/register.go).
-- Prices and percentages are whole numbers of a smallest unit; a quotient is kept as a numerator
-- over a denominator. A date is its text in the layout 2006-01-02, as the program stores it.
use optix.Base.{Bool, List, Option}
use optix.Base.Int.{ℤ}
use optix.Base.Text.{Text}
use optix.Base.Time.{Instant}

pub record Ratio : Type 0 where
  pub num : ℤ
  pub den : ℤ

-- What `CandidateID` prints, in its order.
pub record CandidateId : Type 0 where
  pub scan_date : Text
  pub symbol : Text
  pub expiry : Text
  pub strike : ℤ

pub record CandidateInput : Type 0 where
  pub rank : ℤ
  pub symbol : Text
  pub expiry : Text
  pub dte : ℤ
  pub strike : ℤ
  pub spot : ℤ
  pub bid : ℤ
  pub ask : Option ℤ
  pub mid : Option ℤ
  pub iv : Option ℤ
  pub delta : Option ℤ
  pub oi : Option ℤ
  pub volume : Option ℤ
  pub cushion_pct : ℤ
  pub premium_yield_pct : ℤ
  pub annualized_yield_pct : ℤ
  pub score : ℤ
  pub ibkr_bid : Option ℤ
  pub ibkr_ask : Option ℤ
  pub ibkr_option_iv : Option ℤ
  pub ibkr_option_delta : Option ℤ

pub record RegisterPayload : Type 0 where
  pub scan_date : Text
  pub symbol_source : Text
  pub candidates : List CandidateInput

-- `input` holds the fields that `Register` copies; `symbol` is the normalised one.
pub record ScanCandidate : Type 0 where
  pub candidate_id : CandidateId
  pub scan_date : Text
  pub symbol : Text
  pub right : Text
  pub input : CandidateInput
  pub symbol_source : Text
  pub created_at : Instant

pub data Outcome : Type 0 where
  hit miss void : Outcome

pub record ScanReconciliation : Type 0 where
  pub candidate_id : CandidateId
  pub expiry_close : ℤ
  pub outcome : Outcome
  pub realized_pnl : ℤ
  pub touched : Bool
  pub max_breach_pct : Ratio
  pub expiry_basis : Text
  pub settled_at : Instant

-- A daily bar, with the UTC day of its timestamp.
pub record Bar : Type 0 where
  pub date : Text
  pub low : ℤ
  pub close : ℤ
