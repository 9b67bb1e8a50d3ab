-- ===== src/Portfolio/Types.antt =====
-- The positions, the configuration and the report. Market values and the net liquidation value are
-- whole numbers of a smallest unit, quantities of 1e-9 of a share. A percentage of the report is in
-- hundredths of a percent and is kept as its numerator over the net liquidation value, 10000 times
-- the value that it is of; the HHI, in squared hundredths, is the numerator over the square of that
-- value. Thresholds are in the same hundredths, and not negative.
use optix.Base.{ℕ, Bool, List}
use optix.Base.Int.{ℤ}
use optix.Base.Text.{Text}

-- A float64, which may be NaN or infinite.
pub data Mark : Type 0 where
  finite : ℤ → Mark
  not_finite : Mark

pub record Position : Type 0 where
  pub symbol : Text
  pub sec_type : Text
  pub expiration : Text
  pub strike : ℤ
  pub right : Text
  pub quantity : ℤ
  pub currency : Text
  pub market_value : Mark

pub record Config : Type 0 where
  pub warn_pct : ℕ
  pub red_pct : ℕ
  pub top_n : ℕ
  pub top2_warn_pct : ℕ
  pub top5_warn_pct : ℕ
  pub hhi_diversified_max : ℕ
  pub hhi_concentrated_min : ℕ

pub record SectorMap : Type 0 where
  pub sector_labels : List (Text × Text)
  pub ticker_sectors : List (Text × Text)

pub record UnderlyingGroup : Type 0 where
  pub ticker : Text
  pub abs_market_value : ℕ
  pub net_market_value : ℤ
  pub weight_pct : ℕ
  pub stock_leg_count : ℕ
  pub option_leg_count : ℕ
  pub has_missing_mark : Bool

pub record SectorGroup : Type 0 where
  pub sector_id : Text
  pub sector_label : Text
  pub abs_market_value : ℕ
  pub weight_pct : ℕ
  pub tickers : List Text

pub data Level : Type 0 where
  warn red : Level

-- What the message of a flag says: the percentage that is over its threshold.
pub data Breach : Type 0 where
  single : Text → ℕ → ℕ → Breach
  top2 top5 : ℕ → ℕ → Breach

pub record Flag : Type 0 where
  pub level : Level
  pub message : Breach

pub data HhiBucket : Type 0 where
  diversified moderate concentrated : HhiBucket

pub record Report : Type 0 where
  pub net_liq : ℤ
  pub deployed : ℕ
  pub deployed_pct : ℕ
  pub cash : ℕ
  pub cash_pct : ℕ
  pub underlyings : List UnderlyingGroup
  pub sectors : List SectorGroup
  pub top2_pct : ℕ
  pub top5_pct : ℕ
  pub top_n_pct : ℕ
  pub top_n : ℕ
  pub hhi : ℕ
  pub hhi_bucket : HhiBucket
  pub flags : List Flag
  pub missing_mark_tickers : List Text
  pub missing_mark_leg_counts : List (Text × ℕ)
  pub currency_mismatch_tickers : List Text
  pub currency_mismatch_by_ticker : List (Text × Text)
  pub used_config : Config
