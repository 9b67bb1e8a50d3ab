-- ===== src/Portfolio/Config.antt =====
-- The configuration and the sectors of the report (internal/portfolio/concentration.go).
use optix.Base.{ℕ, List, [], ◌∷◌, Option, none, some, ◌==◌, if◌then◌else◌}
use optix.Base.Text.{Text, text_eq, to_upper, codes}
use optix.Portfolio.Types.{Config, SectorMap}

abbrev pub default_config : Config
default_config = record {
  warn_pct = 1000;
  red_pct = 2000;
  top_n = 10;
  top2_warn_pct = 3000;
  top5_warn_pct = 6000;
  hhi_diversified_max = 15000000;
  hhi_concentrated_min = 25000000;
}

abbrev pub or_default : ℕ → ℕ → ℕ
or_default n d = if n == 0 then d else n

unfoldable pub apply_config_defaults : Config → Config
apply_config_defaults cfg =
    let d = default_config in
    record {
      warn_pct = or_default cfg.warn_pct d.warn_pct;
      red_pct = or_default cfg.red_pct d.red_pct;
      top_n = or_default cfg.top_n d.top_n;
      top2_warn_pct = or_default cfg.top2_warn_pct d.top2_warn_pct;
      top5_warn_pct = or_default cfg.top5_warn_pct d.top5_warn_pct;
      hhi_diversified_max = or_default cfg.hhi_diversified_max d.hhi_diversified_max;
      hhi_concentrated_min = or_default cfg.hhi_concentrated_min d.hhi_concentrated_min;
    }

unfoldable pub entry_of : Text → List (Text × Text) → Option Text
unfolding text_eq
entry_of t [] = none
entry_of t ((u, s) ∷ m) = if text_eq t u then some s else entry_of t m

unfoldable pub sector_of : Option SectorMap → Text → Text
unfolding entry_of to_upper
sector_of none t = codes "unclassified"
sector_of (some sm) t = elim (entry_of (to_upper t) sm.ticker_sectors) [
  | none ↦ codes "unclassified"
  | some s ↦ s
]

unfoldable pub label_of : Option SectorMap → Text → Text
unfolding entry_of text_eq
label_of none s = s
label_of (some sm) s = elim (entry_of s sm.sector_labels) [
  | none ↦ if text_eq s (codes "unclassified") then codes "Unclassified" else s
  | some l ↦ l
]
