-- ===== src/ScanJournal/Settle.antt =====
-- `settleCandidate` (internal/scanjournal/reconcile.go).
pub mod Outcome
use optix.Base.{
  ℕ, suc, Bool, true, false, ◌&&◌, ◌||◌, not, List, [], ◌∷◌, Option, none, some, if◌then◌else◌,
}
use optix.Base.Int.{ℤ, pos, sub_ℕ, ◌-ℤ◌, ◌*ℤ◌, ltb_ℤ}
use optix.Base.Text.{Text, text_eq, text_lt, codes}
use optix.Base.Time.{Day, zero_time, parse_iso}
use optix.ScanJournal.Types.{Ratio, ScanCandidate, ScanReconciliation, Bar, hit, miss, void}

abbrev pub grace_days : ℕ
grace_days = 7

-- The variables of the loop over the bars.
pub record Seen : Type 0 where
  pub expiry_close : ℤ
  pub found : Bool
  pub min_low : ℤ
  pub have_low : Bool
  pub bars_in_window : ℕ

abbrev pub nothing_seen : Seen
nothing_seen = record {
  expiry_close = pos 0;
  found = false;
  min_low = pos 0;
  have_low = false;
  bars_in_window = 0;
}

abbrev pub is_expiry_bar : ScanCandidate → Bar → Bool
is_expiry_bar c b = text_eq b.date c.candidate_id.expiry && ltb_ℤ (pos 0) b.close

-- `d >= c.ScanDate && d <= c.Expiry && b.Low > 0`
abbrev pub in_window : ScanCandidate → Bar → Bool
in_window c b =
    not (text_lt b.date c.scan_date)
    && not (text_lt c.candidate_id.expiry b.date)
    && ltb_ℤ (pos 0) b.low

unfoldable pub see_close : ScanCandidate → Bar → Seen → Seen
see_close c b s = if is_expiry_bar c b then record s { expiry_close = b.close; found = true } else s

unfoldable pub see_low : ScanCandidate → Bar → Seen → Seen
see_low c b s =
    if in_window c b
    then record s {
      min_low = if not s.have_low || ltb_ℤ b.low s.min_low then b.low else s.min_low;
      have_low = true;
      bars_in_window = suc s.bars_in_window;
    }
    else s

unfoldable pub see_bars : ScanCandidate → List Bar → Seen → Seen
unfolding see_close see_low
see_bars c [] s = s
see_bars c (b ∷ bs) s = see_bars c bs (see_low c b (see_close c b s))

-- A date that does not parse is the zero time; `Sub` then stops at its longest duration, which is
-- past the days of grace too.
abbrev pub date_or_zero : Text → Day
date_or_zero d = elim (parse_iso d) [ some n ↦ n | none ↦ 366 ]

-- The row and the state that `settleCandidate` returns, and the bars seen in the window.
pub data Settlement : Type 0 where
  pending : Settlement
  voided : ScanReconciliation → Settlement
  settled : ScanReconciliation → ℕ → Settlement

unfoldable pub intrinsic : ℤ → ℤ → ℤ
intrinsic strike close = if ltb_ℤ (strike -ℤ close) (pos 0) then pos 0 else strike -ℤ close

abbrev pub zero_ratio : Ratio
zero_ratio = record { num = pos 0; den = pos 1 }

unfoldable pub void_row : ScanCandidate → ScanReconciliation
void_row c = record {
  candidate_id = c.candidate_id;
  expiry_close = pos 0;
  outcome = void;
  realized_pnl = pos 0;
  touched = false;
  max_breach_pct = zero_ratio;
  expiry_basis = codes "delayed";
  settled_at = zero_time;
}

unfoldable pub settled_row : ScanCandidate → Seen → ScanReconciliation
unfolding intrinsic
settled_row c s =
    let strike = c.candidate_id.strike in
    let touched = s.have_low && ltb_ℤ s.min_low strike in
    record {
      candidate_id = c.candidate_id;
      expiry_close = s.expiry_close;
      outcome = if ltb_ℤ strike s.expiry_close then hit else miss;
      realized_pnl = c.input.bid -ℤ intrinsic strike s.expiry_close;
      touched = touched;
      max_breach_pct =
          if touched
          then record { num = (strike -ℤ s.min_low) *ℤ pos 100; den = strike }
          else zero_ratio;
      expiry_basis = codes "delayed";
      settled_at = zero_time;
    }

-- `daysSince`: the days from the expiry to today.
unfoldable pub days_since : ScanCandidate → Text → ℤ
days_since c today = sub_ℕ (date_or_zero today) (date_or_zero c.candidate_id.expiry)

unfoldable pub settle_seen : ScanCandidate → Seen → Text → Settlement
unfolding void_row settled_row days_since
settle_seen c s today =
    if not s.found
    then if ltb_ℤ (pos grace_days) (days_since c today) then voided (void_row c) else pending
    else settled (settled_row c s) s.bars_in_window

unfoldable pub settle_candidate : ScanCandidate → List Bar → Text → Settlement
unfolding settle_seen see_bars
settle_candidate c bars today = settle_seen c (see_bars c bars nothing_seen) today
