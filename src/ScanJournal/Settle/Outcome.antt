-- ===== src/ScanJournal/Settle/Outcome.antt =====
-- What `settleCandidate` makes of the bars.
use optix.Base.{
  ℕ, ◌≡◌, ◌↔◌, refl, Bool, true, false, ◌&&◌, ◌||◌, not, List, [], ◌∷◌, arith, ◌⊎◌, inl,
}
use optix.Base.Int.{ℤ, pos, ◌≤ℤ◌, ltb_ℤ, eqb_ℤ, int_laws}
use optix.Base.Text.{Text}
use optix.ScanJournal.Types.{ScanCandidate, ScanReconciliation, Bar, hit}
use optix.ScanJournal.Settle.{
  Seen, nothing_seen, is_expiry_bar, in_window, see_close, see_low, see_bars, Settlement, pending,
  voided, settled, intrinsic, settled_row, settle_seen, settle_candidate, days_since, grace_days,
}

-- Some bar passes a test.
abbrev pub any : (Bar → Bool) → List Bar → Bool
any p [] = false
any p (b ∷ bs) = p b || any p bs

abbrev pub is_below : ScanCandidate → Bar → Bool
is_below c b = in_window c b && ltb_ℤ b.low c.candidate_id.strike

abbrev touched_by : ScanCandidate → Seen → Bool
touched_by c s = s.have_low && ltb_ℤ s.min_low c.candidate_id.strike

see_bars-found :
    (c : ScanCandidate) (bs : List Bar) (s : Seen)
    → (see_bars c bs s).found ≡ (s.found || any (is_expiry_bar c) bs)
unfolding see_bars see_close see_low
see_bars-found c [] s = ground arith
see_bars-found c (b ∷ bs) s = ground (arith, see_bars-found c bs (see_low c b (see_close c b s)))

see_bars-touched :
    (c : ScanCandidate) (bs : List Bar) (s : Seen)
    → touched_by c (see_bars c bs s) ≡ (touched_by c s || any (is_below c) bs)
unfolding see_bars see_close see_low
see_bars-touched c [] s = ground arith
see_bars-touched c (b ∷ bs) s =
    ground (arith, see_bars-touched c bs (see_low c b (see_close c b s)))

abbrev pub is_priced : ScanCandidate → ℤ → Bar → Bool
is_priced c close b = is_expiry_bar c b && eqb_ℤ b.close close

see_bars-priced :
    (c : ScanCandidate) (bs : List Bar) (s : Seen)
    → (((see_bars c bs s).expiry_close ≡ s.expiry_close) × ((see_bars c bs s).found ≡ s.found))
      ⊎ (any (is_priced c (see_bars c bs s).expiry_close) bs ≡ true)
unfolding see_bars see_close see_low
see_bars-priced c [] s = inl (refl, refl)
see_bars-priced c (b ∷ bs) s = ground (arith, see_bars-priced c bs (see_low c b (see_close c b s)))

abbrev pub is_settled : Settlement → Bool
is_settled pending = false
is_settled (voided row) = false
is_settled (settled row n) = true

abbrev pub is_voided : Settlement → Bool
is_voided pending = false
is_voided (voided row) = true
is_voided (settled row n) = false

-- A candidate is settled just where one of the bars is that of its expiry, with a positive close;
-- it is voided just where none is and more than the seven days of grace have passed since the
-- expiry. Otherwise it stays pending.
pub settle_candidate_states :
    (c : ScanCandidate) (bars : List Bar) (today : Text)
    → (is_settled (settle_candidate c bars today) ≡ any (is_expiry_bar c) bars)
      × (is_voided (settle_candidate c bars today)
          ≡ (not (any (is_expiry_bar c) bars) && ltb_ℤ (pos grace_days) (days_since c today)))
unfolding settle_candidate settle_seen
settle_candidate_states c bars today = ground (arith, see_bars-found c bars nothing_seen)

settle_seen-settled :
    (c : ScanCandidate) (s : Seen) (today : Text) (row : ScanReconciliation) (n : ℕ)
    → settle_seen c s today ≡ settled row n
    → (row ≡ settled_row c s) × (s.found ≡ true)
unfolding settle_seen
settle_seen-settled c s today row n h = ground arith

settled_row-pnl :
    (c : ScanCandidate) (s : Seen)
    → ((settled_row c s).realized_pnl ≤ℤ c.input.bid)
      × (((settled_row c s).realized_pnl ≡ c.input.bid) ↔ (c.candidate_id.strike ≤ℤ s.expiry_close))
unfolding settled_row intrinsic
settled_row-pnl c s = grind int_laws

settled_row-hit :
    (c : ScanCandidate) (s : Seen)
    → ((settled_row c s).outcome ≡ hit) ↔ (ltb_ℤ c.candidate_id.strike s.expiry_close ≡ true)
unfolding settled_row
settled_row-hit c s = ground arith

-- A settled row has the close of a bar of the expiry day, and is a hit just where that is above the
-- strike. It is touched just where the low of some bar between the scan and the expiry was below the
-- strike. Its P&L is at most the bid, and the whole bid just where it closed at the strike or above.
pub settle_candidate_row :
    (c : ScanCandidate) (bars : List Bar) (today : Text) (row : ScanReconciliation) (n : ℕ)
    → settle_candidate c bars today ≡ settled row n
    → (any (is_priced c row.expiry_close) bars ≡ true)
      × ((row.outcome ≡ hit) ↔ (ltb_ℤ c.candidate_id.strike row.expiry_close ≡ true))
      × (row.touched ≡ any (is_below c) bars)
      × (row.realized_pnl ≤ℤ c.input.bid)
      × ((row.realized_pnl ≡ c.input.bid) ↔ (c.candidate_id.strike ≤ℤ row.expiry_close))
unfolding settle_candidate settled_row
settle_candidate_row c bars today row n h =
    let s = see_bars c bars nothing_seen in
    let (e, found) = settle_seen-settled c s today row n h in
    rw e (
      ground (arith, found, see_bars-priced c bars nothing_seen),
      settled_row-hit c s,
      see_bars-touched c bars nothing_seen,
      (settled_row-pnl c s).0,
      (settled_row-pnl c s).1,
    )
