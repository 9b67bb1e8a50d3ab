-- ===== src/ScanJournal/Tests.antt =====
-- Runs of the scan journal, and its theorems at one batch.
use optix.Base.{ℕ, ◌+◌, ◌≡◌, ◌↔◌, refl, true, List, [], ◌∷◌, none, some, arith, inr, length}
use optix.Base.Int.{ℤ, pos, ◌≤ℤ◌, ltb_ℤ, ◌-ℤ◌, ◌*ℤ◌}
use optix.Base.Text.{Text, codes, text_lt, text_eq}
use optix.Base.Time.{parse_iso, zero_time}
use optix.ScanJournal.Types.{
  CandidateInput, RegisterPayload, ScanCandidate, ScanReconciliation, Bar, hit, miss,
}
use optix.ScanJournal.Settle.{settle_candidate, settled}
use optix.ScanJournal.Settle.Outcome.{any, is_below, is_priced, settle_candidate_row}
use optix.ScanJournal.Store.{Store, same_id, expired_unsettled_scan_candidates}
use optix.ScanJournal.Store.Unique.{IsWellFormed}
use optix.ScanJournal.Register.{register}
use optix.ScanJournal.Register.Again.{IsSound, register_again, register-IsSound}
use optix.ScanJournal.Stats.{SettledPair, band_sort_key}
use optix.ScanJournal.Reconcile.{Database, reconcile}
use optix.ScanJournal.Reconcile.Batch.{IsReconciled, reconcile-IsWellFormed}

abbrev put_input : ℕ → CandidateInput
put_input rank = record {
  rank = pos rank;
  symbol = codes " aa pl";
  expiry = codes "2026-01-16";
  dte = pos 11;
  strike = pos 100;
  spot = pos 110;
  bid = pos 2;
  ask = none;
  mid = none;
  iv = none;
  delta = none;
  oi = none;
  volume = none;
  cushion_pct = pos 9;
  premium_yield_pct = pos 2;
  annualized_yield_pct = pos 66;
  score = pos 80;
  ibkr_bid = none;
  ibkr_ask = none;
  ibkr_option_iv = none;
  ibkr_option_delta = none;
}

-- Two rows of one contract: the second is skipped.
abbrev two_puts : RegisterPayload
two_puts = record {
  scan_date = codes "2026-01-05";
  symbol_source = codes "watchlist";
  candidates = put_input 1 ∷ put_input 2 ∷ [];
}

abbrev empty_store : Store
empty_store = record { candidates = []; reconciliations = [] }

abbrev after_scan : Store
after_scan = (register (codes "2026-01-05") 100 two_puts empty_store).1

abbrev one_put : ScanCandidate
one_put = record {
  candidate_id = record {
    scan_date = codes "2026-01-05";
    symbol = codes "AAPL";
    expiry = codes "2026-01-16";
    strike = pos 100;
  };
  scan_date = codes "2026-01-05";
  symbol = codes "AAPL";
  right = codes "P";
  input = put_input 1;
  symbol_source = codes "watchlist";
  created_at = 100;
}

-- A dip below the strike, and a close just under it.
abbrev dip : List Bar
dip =
    record { date = codes "2026-01-08"; low = pos 95; close = pos 104 }
    ∷ record { date = codes "2026-01-16"; low = pos 98; close = pos 99 }
    ∷ []

registered_once :
    (register (codes "2026-01-05") 100 two_puts empty_store).0
    ≡ inr (record { registered = 1; skipped = 1; scan_date = codes "2026-01-05" })
unfolding register parse_iso text_lt same_id text_eq
registered_once = refl

abbrev dip_row : ScanReconciliation
dip_row = record {
  candidate_id = one_put.candidate_id;
  expiry_close = pos 99;
  outcome = miss;
  realized_pnl = pos 1;
  touched = true;
  max_breach_pct = record { num = pos 500; den = pos 100 };
  expiry_basis = codes "delayed";
  settled_at = zero_time;
}

dip_settled : settle_candidate one_put dip (codes "2026-01-20") ≡ settled dip_row 2
unfolding settle_candidate text_lt text_eq ◌-ℤ◌ ◌*ℤ◌
dip_settled = refl

settle_candidate_row_example :
    (any (is_priced one_put (pos 99)) dip ≡ true)
    × ((dip_row.outcome ≡ hit) ↔ (ltb_ℤ (pos 100) (pos 99) ≡ true))
    × (true ≡ any (is_below one_put) dip)
    × (pos 1 ≤ℤ pos 2)
    × ((pos 1 ≡ pos 2) ↔ (pos 100 ≤ℤ pos 99))
settle_candidate_row_example =
    settle_candidate_row one_put dip (codes "2026-01-20") dip_row 2 dip_settled

register_again_example :
    register (codes "2026-01-05") 200 two_puts after_scan
    ≡ (inr (record { registered = 0; skipped = 2; scan_date = codes "2026-01-05" }), after_scan)
register_again_example =
    register_again (codes "2026-01-05") 100 200 two_puts empty_store
      (record { registered = 1; skipped = 1; scan_date = codes "2026-01-05" }) registered_once

empty-IsSound : IsSound empty_store
empty-IsSound = (λ i. omega arith, tt)

register-IsSound_example : IsSound after_scan × (1 + 1 ≡ 2)
register-IsSound_example =
    register-IsSound (codes "2026-01-05") 100 two_puts empty_store
      (record { registered = 1; skipped = 1; scan_date = codes "2026-01-05" }) empty-IsSound
      registered_once

one_put-IsWellFormed : IsWellFormed (record { candidates = one_put ∷ []; reconciliations = [] })
one_put-IsWellFormed = (λ i. ground arith, λ i. omega arith)

-- A database that works.
abbrev sound_database : Database
sound_database = record { loads = true; inserts = λ i. true; lists = true }

reconcile-IsWellFormed_example :
    let st : Store = record { candidates = one_put ∷ []; reconciliations = [] } in
    let (result, st') =
      reconcile sound_database 300 (codes "2026-01-20") (λ symbols. some (λ s. dip)) st in
    IsReconciled sound_database
      (length (expired_unsettled_scan_candidates (codes "2026-01-20") st))
      (result.tally.settled + result.tally.pending)
      result.failed
    × IsWellFormed st'
reconcile-IsWellFormed_example =
    reconcile-IsWellFormed sound_database 300 (codes "2026-01-20") (λ symbols. some (λ s. dip))
      (record { candidates = one_put ∷ []; reconciliations = [] }) one_put-IsWellFormed

dip_reconciled :
    (reconcile sound_database 300
      (codes "2026-01-20")
      (λ symbols. some (λ s. dip))
      (record { candidates = one_put ∷ []; reconciliations = [] })).1.reconciliations
    ≡ record dip_row { settled_at = 300 } ∷ []
unfolding reconcile ◌-ℤ◌ ◌*ℤ◌
dip_reconciled = refl

-- Four settled pairs of one scan, banded by their days to expiry.
abbrev four_pairs : List SettledPair
four_pairs =
    record { cand = one_put; rec = dip_row }
    ∷ record { cand = one_put; rec = record dip_row { outcome = hit } }
    ∷ record { cand = one_put; rec = dip_row }
    ∷ record { cand = one_put; rec = dip_row }
    ∷ []

abbrev no_label : ℤ → Text
no_label r = []

abbrev no_date : ℕ → Text
no_date d = []

dte_key : band_sort_key (codes "dte-7-10") ≡ 7
unfolding band_sort_key
dte_key = refl
