-- ===== src/Intel/Judgments/Settle.antt =====
-- The settlement of the judgments that have expired (Reconcile). The database answers a query, or
-- fails, and so does a write of a settlement.
pub mod Batch
pub mod Run
use optix.Base.{
  ℕ, suc, ◌+◌, ◌*◌, Bool, true, false, not, List, [], ◌∷◌, Option, none, some, if◌then◌else◌,
}
use optix.Base.Int.{ℤ, pos}
use optix.Base.Text.{Text, codes}
use optix.Base.Time.{Instant}
use optix.Intel.Score.{Outcome, void, no_change, score}
use optix.Intel.Judgments.{
  IntelJudgment, IntelReconciliation, IntelTables, PulseBar, insert_reconciliation,
  expired_unsettled_judgments, pulse_close_near,
}

-- Half an hour.
abbrev pub reconcile_tolerance : ℕ
reconcile_tolerance = 30 * 60

-- The database during a run: whether it lists the judgments, the bars that the query for a judgment
-- finds, none where it fails, and whether it takes the settlement.
pub record Database : Type 0 where
  pub lists : Bool
  pub bars_for : IntelJudgment → Option (List PulseBar)
  pub takes : IntelJudgment → Bool

unfoldable pub settlement : List PulseBar → Instant → IntelJudgment → IntelReconciliation
unfolding pulse_close_near score
settlement bars now jd = elim (pulse_close_near jd.asset_id jd.expiry_at reconcile_tolerance bars) [
  | none ↦ record {
    judgment_id = jd.judgment_id;
    expiry_price = pos 0;
    expiry_basis = [];
    outcome = void;
    delta_pct = no_change;
    settled_at = now;
  }
  | some price ↦
      let (o, delta) = score jd.direction jd.threshold_pct jd.registered_price price in
      record {
        judgment_id = jd.judgment_id;
        expiry_price = price;
        expiry_basis = codes "frozen";
        outcome = o;
        delta_pct = delta;
        settled_at = now;
      }
]

-- The count of the settled, and whether there was an error.
pub record ReconcileResult : Type 0 where
  pub settled : ℕ
  pub failed : Bool

unfoldable pub settle_all :
    Database
    → Instant
    → List IntelJudgment
    → ℕ
    → List IntelReconciliation
    → ReconcileResult × List IntelReconciliation
unfolding settlement insert_reconciliation
settle_all db now [] n rs = (record { settled = n; failed = false }, rs)
settle_all db now (jd ∷ jds) n rs = elim (db.bars_for jd) [
  | none ↦ (record { settled = n; failed = true }, rs)
  | some bars ↦
      let more =
        settle_all db now jds (suc n) (insert_reconciliation (settlement bars now jd) rs) in
      if db.takes jd then more else (record { settled = n; failed = true }, rs)
]

unfoldable pub reconcile_judgments :
    Database → Instant → IntelTables → ReconcileResult × IntelTables
unfolding settle_all expired_unsettled_judgments
reconcile_judgments db now t =
    let (out, rs) = settle_all db now (expired_unsettled_judgments now t) 0 t.reconciliations in
    if db.lists
    then (out, record t { reconciliations = rs })
    else (record { settled = 0; failed = true }, t)
