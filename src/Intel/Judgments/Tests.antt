-- ===== src/Intel/Judgments/Tests.antt =====
-- A judgment of a morning, and its settlement in the afternoon.
use optix.Base.{
  ◌+◌, ◌*◌, ◌≡◌, ◌≤◌, ◌<◌, refl, arith, ◌⊎◌, ◌↔◌, true, false, List, [], ◌∷◌, ◌++◌, none, some,
  length, take, map, leb, if◌then◌else◌,
}
use mathlib.Core.List.Perm
use optix.Base.Int.{pos}
use optix.Base.Keyed.{IsDistinct}
use optix.Base.Sort.{stable_sort}
use optix.Base.Text.{Text, text_eq, codes, trim_space}
use optix.Base.Time.{Instant, day_seconds}
use optix.Intel.Score.{hit, score}
use optix.Intel.Score.Directions.{score-bands, whole}
use optix.Intel.Checkpoints.{current_checkpoint}
use optix.Intel.Judgments.{
  IntelJudgment, IntelTables, PulseBar, settlement_of, is_settled, has_judgment,
  expired_unsettled_judgments, pulse_close_near,
}
use optix.Intel.Judgments.Write.{Surroundings, JudgmentInput, stored, register_judgment}
use optix.Intel.Judgments.Write.Lifecycle.{register_judgment-settled}
use optix.Intel.Judgments.Settle.{Database, settlement, settle_all, reconcile_judgments}
use optix.Intel.Judgments.Settle.Batch.{id_of, row_of}
use optix.Intel.Judgments.Settle.Run.{reconcile_judgments-settles}

-- Thursday 2 July 2026, 09:00.
abbrev morning : Instant
morning = 740164 * day_seconds + 9 * 3600

abbrev afternoon : Instant
afternoon = 740164 * day_seconds + 16 * 3600 + 40 * 60

abbrev desk : Surroundings
desk = record {
  new_id = codes "j1";
  asset_class_of = λ a. some (codes "index");
  quote_by_id = λ a. some (record { price = pos 100; basis = codes "realtime" });
  writes = true;
}

abbrev rise : JudgmentInput
rise = record {
  asset_id = codes "SPX";
  direction = codes "up";
  threshold_pct = pos 1000000;
  confidence = pos 60;
  expiry_checkpoint = codes "set_tone";
  rationale = codes " gap ";
  supersedes = [];
}

abbrev nothing_written : IntelTables
nothing_written = record { narratives = []; judgments = []; reconciliations = [] }

abbrev the_rise : IntelJudgment
the_rise = record {
  judgment_id = codes "j1";
  trading_date = 740164;
  checkpoint = codes "script";
  asset_id = codes "SPX";
  asset_class = codes "index";
  direction = codes "up";
  threshold_pct = pos 1000000;
  confidence = pos 60;
  expiry_checkpoint = codes "set_tone";
  expiry_at = 740164 * day_seconds + 15 * 3600;
  registered_price = pos 100;
  registered_basis = codes "realtime";
  rationale = codes "gap";
  supersedes = [];
  created_at = morning;
}

abbrev one_judgment : IntelTables
one_judgment = record { narratives = []; judgments = the_rise ∷ []; reconciliations = [] }

rise_stored : register_judgment desk morning rise nothing_written ≡ stored the_rise one_judgment
unfolding register_judgment text_eq trim_space current_checkpoint has_judgment
rise_stored = refl

-- A bar of 14:50.
abbrev bars : List PulseBar
bars =
    record {
      asset_id = codes "SPX";
      ts = 740164 * day_seconds + 14 * 3600 + 50 * 60;
      close = pos 102;
    }
    ∷ []

abbrev database : Database
database = record { lists = true; bars_for = λ jd. some bars; takes = λ jd. true }

rise_settles : (reconcile_judgments database afternoon one_judgment).0.failed ≡ false
unfolding reconcile_judgments expired_unsettled_judgments settle_all stable_sort is_settled
rise_settles = refl

rise_hits : (row_of database afternoon the_rise).outcome ≡ hit
unfolding settlement pulse_close_near score text_eq
rise_hits = refl

no_ids : IsDistinct id_of []
no_ids i = omega arith

one_id : IsDistinct id_of (the_rise ∷ [])
one_id i = ground arith

register_judgment-settled_example :
    (morning < the_rise.expiry_at)
    × (settlement_of
          (codes "j1")
          (reconcile_judgments database afternoon one_judgment).1.reconciliations
        ≡ (if leb the_rise.expiry_at afternoon
            then some (row_of database afternoon the_rise)
            else none))
unfolding has_judgment is_settled
register_judgment-settled_example =
    register_judgment-settled desk morning afternoon rise nothing_written one_judgment the_rise
      database rise_stored no_ids refl refl rise_settles

reconcile_judgments-settles_example :
    let (out, t') = reconcile_judgments database afternoon one_judgment in
    let jds = expired_unsettled_judgments afternoon one_judgment in
    (t'.judgments ≡ the_rise ∷ [])
    × (t'.narratives ≡ [])
    × (out.settled ≤ length jds)
    × (t'.reconciliations ≡ [] ++ map (row_of database afternoon) (take out.settled jds))
    × ((out.failed ≡ true)
        ⊎ ((out.settled ≡ length jds) × (expired_unsettled_judgments afternoon t' ≡ [])))
reconcile_judgments-settles_example =
    reconcile_judgments-settles database afternoon one_judgment one_id

score-bands_example :
    let outcome = λ (d : Text). (score d (pos 1000000) (pos 100) (pos 102)).0 in
    ((outcome (codes "up") ≡ hit) ↔ (100 * whole + 1000000 * 100 ≤ 102 * whole))
    × ((outcome (codes "down") ≡ hit) ↔ (102 * whole + 1000000 * 100 ≤ 100 * whole))
    × ((outcome (codes "flat") ≡ hit) ↔ (
        (102 * whole ≤ 100 * whole + 1000000 * 100) × (100 * whole ≤ 102 * whole + 1000000 * 100)))
    × ((outcome (codes "up") ≡ hit)
        ⊎ ((outcome (codes "down") ≡ hit) ⊎ (outcome (codes "flat") ≡ hit)))
score-bands_example = score-bands 1000000 100 102 (omega arith) (omega arith)
