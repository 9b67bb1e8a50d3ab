-- ===== src/Intel/Judgments/Read/Shown.antt =====
-- What the hit rate of a day counts, and which narratives a reading shows.
use optix.Base.{ℕ, Bool, true, false, ◌&&◌, not, List, none, some, if◌then◌else◌}
use mathlib.Core.List.{Perm}
use mathlib.Core.List.Perm
use optix.Base.Text.{Text}
use optix.Intel.Score.{Outcome, push, void}
use optix.Intel.Judgments.{IntelNarrative, IntelJudgment, IntelReconciliation, settlement_of}
use optix.Intel.Judgments.Read.{is_superseded}

abbrev pub is_hit : Outcome → Bool
is_hit Outcome.hit = true
is_hit Outcome.miss = false
is_hit push = false
is_hit void = false

abbrev pub is_miss : Outcome → Bool
is_miss Outcome.hit = false
is_miss Outcome.miss = true
is_miss push = false
is_miss void = false

-- 1 for a judgment of the list that no judgment of the list supersedes and that is settled with such
-- an outcome, else 0.
abbrev pub counts :
    (Outcome → Bool) → List IntelJudgment → List IntelReconciliation → IntelJudgment → ℕ
counts p all_ rs jd = elim (settlement_of jd.judgment_id rs) [
  | none ↦ 0
  | some r ↦ if p r.outcome && not (is_superseded jd.judgment_id all_) then 1 else 0
]

-- The latest narratives: one for each checkpoint.
checkpoint_of : IntelNarrative → Text
checkpoint_of n = n.checkpoint
