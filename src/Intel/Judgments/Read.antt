-- ===== src/Intel/Judgments/Read.antt =====
-- What a reading of the intel journal shows (ReadJournal and Status). The order in which Go walks the
-- map of the latest narratives is a parameter. A failing query, after which nothing is shown, is left
-- out.
pub mod Shown
use optix.Base.{
  ℕ, suc, ◌+◌, Bool, true, false, ◌||◌, List, [], ◌∷◌, Option, none, some, ltb, ◌==◌, if◌then◌else◌,
  length,
}
use optix.Base.Sort.{stable_sort}
use optix.Base.Text.{Text, text_eq}
use optix.Base.Time.{Instant, Day}
use optix.Intel.Calendar.{day_of, is_trading_day}
use optix.Intel.Phase.{Phase, phase_at}
use optix.Intel.Score.{Outcome, hit, miss, push, void}
use optix.Intel.Checkpoints.{
  Checkpoint, CheckpointState, daily_checkpoints, due_at_of, checkpoint_status, written, pending,
}
use optix.Intel.Judgments.{
  IntelNarrative, IntelJudgment, IntelReconciliation, IntelTables, list_narratives, list_judgments,
  settlement_of,
}

-- The rate is `hit` over `hit + miss`, or 0 where there are none.
pub record HitRate : Type 0 where
  pub window : Day
  pub hit : ℕ
  pub miss : ℕ

-- A judgment with its settlement.
pub record Judged : Type 0 where
  pub judgment : IntelJudgment
  pub reconciliation : Option IntelReconciliation

pub record JournalSnapshot : Type 0 where
  pub trading_date : Day
  pub now : Instant
  pub is_trading_day : Bool
  pub checkpoints : List CheckpointState
  pub narratives : List IntelNarrative
  pub judgments : List Judged
  pub hit_rate : HitRate

pub record StatusSnapshot : Type 0 where
  pub now : Instant
  pub phase : Phase
  pub is_trading_day : Bool
  pub checkpoints : List CheckpointState
  pub judgment_count : ℕ
  pub hit_rate : HitRate

-- `supersededIDs[id]`
unfoldable pub is_superseded : Text → List IntelJudgment → Bool
unfolding text_eq
is_superseded i [] = false
is_superseded i (jd ∷ jds) = elim jd.supersedes [
  | [] ↦ is_superseded i jds
  | c ∷ s ↦ text_eq i (c ∷ s) || is_superseded i jds
]

-- The `switch` on the outcome.
unfoldable pub count_outcome : Outcome → HitRate → HitRate
count_outcome Outcome.hit hr = record hr { hit = suc hr.hit }
count_outcome Outcome.miss hr = record hr { miss = suc hr.miss }
count_outcome push hr = hr
count_outcome void hr = hr

-- One judgment of the loop; `all_` are the judgments of the day.
unfoldable pub count_one :
    List IntelJudgment → List IntelReconciliation → IntelJudgment → HitRate → HitRate
unfolding is_superseded settlement_of count_outcome
count_one all_ rs jd hr = elim (settlement_of jd.judgment_id rs) [
  | none ↦ hr
  | some r ↦ if is_superseded jd.judgment_id all_ then hr else count_outcome r.outcome hr
]

unfoldable pub count_settled :
    List IntelJudgment → List IntelReconciliation → List IntelJudgment → HitRate → HitRate
unfolding count_one
count_settled all_ rs [] hr = hr
count_settled all_ rs (jd ∷ jds) hr = count_settled all_ rs jds (count_one all_ rs jd hr)

unfoldable pub judged : List IntelReconciliation → List IntelJudgment → List Judged
unfolding settlement_of
judged rs [] = []
judged rs (jd ∷ jds) =
    record { judgment = jd; reconciliation = settlement_of jd.judgment_id rs } ∷ judged rs jds

-- `latest[n.Checkpoint] = n`
unfoldable pub set_latest : IntelNarrative → List IntelNarrative → List IntelNarrative
unfolding text_eq
set_latest n [] = n ∷ []
set_latest n (m ∷ ms) =
    let rest = set_latest n ms in if text_eq n.checkpoint m.checkpoint then n ∷ ms else m ∷ rest

unfoldable pub latest_of : List IntelNarrative → List IntelNarrative → List IntelNarrative
unfolding set_latest
latest_of [] latest = latest
latest_of (n ∷ ns) latest = latest_of ns (set_latest n latest)

unfoldable pub writes_narrative : Text → List IntelNarrative → Bool
unfolding text_eq
writes_narrative kind [] = false
writes_narrative kind (n ∷ ns) = text_eq kind n.checkpoint || writes_narrative kind ns

unfoldable pub writes_judgment : Text → List IntelJudgment → Bool
unfolding text_eq
writes_judgment kind [] = false
writes_judgment kind (jd ∷ jds) = text_eq kind jd.checkpoint || writes_judgment kind jds

-- The states on another day than today.
unfoldable pub past_states : Day → (Text → Bool) → List Checkpoint → List CheckpointState
past_states d is_written [] = []
past_states d is_written (c ∷ cs) =
    record {
      kind = c.kind;
      label = c.label;
      due_at = due_at_of d c.kind;
      status = if is_written c.kind then written else pending;
    }
    ∷ past_states d is_written cs

module _ (walk : List IntelNarrative → List IntelNarrative) where
  unfoldable pub read_journal : Instant → Day → IntelTables → JournalSnapshot
  unfolding list_narratives list_judgments count_settled judged latest_of writes_narrative
      writes_judgment checkpoint_status past_states stable_sort is_trading_day
  read_journal now d t =
      let all_narratives = list_narratives d t in
      let judgments_ = list_judgments d t in
      let is_written =
        λ (kind : Text). writes_narrative kind all_narratives || writes_judgment kind judgments_ in
      record {
        trading_date = d;
        now = now;
        is_trading_day = is_trading_day d;
        checkpoints =
            if d == day_of now
            then checkpoint_status now is_written
            else past_states d is_written daily_checkpoints;
        narratives =
            stable_sort (λ a b. ltb a.created_at b.created_at) (walk (latest_of all_narratives []));
        judgments = judged t.reconciliations judgments_;
        hit_rate =
            count_settled judgments_ t.reconciliations judgments_
              (record { window = d; hit = 0; miss = 0 });
      }

  unfoldable pub journal_status : Instant → IntelTables → StatusSnapshot
  unfolding read_journal phase_at
  journal_status now t =
      let snap = read_journal now (day_of now) t in
      record {
        now = now;
        phase = phase_at now;
        is_trading_day = is_trading_day (day_of now);
        checkpoints = snap.checkpoints;
        judgment_count = length snap.judgments;
        hit_rate = snap.hit_rate;
      }
