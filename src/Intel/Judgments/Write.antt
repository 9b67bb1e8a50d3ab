-- ===== src/Intel/Judgments/Write.antt =====
-- What writes to the intel journal (WriteNarrative and RegisterJudgment). A body counts its bytes; it
-- is a list of them here.
pub mod Lifecycle
use optix.Base.{ℕ, ◌*◌, Bool, ◌||◌, not, Option, none, some, ltb, if◌then◌else◌, take}
use optix.Base.Int.{ℤ, pos, ltb_ℤ}
use optix.Base.Text.{Text, text_eq, codes, trim_space}
use optix.Base.Time.{Instant}
use optix.Intel.Calendar.{day_of}
use optix.Intel.Phase.{phase_at}
use optix.Intel.Checkpoints.{is_checkpoint_kind, checkpoint_time, current_checkpoint}
use optix.Intel.Judgments.{
  IntelNarrative, IntelJudgment, IntelTables, insert_narrative, insert_judgment,
}

-- 8 KB
abbrev pub max_narrative_bytes : ℕ
max_narrative_bytes = 8 * 1024

-- What `judge` takes.
pub record JudgmentInput : Type 0 where
  pub asset_id : Text
  pub direction : Text
  pub threshold_pct : ℤ
  pub confidence : ℤ
  pub expiry_checkpoint : Text
  pub rationale : Text
  pub supersedes : Text

pub record Quote : Type 0 where
  pub price : ℤ
  pub basis : Text

-- What a call finds: the identifier that `newID` gives, the class of an asset, the price of an asset,
-- and whether the database takes the row.
pub record Surroundings : Type 0 where
  pub new_id : Text
  pub asset_class_of : Text → Option Text
  pub quote_by_id : Text → Option Quote
  pub writes : Bool

pub data WriteError : Type 0 where
  invalid_kind invalid_direction invalid_confidence unknown_asset : WriteError
  invalid_expiry expiry_not_in_future no_price database_failed : WriteError

pub data Written (A : Type 0) : Type 0 where
  stored : A → IntelTables → Written A
  refused : WriteError → Written A

unfoldable pub write_narrative :
    Surroundings → Instant → Text → Text → IntelTables → Written IntelNarrative
unfolding is_checkpoint_kind insert_narrative phase_at
write_narrative s now kind body t =
    let n : IntelNarrative = record {
      entry_id = s.new_id;
      trading_date = day_of now;
      checkpoint = kind;
      phase = phase_at now;
      body = take max_narrative_bytes body;
      created_at = now;
    } in
    if not (is_checkpoint_kind kind)
    then refused invalid_kind
    else if not s.writes
    then refused database_failed
    else stored n (insert_narrative n t)

unfoldable pub is_direction : Text → Bool
unfolding text_eq
is_direction d = text_eq d (codes "up") || text_eq d (codes "down") || text_eq d (codes "flat")

-- The row, once the asset, the expiry and the price are there.
unfoldable pub judgment_of :
    Surroundings → Instant → JudgmentInput → Text → Instant → Quote → IntelJudgment
unfolding current_checkpoint trim_space
judgment_of s now in_ class_ expiry q = record {
  judgment_id = s.new_id;
  trading_date = day_of now;
  checkpoint = current_checkpoint now;
  asset_id = in_.asset_id;
  asset_class = class_;
  direction = in_.direction;
  threshold_pct = in_.threshold_pct;
  confidence = in_.confidence;
  expiry_checkpoint = in_.expiry_checkpoint;
  expiry_at = expiry;
  registered_price = q.price;
  registered_basis = q.basis;
  rationale = trim_space in_.rationale;
  supersedes = in_.supersedes;
  created_at = now;
}

-- From the test of the expiry on.
unfoldable pub register_until :
    Surroundings → Instant → JudgmentInput → IntelTables → Text → Instant → Written IntelJudgment
unfolding judgment_of insert_judgment
register_until s now in_ t class_ expiry =
    if not (ltb now expiry)
    then refused expiry_not_in_future
    else elim (s.quote_by_id in_.asset_id) [
      | none ↦ refused no_price
      | some q ↦
          let jd = judgment_of s now in_ class_ expiry q in
          if not s.writes then refused database_failed else stored jd (insert_judgment jd t)
    ]

unfoldable pub register_judgment :
    Surroundings → Instant → JudgmentInput → IntelTables → Written IntelJudgment
unfolding is_direction checkpoint_time register_until
register_judgment s now in_ t =
    if not (is_direction in_.direction)
    then refused invalid_direction
    else if ltb_ℤ in_.confidence (pos 0) || ltb_ℤ (pos 100) in_.confidence
    then refused invalid_confidence
    else elim (s.asset_class_of in_.asset_id) [
      | none ↦ refused unknown_asset
      | some class_ ↦ elim (checkpoint_time (day_of now) in_.expiry_checkpoint) [
        | none ↦ refused invalid_expiry
        | some expiry ↦ register_until s now in_ t class_ expiry
      ]
    ]
