-- ===== src/EventIntel/Diff.antt =====
-- The comparison of two statements (internal/eventintel/diff.go, with its types of dto.go). A set of
-- sentences is the list of its normalized members.
pub mod Reversed
use optix.Base.{
  ℕ, ◌+◌, ◌-◌, Bool, true, false, ◌&&◌, ◌||◌, List, [], ◌∷◌, ◌++◌, leb, ltb, ◌==◌, if◌then◌else◌,
}
use optix.Base.Text.{Text, codes, text_eq}
use optix.Base.Time.{Instant}
use optix.EventIntel.Sentences.{split_sentences, normalize_sentence, contains_any}

pub record StatementFixture : Type 0 where
  pub title : Text
  pub source : Text
  pub published_at : Instant
  pub text : Text

-- A hit of a sentence is one of the last two; a verdict is any.
pub data Tone : Type 0 where
  neutral mixed hawkish dovish : Tone

pub data SentenceStatus : Type 0 where
  added removed unchanged : SentenceStatus

pub record StatementSentence : Type 0 where
  pub text : Text
  pub status : SentenceStatus
  pub hits : List Tone

pub record StatementDiff : Type 0 where
  pub as_of : Instant
  pub source : Text
  pub prior_title : Text
  pub current_title : Text
  pub prior_published_at : Instant
  pub current_published_at : Instant
  pub added : List StatementSentence
  pub removed : List StatementSentence
  pub unchanged : List StatementSentence
  pub hawkish_hits : ℕ
  pub dovish_hits : ℕ
  pub verdict : Tone

abbrev hawkish_terms : List Text
hawkish_terms =
    codes "elevated"
    ∷ codes "restrictive"
    ∷ codes "higher"
    ∷ codes "tightening"
    ∷ codes "reducing its holdings"
    ∷ codes "firmly committed"
    ∷ []

abbrev dovish_terms : List Text
dovish_terms =
    codes "eased"
    ∷ codes "balance"
    ∷ codes "balanced"
    ∷ codes "employment"
    ∷ codes "weakened"
    ∷ codes "slower"
    ∷ codes "cuts"
    ∷ []

abbrev hit_when : Bool → Tone → List Tone
hit_when true t = t ∷ []
hit_when false t = []

unfoldable pub sentence_hits : Text → List Tone
unfolding contains_any normalize_sentence
sentence_hits sentence =
    let s = normalize_sentence sentence in
    hit_when (contains_any s hawkish_terms) Tone.hawkish
    ++ hit_when (contains_any s dovish_terms) Tone.dovish

unfoldable pub statement_sentence : SentenceStatus → Text → StatementSentence
unfolding sentence_hits
statement_sentence status sentence = record {
  text = sentence;
  status = status;
  hits = sentence_hits sentence;
}

abbrev is_tone : Tone → Tone → Bool
is_tone Tone.hawkish Tone.hawkish = true
is_tone Tone.dovish Tone.dovish = true
is_tone neutral neutral = true
is_tone mixed mixed = true
is_tone _ _ = false

unfoldable pub has_hit : Tone → List Tone → ℕ
has_hit t [] = 0
has_hit t (h ∷ hs) = let rest = has_hit t hs in if is_tone h t then 1 else rest

-- Whether a sentence is in the set of a statement's sentences.
unfoldable pub in_sentences : List Text → Text → Bool
unfolding text_eq normalize_sentence
in_sentences [] s = false
in_sentences (t ∷ ts) s = text_eq (normalize_sentence t) (normalize_sentence s) || in_sentences ts s

-- The loop over the current sentences, and the one over the prior ones.
unfoldable pub add_current : List Text → List Text → StatementDiff → StatementDiff
unfolding in_sentences statement_sentence has_hit
add_current before [] out = out
add_current before (s ∷ ss) out =
    let row = statement_sentence SentenceStatus.added s in
    let kept = add_current before ss (record out {
      unchanged = out.unchanged ++ statement_sentence SentenceStatus.unchanged s ∷ [];
    }) in
    let new = add_current before ss (record out {
      hawkish_hits = out.hawkish_hits + has_hit Tone.hawkish row.hits;
      dovish_hits = out.dovish_hits + has_hit Tone.dovish row.hits;
      added = out.added ++ row ∷ [];
    }) in
    if in_sentences before s then kept else new

unfoldable pub add_prior : List Text → List Text → StatementDiff → StatementDiff
unfolding in_sentences statement_sentence has_hit
add_prior now [] out = out
add_prior now (s ∷ ss) out =
    let row = statement_sentence SentenceStatus.removed s in
    let kept = add_prior now ss out in
    let gone = add_prior now ss (record out {
      hawkish_hits = out.hawkish_hits + has_hit Tone.dovish row.hits;
      dovish_hits = out.dovish_hits + has_hit Tone.hawkish row.hits;
      removed = out.removed ++ row ∷ [];
    }) in
    if in_sentences now s then kept else gone

unfoldable pub diff_verdict : ℕ → ℕ → Tone
diff_verdict h d =
    if h == 0 && d == 0
    then neutral
    else if ltb 0 h && ltb 0 d && leb (h - d) 1 && leb (d - h) 1
    then mixed
    else if ltb d h
    then Tone.hawkish
    else if ltb h d
    then Tone.dovish
    else mixed

abbrev non_empty_text : Text → Text → Text
non_empty_text [] fallback = fallback
non_empty_text (c ∷ s) fallback = c ∷ s

abbrev no_diff : StatementFixture → StatementFixture → Instant → StatementDiff
no_diff prior current as_of_ = record {
  as_of = as_of_;
  source = non_empty_text current.source prior.source;
  prior_title = prior.title;
  current_title = current.title;
  prior_published_at = prior.published_at;
  current_published_at = current.published_at;
  added = [];
  removed = [];
  unchanged = [];
  hawkish_hits = 0;
  dovish_hits = 0;
  verdict = neutral;
}

unfoldable pub build_statement_diff : StatementFixture → StatementFixture → Instant → StatementDiff
unfolding add_current add_prior diff_verdict split_sentences
build_statement_diff prior current as_of_ =
    let before = split_sentences prior.text in
    let now = split_sentences current.text in
    let out = add_prior now before (add_current before now (no_diff prior current as_of_)) in
    record out { verdict = diff_verdict out.hawkish_hits out.dovish_hits }
