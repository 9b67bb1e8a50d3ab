-- ===== src/EventIntel/Diff/Reversed.antt =====
-- The comparison of two statements the other way round.
use optix.Base.{
  ℕ, ◌+◌, Bool-cases, inl, inr, not, List, [], ◌∷◌, ◌++◌, map, keep, append-nil, append_assoc, ◌≡◌,
  refl, sym, ap, ap₂, ◌∙◌, arith,
}
use optix.Base.Text.{Text}
use optix.Base.Time.{Instant}
use optix.EventIntel.Sentences.{split_sentences}
use optix.EventIntel.Diff.{
  StatementFixture, Tone, neutral, mixed, SentenceStatus, StatementSentence, StatementDiff,
  sentence_hits, statement_sentence, has_hit, in_sentences, add_current, add_prior, diff_verdict,
  build_statement_diff,
}

-- The hits of a tone among sentences.
abbrev hits_in : Tone → List Text → ℕ
hits_in t [] = 0
hits_in t (s ∷ ss) = has_hit t (sentence_hits s) + hits_in t ss

-- The sentences that are in a statement, and those that are not.
abbrev common_to : List Text → List Text → List Text
common_to others ss = keep (in_sentences others) ss

abbrev new_to : List Text → List Text → List Text
new_to others ss = keep (λ s. not (in_sentences others s)) ss

abbrev rows : SentenceStatus → List Text → List StatementSentence
rows status ss = map (statement_sentence status) ss

add_current_lem :
    (before ss : List Text) (out : StatementDiff)
    → ((add_current before ss out).added
        ≡ out.added ++ rows SentenceStatus.added (new_to before ss))
      × ((add_current before ss out).removed ≡ out.removed)
      × ((add_current before ss out).hawkish_hits
          ≡ out.hawkish_hits + hits_in Tone.hawkish (new_to before ss))
      × ((add_current before ss out).dovish_hits
          ≡ out.dovish_hits + hits_in Tone.dovish (new_to before ss))
unfolding add_current statement_sentence
add_current_lem before [] out = (sym (append-nil _), refl, omega arith, omega arith)
add_current_lem before (s ∷ ss) out = elim (Bool-cases (in_sentences before s)) [
  | inl h ↦ rw (h, add_current) (add_current_lem before ss _)
  | inr h ↦
      let (a, r, hs, ds) = add_current_lem before ss _ in
      rw (h, add_current) (a ∙ append_assoc out.added _ _, r, hs ∙ omega arith, ds ∙ omega arith)
]

add_prior_lem :
    (now ss : List Text) (out : StatementDiff)
    → ((add_prior now ss out).added ≡ out.added)
      × ((add_prior now ss out).removed
          ≡ out.removed ++ rows SentenceStatus.removed (new_to now ss))
      × ((add_prior now ss out).hawkish_hits
          ≡ out.hawkish_hits + hits_in Tone.dovish (new_to now ss))
      × ((add_prior now ss out).dovish_hits
          ≡ out.dovish_hits + hits_in Tone.hawkish (new_to now ss))
unfolding add_prior statement_sentence
add_prior_lem now [] out = (refl, sym (append-nil _), omega arith, omega arith)
add_prior_lem now (s ∷ ss) out = elim (Bool-cases (in_sentences now s)) [
  | inl h ↦ rw (h, add_prior) (add_prior_lem now ss _)
  | inr h ↦
      let (a, r, hs, ds) = add_prior_lem now ss _ in
      rw (h, add_prior) (a, r ∙ append_assoc out.removed _ _, hs ∙ omega arith, ds ∙ omega arith)
]

abbrev pub texts : List StatementSentence → List Text
texts ss = map (λ s. s.text) ss

texts-rows : (status : SentenceStatus) (ss : List Text) → texts (rows status ss) ≡ ss
unfolding statement_sentence
texts-rows status [] = refl
texts-rows status (s ∷ ss) = ap (s ∷◌) (texts-rows status ss)

abbrev pub opposite : Tone → Tone
opposite neutral = neutral
opposite mixed = mixed
opposite Tone.hawkish = Tone.dovish
opposite Tone.dovish = Tone.hawkish

diff_verdict-opposite : (h d : ℕ) → diff_verdict d h ≡ opposite (diff_verdict h d)
unfolding diff_verdict
diff_verdict-opposite h d = ground arith

-- A comparison in its parts.
record IsDiff (before now : List Text) (d : StatementDiff) : Type 0 where
  added_rows : d.added ≡ rows SentenceStatus.added (new_to before now)
  removed_rows : d.removed ≡ rows SentenceStatus.removed (new_to now before)
  hawkish_sum :
      d.hawkish_hits
      ≡ hits_in Tone.hawkish (new_to before now) + hits_in Tone.dovish (new_to now before)
  dovish_sum :
      d.dovish_hits
      ≡ hits_in Tone.dovish (new_to before now) + hits_in Tone.hawkish (new_to now before)
  verdict_of : d.verdict ≡ diff_verdict d.hawkish_hits d.dovish_hits

build_statement_diff-IsDiff :
    (prior current : StatementFixture) (as_of_ : Instant)
    → IsDiff
        (split_sentences prior.text)
        (split_sentences current.text)
        (build_statement_diff prior current as_of_)
unfolding build_statement_diff
build_statement_diff-IsDiff prior current as_of_ =
    let before = split_sentences prior.text in
    let now = split_sentences current.text in
    let (a, r, hs, ds) = add_current_lem before now _ in
    let (a', r', hs', ds') = add_prior_lem now before _ in
    record {
      added_rows = a' ∙ a;
      removed_rows = r' ∙ ap (◌++ rows SentenceStatus.removed (new_to now before)) r;
      hawkish_sum = hs' ∙ ap (◌+ hits_in Tone.dovish (new_to now before)) hs ∙ omega arith;
      dovish_sum = ds' ∙ ap (◌+ hits_in Tone.hawkish (new_to now before)) ds ∙ omega arith;
      verdict_of = refl;
    }

-- Of any two statements: the comparison the other way round has as its added sentences the removed
-- ones, and as its removed sentences the added ones, in their order; its hawkish hits are the dovish
-- ones, and its dovish hits the hawkish ones; and its verdict is the opposite one, where that of a
-- neutral or a mixed verdict is the same.
pub build_statement_diff-reversed :
    (prior current : StatementFixture) (as_of_ : Instant)
    → (texts (build_statement_diff current prior as_of_).added
        ≡ texts (build_statement_diff prior current as_of_).removed)
      × (texts (build_statement_diff current prior as_of_).removed
          ≡ texts (build_statement_diff prior current as_of_).added)
      × ((build_statement_diff current prior as_of_).hawkish_hits
          ≡ (build_statement_diff prior current as_of_).dovish_hits)
      × ((build_statement_diff current prior as_of_).dovish_hits
          ≡ (build_statement_diff prior current as_of_).hawkish_hits)
      × ((build_statement_diff current prior as_of_).verdict
          ≡ opposite (build_statement_diff prior current as_of_).verdict)
build_statement_diff-reversed prior current as_of_ =
    let d = build_statement_diff-IsDiff prior current as_of_ in
    let r = build_statement_diff-IsDiff current prior as_of_ in
    let hs = r.hawkish_sum ∙ omega arith ∙ sym d.dovish_sum in
    let ds = r.dovish_sum ∙ omega arith ∙ sym d.hawkish_sum in
    (
      ap texts r.added_rows ∙ texts-rows _ _ ∙ sym (ap texts d.removed_rows ∙ texts-rows _ _),
      ap texts r.removed_rows ∙ texts-rows _ _ ∙ sym (ap texts d.added_rows ∙ texts-rows _ _),
      hs,
      ds,
      r.verdict_of
          ∙ ap₂ diff_verdict hs ds
          ∙ diff_verdict-opposite _ _
          ∙ sym (ap opposite d.verdict_of),
    )
