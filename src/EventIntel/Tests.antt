-- ===== src/EventIntel/Tests.antt =====
-- Two statements, compared both ways.
use optix.Base.{◌∷◌, [], ◌≡◌, refl}
use optix.Base.Text.{codes}
use optix.EventIntel.Sentences.{split_sentences}
use optix.EventIntel.Diff.{StatementFixture, build_statement_diff, Tone}
use optix.EventIntel.Diff.Reversed.{build_statement_diff-reversed, texts, opposite}

abbrev prior : StatementFixture
prior = record {
  title = codes "March";
  source = codes "fixture";
  published_at = 1000;
  text = codes "Inflation has eased.  The U.S. economy is strong!";
}

abbrev current : StatementFixture
current = record {
  title = codes "May";
  source = codes "fixture";
  published_at = 2000;
  text = codes "Inflation remains elevated. the U.S.  economy is strong.";
}

-- The initials do not end a sentence, and case and spaces do not tell two sentences apart.
current_sentences :
    split_sentences current.text
    ≡ codes "Inflation remains elevated" ∷ codes "the U.S.  economy is strong" ∷ []
unfolding split_sentences
current_sentences = refl

compared :
    texts (build_statement_diff prior current 0).added ≡ codes "Inflation remains elevated" ∷ []
unfolding build_statement_diff
compared = refl

compared_verdict : (build_statement_diff prior current 0).verdict ≡ Tone.hawkish
unfolding build_statement_diff
compared_verdict = refl

build_statement_diff-reversed_example :
    (texts (build_statement_diff current prior 0).added
      ≡ texts (build_statement_diff prior current 0).removed)
    × (texts (build_statement_diff current prior 0).removed
        ≡ texts (build_statement_diff prior current 0).added)
    × ((build_statement_diff current prior 0).hawkish_hits
        ≡ (build_statement_diff prior current 0).dovish_hits)
    × ((build_statement_diff current prior 0).dovish_hits
        ≡ (build_statement_diff prior current 0).hawkish_hits)
    × ((build_statement_diff current prior 0).verdict
        ≡ opposite (build_statement_diff prior current 0).verdict)
build_statement_diff-reversed_example = build_statement_diff-reversed prior current 0
