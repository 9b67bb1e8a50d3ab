-- ===== src/EventIntel/Sentences.antt =====
-- The sentences of a statement (internal/eventintel/diff.go). The two regular expressions of the
-- source are written out as scans, and ToLower is the ASCII one.
use optix.Base.{
  ℕ, zero, suc, Bool, true, false, ◌&&◌, ◌||◌, not, List, [], ◌∷◌, ◌++◌, map, leb, ◌==◌, keep,
  if◌then◌else◌,
}
use optix.Base.Text.{Text, codes, text_eq, is_space, trim_space, is_capital, lower}

-- `protectedPeriod`
abbrev protected_period : Text
protected_period = codes "<DOT>"

-- A character of a word, for `\b`.
unfoldable pub is_word : ℕ → Bool
is_word c =
    (leb b'A' c && leb c b'Z')
    || (leb b'a' c && leb c b'z')
    || (leb b'0' c && leb c b'9')
    || c == b'_'

-- `initialPeriodRE.ReplaceAllString`, with whether the character before is one of a word.
unfoldable pub protect : Bool → Text → Text
unfolding is_word
protect after_word [] = []
protect after_word (c ∷ []) = c ∷ []
protect after_word (c ∷ d ∷ s) =
    let protected = protect false s in
    let next = protect (is_word c) (d ∷ s) in
    if not after_word && is_capital c && d == b'.'
    then c ∷ protected_period ++ protected
    else c ∷ next

-- Where `sentenceEndRE` stands: outside of a match, in its marks, or in its spaces.
pub data Scan : Type 0 where
  outside in_marks in_spaces : Scan

abbrev is_mark : ℕ → Bool
is_mark c = c == b'.' || c == b'!' || c == b'?'

-- `\s`
abbrev is_blank : ℕ → Bool
is_blank c = c == 9 || c == 10 || c == 12 || c == 13 || c == 32

abbrev put_first : ℕ → List Text → List Text
put_first c [] = (c ∷ []) ∷ []
put_first c (p ∷ ps) = (c ∷ p) ∷ ps

-- `sentenceEndRE.Split`; a match that ends the text leaves an empty part at the end.
unfoldable pub split_parts : Scan → Text → List Text
split_parts scan [] = [] ∷ []
split_parts outside (c ∷ s) =
    let ended = split_parts in_marks s in
    let more = split_parts outside s in if is_mark c then [] ∷ ended else put_first c more
split_parts in_marks (c ∷ s) =
    let ended = split_parts in_marks s in
    let skipped = split_parts in_spaces s in
    let more = split_parts outside s in
    if is_mark c then ended else if is_blank c then skipped else put_first c more
split_parts in_spaces (c ∷ s) =
    let ended = split_parts in_marks s in
    let skipped = split_parts in_spaces s in
    let more = split_parts outside s in
    if is_blank c then skipped else if is_mark c then [] ∷ ended else put_first c more

unfoldable pub starts_with : Text → Text → Bool
starts_with [] s = true
starts_with (c ∷ p) [] = false
starts_with (c ∷ p) (d ∷ s) = c == d && starts_with p s

-- `strings.ReplaceAll(part, protectedPeriod, ".")`, with the number of characters to pass over.
unfoldable pub restore : ℕ → Text → Text
unfolding starts_with
restore n [] = []
restore (suc n) (c ∷ s) = restore n s
restore zero (c ∷ s) =
    let passed = restore 4 s in
    let next = restore 0 s in
    if starts_with protected_period (c ∷ s) then b'.' ∷ passed else c ∷ next

-- `splitSentences`
unfoldable pub split_sentences : Text → List Text
unfolding protect split_parts restore trim_space text_eq
split_sentences text =
    keep (λ s. not (text_eq s []))
      (map (λ part. trim_space (restore 0 part)) (split_parts outside (protect false text)))

unfoldable pub split_spaces : Text → List Text
unfolding is_space
split_spaces [] = [] ∷ []
split_spaces (c ∷ s) =
    let more = split_spaces s in if is_space c then [] ∷ more else put_first c more

unfoldable pub join_words : List Text → Text
join_words [] = []
join_words (w ∷ []) = w
join_words (w ∷ v ∷ vs) = w ++ 32 ∷ join_words (v ∷ vs)

-- `normalizeSentence`; the fields are the parts between spaces that are not empty.
unfoldable pub normalize_sentence : Text → Text
unfolding split_spaces join_words text_eq
normalize_sentence s = join_words (keep (λ w. not (text_eq w [])) (split_spaces (map lower s)))

-- `strings.Contains`
unfoldable pub has_part : Text → Text → Bool
unfolding starts_with
has_part [] p = starts_with p []
has_part (c ∷ s) p = starts_with p (c ∷ s) || has_part s p

unfoldable pub contains_any : Text → List Text → Bool
unfolding has_part
contains_any s [] = false
contains_any s (n ∷ ns) = has_part s n || contains_any s ns
