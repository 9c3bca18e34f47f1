-- ===== src/Tests/ToxicityRuns.antt =====
-- Texts of the repository's own tests, and a contraction.
use llmgov.Base.{◌≡◌, refl, true, false, [], ◌∷◌, codes}
use llmgov.Regex.{literal, split, pieces, search_in}
use llmgov.Toxicity.{
  sentence_end, quote_pattern, toxic_lexicon, meta_indicators, matched_terms, is_meta,
  all_in_quotes, sum_weights, sentence_score, max_sentence_score, classify_toxicity,
}
use llmgov.Tests.Values.{ascii, numbers, lowered}

two_sentences : split sentence_end (codes "Fine. Ok") ≡ codes "Fine." ∷ codes "Ok" ∷ []
unfolding split pieces sentence_end
two_sentences = refl

insult : classify_toxicity numbers ascii lowered (codes "Fine. You are an Idiot!") ≡ (50, true)
unfolding classify_toxicity max_sentence_score sentence_score matched_terms sum_weights is_meta
    all_in_quotes toxic_lexicon meta_indicators literal quote_pattern sentence_end split pieces
    search_in
insult = refl

reported_insult :
    classify_toxicity numbers ascii lowered (codes "He called me an idiot") ≡ (10, false)
unfolding classify_toxicity max_sentence_score sentence_score matched_terms sum_weights is_meta
    all_in_quotes toxic_lexicon meta_indicators literal quote_pattern sentence_end split pieces
    search_in
reported_insult = refl

-- Two contractions make a quote of what stands between them.
contraction :
    classify_toxicity numbers ascii lowered (codes "You're an idiot, aren't you") ≡ (10, false)
unfolding classify_toxicity max_sentence_score sentence_score matched_terms sum_weights is_meta
    all_in_quotes toxic_lexicon meta_indicators literal quote_pattern sentence_end split pieces
    search_in
contraction = refl
