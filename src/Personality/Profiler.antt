-- ===== src/Personality/Profiler.antt =====
-- personality/profiler.ts and personality/types.ts: how well a draft sounds like the rulebook. A score
-- in [0, 1] is a fraction of two numbers.
use openzigs_social.Prelude.{
  ℕ, ◌+◌, max, String, Bool, ◌||◌, get_or, List, [], ◌∷◌, any, ltb, ◌==◌, str_eq, length,
  if◌then◌else◌,
}
use openzigs_social.Prelude.Maps.{get, set}
use openzigs_social.Retry.Backoff.{Fraction}

pub record BrandVoiceRulebook : Type 0 where
  pub tone : String
  pub banned_words : List String
  pub exemplars : List String

abbrev pub empty_rulebook : BrandVoiceRulebook
empty_rulebook = record { tone = ""; banned_words = []; exemplars = [] }

pub record VoiceScore : Type 0 where
  pub score : Fraction
  pub tone_match : Fraction
  pub banned_word_penalty : ℕ
  pub banned_hits : List String

-- The text functions of the JavaScript runtime: `toLowerCase`, `trim`, `replace(/\s+/gu, " ")`,
-- `split(/[^a-z0-9]+/u)` without its empty parts, and `includes`.
pub record Text : Type 0 where
  pub to_lower_case : String → String
  pub trim : String → String
  pub collapse : String → String
  pub split_words : String → List String
  pub has_text : String → String → Bool

abbrev pub matched_weight : List String → List (String × ℕ) → ℕ
matched_weight tokens [] = 0
matched_weight tokens ((token, weight) ∷ m) =
    (if any (λ t. str_eq t token) tokens then weight else 0) + matched_weight tokens m

abbrev pub total_weight : List (String × ℕ) → ℕ
total_weight [] = 0
total_weight ((token, weight) ∷ m) = weight + total_weight m

abbrev pub zero_score : Fraction
zero_score = record { num = 0; den = 1 }

abbrev pub clamp01 : Fraction → Fraction
clamp01 f = if ltb f.den f.num then record { num = 1; den = 1 } else f

module _ (js : Text) where
  abbrev pub tokenize : String → List String
  tokenize text = js.split_words (js.to_lower_case text)

  abbrev pub weigh : ℕ → List String → List (String × ℕ) → List (String × ℕ)
  weigh weight [] m = m
  weigh weight (token ∷ ts) m = weigh weight ts (set token (max (get_or (get token m) 0) weight) m)

  abbrev pub weigh_exemplars : List String → List (String × ℕ) → List (String × ℕ)
  weigh_exemplars [] m = m
  weigh_exemplars (e ∷ es) m = weigh_exemplars es (weigh 1 (tokenize e) m)

  unfoldable pub build_vocabulary : BrandVoiceRulebook → List (String × ℕ)
  unfolding get set
  build_vocabulary rulebook =
      weigh_exemplars rulebook.exemplars (weigh 2 (tokenize rulebook.tone) [])

  -- The loop, with the set of the needles that were seen.
  unfoldable pub banned_from : String → List String → List String → List String
  banned_from haystack seen [] = []
  banned_from haystack seen (raw ∷ words) =
      let needle = js.collapse (js.trim (js.to_lower_case raw)) in
      let skipped = banned_from haystack seen words in
      let rest = banned_from haystack (needle ∷ seen) words in
      if str_eq needle "" || any (λ s. str_eq s needle) seen
      then skipped
      else if js.has_text haystack needle
      then raw ∷ rest
      else rest

  unfoldable pub find_banned_hits : String → List String → List String
  unfolding banned_from
  find_banned_hits draft banned_words =
      banned_from (js.collapse (js.to_lower_case draft)) [] banned_words

  unfoldable pub tone_of : String → BrandVoiceRulebook → Fraction
  unfolding build_vocabulary
  tone_of draft rulebook =
      let vocabulary = build_vocabulary rulebook in
      let total = total_weight vocabulary in
      if total == 0
      then zero_score
      else clamp01 (record { num = matched_weight (tokenize draft) vocabulary; den = total })

  unfoldable pub score_voice : String → BrandVoiceRulebook → VoiceScore
  unfolding find_banned_hits tone_of
  score_voice draft rulebook =
      let banned_hits = find_banned_hits draft rulebook.banned_words in
      let tone_match = tone_of draft rulebook in
      record {
        score = if ltb 0 (length banned_hits) then zero_score else tone_match;
        tone_match = tone_match;
        banned_word_penalty = length banned_hits;
        banned_hits = banned_hits;
      }
