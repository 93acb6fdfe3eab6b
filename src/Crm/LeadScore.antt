-- ===== src/Crm/LeadScore.antt =====
-- crm/lead-score.ts. Scores and weights are fractions, so that sums are exact.
use openzigs_social.Prelude.{
  ℕ, ◌+◌, ◌-◌, ◌*◌, String, Bool, List, [], ◌∷◌, any, ltb, ◌==◌, str_eq, if◌then◌else◌,
}
use openzigs_social.Retry.Backoff.{Fraction}
use openzigs_social.AutoReply.Decision.{at_least}

abbrev pub ratio : ℕ → ℕ → Fraction
ratio a b = record { num = a; den = b }

pub record LeadScoreWeights : Type 0 where
  pub engagement_window_days : ℕ
  pub engagement_target : ℕ
  pub follower_target : ℕ
  pub weight_engagement : Fraction
  pub weight_sentiment : Fraction
  pub weight_follower : Fraction
  pub top_threshold : Fraction
  pub high_threshold : Fraction
  pub medium_threshold : Fraction

abbrev pub default_lead_score_weights : LeadScoreWeights
default_lead_score_weights = record {
  engagement_window_days = 7;
  engagement_target = 30;
  follower_target = 100000;
  weight_engagement = ratio 7 10;
  weight_sentiment = ratio 1 10;
  weight_follower = ratio 2 10;
  top_threshold = ratio 3 4;
  high_threshold = ratio 1 2;
  medium_threshold = ratio 1 4;
}

pub record LeadScoreInput : Type 0 where
  pub engagement_count : ℕ
  pub follower_count : ℕ
  pub recent_messages : List String

pub data LeadBucket : Type 0 where
  top high medium low : LeadBucket

pub record LeadScore : Type 0 where
  pub score : Fraction
  pub bucket : LeadBucket
  pub engagement : Fraction
  pub sentiment : Fraction
  pub follower : Fraction

-- `toLowerCase().split(/[^a-z0-9]+/u)` without its empty parts, and the ratio of the logarithms
-- Math.log1p of two numbers.
pub record Scoring : Type 0 where
  pub tokenize : String → List String
  pub log_ratio : ℕ → ℕ → Fraction

abbrev pub positive_words : List String
positive_words =
    "thanks" ∷ "thank" ∷ "love" ∷ "loved" ∷ "great" ∷ "awesome" ∷ "amazing" ∷ "excited" ∷ "happy"
    ∷ "perfect" ∷ "excellent" ∷ "wonderful" ∷ "appreciate" ∷ "appreciated" ∷ "good" ∷ "best"
    ∷ "interested" ∷ "yes" ∷ "please" ∷ "helpful" ∷ []

abbrev pub negative_words : List String
negative_words =
    "hate" ∷ "hated" ∷ "terrible" ∷ "awful" ∷ "bad" ∷ "worst" ∷ "angry" ∷ "annoyed" ∷ "annoying"
    ∷ "disappointed" ∷ "disappointing" ∷ "refund" ∷ "cancel" ∷ "cancelled" ∷ "broken" ∷ "useless"
    ∷ "scam" ∷ "never" ∷ "unsubscribe" ∷ "complaint" ∷ []

abbrev pub clamp01 : Fraction → Fraction
clamp01 f = if ltb f.den f.num then ratio 1 1 else f

abbrev has : List String → String → Bool
has words t = any (λ w. str_eq w t) words

-- The counts of positive and negative tokens.
abbrev pub count_tokens : List String → ℕ × ℕ → ℕ × ℕ
count_tokens [] n = n
count_tokens (t ∷ ts) (positive, negative) = count_tokens ts (
    if has positive_words t
    then (positive + 1, negative)
    else if has negative_words t
    then (positive, negative + 1)
    else (positive, negative))

-- a + b, and a · b.
abbrev pub add : Fraction → Fraction → Fraction
add a b = ratio (a.num * b.den + b.num * a.den) (a.den * b.den)

abbrev pub times : Fraction → Fraction → Fraction
times a b = ratio (a.num * b.num) (a.den * b.den)

abbrev pub or_one : ℕ → ℕ
or_one n = if ltb 0 n then n else 1

unfoldable pub bucket_for : Fraction → LeadScoreWeights → LeadBucket
bucket_for score w =
    if at_least score w.top_threshold
    then top
    else if at_least score w.high_threshold
    then high
    else if at_least score w.medium_threshold
    then medium
    else low

module _ (js : Scoring) where
  abbrev pub count_messages : List String → ℕ × ℕ → ℕ × ℕ
  count_messages [] n = n
  count_messages (m ∷ ms) n = count_messages ms (count_tokens (js.tokenize m) n)

  -- 0.5 + 0.5 · (positive - negative) / total, which is (total + positive - negative) / (2 · total).
  unfoldable pub score_sentiment : List String → Fraction
  score_sentiment messages =
      let (positive, negative) = count_messages messages (0, 0) in
      let total = positive + negative in
      if total == 0 then ratio 1 2 else clamp01 (ratio (total + positive - negative) (2 * total))

  unfoldable pub score_lead : LeadScoreInput → LeadScoreWeights → LeadScore
  unfolding score_sentiment bucket_for
  score_lead input w =
      let engagement = clamp01 (ratio input.engagement_count (or_one w.engagement_target)) in
      let sentiment = score_sentiment input.recent_messages in
      let follower = clamp01 (js.log_ratio input.follower_count (or_one w.follower_target)) in
      let score = clamp01 (
        add (add (times w.weight_engagement engagement) (times w.weight_sentiment sentiment))
          (times w.weight_follower follower)) in
      record {
        score = score;
        bucket = bucket_for score w;
        engagement = engagement;
        sentiment = sentiment;
        follower = follower;
      }
