-- ===== src/AutoReply/Decision.antt =====
-- routing/decision.ts and routing/types.ts. Scores and thresholds in [0, 1] are fractions.
use openzigs_social.Prelude.{◌*◌, Bool, ◌&&◌, List, [], ◌∷◌, ◌++◌, leb, if◌then◌else◌}
use openzigs_social.Retry.Backoff.{Fraction}

-- a ≥ b
abbrev pub at_least : Fraction → Fraction → Bool
at_least a b = leb (b.num * a.den) (a.num * b.den)

pub record RoutingThresholds : Type 0 where
  pub confidence_threshold : Fraction
  pub voice_threshold : Fraction

pub record RoutingScores : Type 0 where
  pub confidence : Fraction
  pub voice_match : Fraction

pub data RoutingAction : Type 0 where
  auto_send queue : RoutingAction

-- Which text is pushed, with the numbers that it quotes.
pub data Reason : Type 0 where
  both_pass : RoutingScores → RoutingThresholds → Reason
  low_confidence low_voice : (score threshold : Fraction) → Reason

pub record RoutingDecision : Type 0 where
  pub action : RoutingAction
  pub auto_send : Bool
  pub confidence : Fraction
  pub voice_match : Fraction
  pub reasons : List Reason

abbrev pub passes : RoutingScores → RoutingThresholds → Bool
passes s t =
    at_least s.confidence t.confidence_threshold && at_least s.voice_match t.voice_threshold

abbrev pub reasons_for : RoutingScores → RoutingThresholds → List Reason
reasons_for s t =
    if passes s t
    then both_pass s t ∷ []
    else (if at_least s.confidence t.confidence_threshold
        then []
        else low_confidence s.confidence t.confidence_threshold ∷ [])
      ++ (if at_least s.voice_match t.voice_threshold
          then []
          else low_voice s.voice_match t.voice_threshold ∷ [])

unfoldable pub decide_routing : RoutingScores → RoutingThresholds → RoutingDecision
decide_routing s t = record {
  action = if passes s t then RoutingAction.auto_send else queue;
  auto_send = passes s t;
  confidence = s.confidence;
  voice_match = s.voice_match;
  reasons = reasons_for s t;
}
