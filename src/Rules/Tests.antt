-- ===== src/Rules/Tests.antt =====
-- Two rules on a message from an author with many followers.
use openzigs_social.Prelude.{ℕ, String, true, refl, none, some, List, [], ◌∷◌, ◌≡◌, map, any}
use openzigs_social.Rules.Types.{
  gte, number, scalar, Condition, comparison, not_of, Priority, high, urgent, RuleDefinition, Facts,
}
use openzigs_social.Rules.Engine.{Runtime, evaluate_rules}
use openzigs_social.Rules.Facts.{SocialMessage}
use openzigs_social.Rules.Laws.{has_tag, flags, tags_of, fired, evaluate_rules-fired}
use openzigs_social.Rules.Types.{boolean, all_of, any_of, none_left, and_then}
use openzigs_social.Effects.{ok}
use openzigs_social.Sql.{empty_table}
use openzigs_social.Rules.Validate.{
  raw_object, raw_field, raw_scalar, no_raw_fields, max_condition_depth, validate_condition,
}
use openzigs_social.Rules.Encode.{encode, Fits, validate_condition-encode}
use openzigs_social.Rules.Repository.{RuleInput, FactSources, RuleStore}
use openzigs_social.Rules.Trail.{Call, create_call, apply_call, delete_call}

-- A runtime for texts that are in lower case and hold no numbers.
abbrev js : Runtime
js = record { to_lower = λ s. s; to_number = λ s. none; show_number = λ n. "0" }

abbrev famous : ℕ → Condition
famous n =
    comparison
      (record { field = "author.followerCount"; op = gte; value = some (scalar (number n)) })

abbrev rule : ℕ → Condition → Priority → String → RuleDefinition
rule id condition priority tag = record {
  id = id;
  name = "rule";
  enabled = true;
  sort_order = id;
  condition = condition;
  actions = record {
    priority = some priority;
    tags = some (tag ∷ []);
    route = none;
    flag = some true;
  };
  created_at = "";
  updated_at = "";
}

abbrev rules : List RuleDefinition
rules = rule 1 (famous 1000) urgent "vip" ∷ rule 2 (not_of (famous 10)) high "new" ∷ []

abbrev message : SocialMessage
message = record { platform = "threads"; direction = "inbound"; body = "hi"; metadata = none }

abbrev facts : Facts
facts = ("author.followerCount", number 5000) ∷ []

evaluate_rules-fired_example :
    let e = evaluate_rules js rules facts in
    (e.fired_rule_ids ≡ map (λ r. r.id) (fired js rules facts))
    × (e.firings ≡ map (λ r. (r.id, r.actions)) (fired js rules facts))
    × (e.flagged ≡ any flags (fired js rules facts))
    × ((t : String) → has_tag t e.tags ≡ any (λ r. has_tag t (tags_of r)) (fired js rules facts))
evaluate_rules-fired_example = evaluate_rules-fired js rules facts

nested :
    Fits max_condition_depth
      (all_of (and_then (not_of (famous 10)) (and_then (any_of none_left) none_left)))
nested = ((refl, tt, refl), (tt, tt))

validate_condition-encode_example :
    validate_condition
      (encode (all_of (and_then (not_of (famous 10)) (and_then (any_of none_left) none_left))))
    ≡ ok (all_of (and_then (not_of (famous 10)) (and_then (any_of none_left) none_left)))
validate_condition-encode_example =
    validate_condition-encode
      (all_of (and_then (not_of (famous 10)) (and_then (any_of none_left) none_left))) nested

abbrev flag_all : RuleInput
flag_all = record {
  name = "flag all";
  enabled = none;
  sort_order = none;
  condition = encode (not_of (famous 10));
  actions = raw_object (raw_field "flag" (raw_scalar (boolean true)) no_raw_fields);
}

abbrev sources : FactSources
sources = record {
  message = message;
  message_id = 3;
  platform_message_id = "m3";
  contact = none;
  thread = some (7, record { platform = "threads"; subject = none });
}

abbrev no_rules : RuleStore
no_rules = record { rules = empty_table; firings = empty_table; states = [] }

abbrev history : List Call
history =
    create_call "2026" flag_all ∷ apply_call 20 sources ∷ delete_call 1 ∷ apply_call 30 sources ∷ []
