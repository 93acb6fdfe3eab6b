-- ===== src/Rules/Engine.antt =====
-- inbox/rules/engine.ts. `toLowerCase`, `Number(s)` (none for a blank text or one that is no finite
-- number) and `String(v)` of a number are parameters. Metadata is an object whose values are
-- scalars or something else.
use text.Mathlib.Text.{starts_with as text_starts_with, find?}
use openzigs_social.Prelude.{
  ℕ, String, Bool, true, false, ◌&&◌, ◌||◌, not, Option, none, some, get_or, List, [], ◌∷◌, ◌++◌,
  any, leb, ltb, ◌==◌, str_eq, if◌then◌else◌, is_some,
}
use openzigs_social.Prelude.Maps.{get}
use openzigs_social.Rules.Types.{
  ComparisonOperator, eq, neq, gt, gte, lt, lte, contains, starts_with, in_list, exists, Scalar,
  string, number, boolean, ConditionValue, scalar, array, ComparisonCondition, Condition,
  comparison, all_of, any_of, not_of, Conditions, none_left, and_then, Priority, priority_rank,
  RuleDefinition, Facts, RuleEvaluation,
}

-- What the engine asks of the language.
pub record Runtime : Type 0 where
  pub to_lower : String → String
  pub to_number : String → Option ℕ
  pub show_number : ℕ → String

-- `===` on scalars.
unfoldable pub same_scalar : Scalar → Scalar → Bool
same_scalar (string a) (string b) = str_eq a b
same_scalar (number a) (number b) = a == b
same_scalar (boolean true) (boolean b) = b
same_scalar (boolean false) (boolean b) = not b
same_scalar _ _ = false

-- `actual === expected`, where both may be undefined; a list is never a fact.
unfoldable pub same_value : Option Scalar → Option ConditionValue → Bool
same_value none none = true
same_value (some a) (some (scalar b)) = same_scalar a b
same_value _ _ = false

abbrev pub show_boolean : Bool → String
show_boolean true = "true"
show_boolean false = "false"

unfoldable pub higher_priority : Option Priority → Priority → Priority
higher_priority none b = b
higher_priority (some a) b = if ltb (priority_rank a) (priority_rank b) then b else a

-- Set.prototype.add for each of the tags.
unfoldable pub add_tags : List String → List String → List String
add_tags [] seen = seen
add_tags (t ∷ ts) seen = add_tags ts (if any (λ s. str_eq s t) seen then seen else seen ++ t ∷ [])

abbrev pub raise : Option Priority → Option Priority → Option Priority
raise none result = result
raise (some p) result = some (higher_priority result p)

-- `if (rule.actions.route)`: an empty route is none.
abbrev pub reroute : Option String → Option String → Option String
reroute none result = result
reroute (some r) result = if str_eq r "" then result else some r

unfoldable pub fire_rule : RuleDefinition → RuleEvaluation → RuleEvaluation
fire_rule rule result = record {
  fired_rule_ids = result.fired_rule_ids ++ rule.id ∷ [];
  priority = raise rule.actions.priority result.priority;
  tags = add_tags (get_or rule.actions.tags []) result.tags;
  route = reroute rule.actions.route result.route;
  flagged = result.flagged || get_or rule.actions.flag false;
  firings = result.firings ++ (rule.id, rule.actions) ∷ [];
}

abbrev pub no_result : RuleEvaluation
no_result = record {
  fired_rule_ids = [];
  priority = none;
  tags = [];
  route = none;
  flagged = false;
  firings = [];
}

module _ (js : Runtime) where
  unfoldable pub as_number : Scalar → Option ℕ
  as_number (number n) = some n
  as_number (string s) = js.to_number s
  as_number (boolean b) = none

  unfoldable pub as_string : Scalar → String
  as_string (string s) = s
  as_string (number n) = js.show_number n
  as_string (boolean b) = show_boolean b

  -- A test on two numbers, `false` unless both sides are numbers.
  unfoldable pub compare_numbers : (ℕ → ℕ → Bool) → Option Scalar → Option ConditionValue → Bool
  compare_numbers test (some a) (some (scalar b)) = elim (as_number a) [
    | none ↦ false
    | some m ↦ elim (as_number b) [ none ↦ false | some n ↦ test m n ]
  ]
  compare_numbers test _ _ = false

  unfoldable pub compare_strings :
      (String → String → Bool) → Option Scalar → Option ConditionValue → Bool
  compare_strings test (some a) (some (scalar b)) =
      test (js.to_lower (as_string a)) (js.to_lower (as_string b))
  compare_strings test _ _ = false

  unfoldable pub in_values : Option Scalar → Option ConditionValue → Bool
  in_values (some a) (some (array items)) = any (λ item. same_scalar item a) items
  in_values _ _ = false

  unfoldable pub compare_by : ComparisonOperator → Option Scalar → Option ConditionValue → Bool
  compare_by eq a e = same_value a e
  compare_by neq a e = not (same_value a e)
  compare_by gt a e = compare_numbers (λ m n. ltb n m) a e
  compare_by gte a e = compare_numbers (λ m n. leb n m) a e
  compare_by lt a e = compare_numbers ltb a e
  compare_by lte a e = compare_numbers leb a e
  compare_by contains a e = compare_strings (λ hay needle. is_some (find? hay needle)) a e
  compare_by starts_with a e = compare_strings text_starts_with a e
  compare_by in_list a e = in_values a e
  compare_by exists a e = is_some a

  unfoldable pub evaluate_comparison : ComparisonCondition → Facts → Bool
  evaluate_comparison cond facts = compare_by cond.op (get cond.field facts) cond.value

  unfoldable mutual
    pub evaluate_condition : Condition → Facts → Bool
    evaluate_condition (comparison c) facts = evaluate_comparison c facts
    evaluate_condition (all_of cs) facts = evaluate_every cs facts
    evaluate_condition (any_of cs) facts = evaluate_some cs facts
    evaluate_condition (not_of c) facts = not (evaluate_condition c facts)

    pub evaluate_every : Conditions → Facts → Bool
    evaluate_every none_left facts = true
    evaluate_every (and_then c cs) facts = evaluate_condition c facts && evaluate_every cs facts

    pub evaluate_some : Conditions → Facts → Bool
    evaluate_some none_left facts = false
    evaluate_some (and_then c cs) facts = evaluate_condition c facts || evaluate_some cs facts

  -- Whether the loop gets past its two guards.
  unfoldable pub fires : Facts → RuleDefinition → Bool
  fires facts rule = rule.enabled && evaluate_condition rule.condition facts

  unfoldable pub evaluate_from : List RuleDefinition → Facts → RuleEvaluation → RuleEvaluation
  evaluate_from [] facts result = result
  evaluate_from (rule ∷ rules) facts result =
      evaluate_from rules facts (if fires facts rule then fire_rule rule result else result)

  unfoldable pub evaluate_rules : List RuleDefinition → Facts → RuleEvaluation
  evaluate_rules rules facts = evaluate_from rules facts no_result
