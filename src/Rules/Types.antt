-- ===== src/Rules/Types.antt =====
-- inbox/rules/types.ts. A number is a natural number here: the engine compares counts.
use openzigs_social.Prelude.{ℕ, String, Bool, Option, List}

pub data ComparisonOperator : Type 0 where
  eq neq gt gte lt lte contains starts_with in_list exists : ComparisonOperator

-- A fact, and a member of a list that a condition compares against.
pub data Scalar : Type 0 where
  string : String → Scalar
  number : ℕ → Scalar
  boolean : Bool → Scalar

pub data ConditionValue : Type 0 where
  scalar : Scalar → ConditionValue
  array : List Scalar → ConditionValue

pub record ComparisonCondition : Type 0 where
  pub field : String
  pub op : ComparisonOperator
  pub value : Option ConditionValue

mutual
  pub data Condition : Type 0 where
    comparison : ComparisonCondition → Condition
    all_of any_of : Conditions → Condition
    not_of : Condition → Condition

  pub data Conditions : Type 0 where
    none_left : Conditions
    and_then : Condition → Conditions → Conditions

pub data Priority : Type 0 where
  low normal high urgent : Priority

unfoldable pub priority_rank : Priority → ℕ
priority_rank low = 0
priority_rank normal = 1
priority_rank high = 2
priority_rank urgent = 3

pub record RuleActions : Type 0 where
  pub priority : Option Priority
  pub tags : Option (List String)
  pub route : Option String
  pub flag : Option Bool

pub record RuleDefinition : Type 0 where
  pub id : ℕ
  pub name : String
  pub enabled : Bool
  pub sort_order : ℕ
  pub condition : Condition
  pub actions : RuleActions
  pub created_at : String
  pub updated_at : String

abbrev pub Facts : Type 0
Facts = List (String × Scalar)

pub record RuleEvaluation : Type 0 where
  pub fired_rule_ids : List ℕ
  pub priority : Option Priority
  pub tags : List String
  pub route : Option String
  pub flagged : Bool
  pub firings : List (ℕ × RuleActions)
