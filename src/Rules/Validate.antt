-- ===== src/Rules/Validate.antt =====
-- inbox/rules/repository.ts: validateCondition and validateActions. A value is parsed JSON, with natural
-- numbers; what they accept comes back as the type that it is asserted to have.
use openzigs_social.Prelude.{
  ℕ, zero, suc, String, Bool, true, false, ◌&&◌, not, Option, none, some, List, [], ◌∷◌, str_eq,
  if◌then◌else◌, is_some,
}
use openzigs_social.Effects.{Result, ok, err}
use openzigs_social.Rules.Types.{
  ComparisonOperator, eq, neq, gt, gte, lt, lte, contains, starts_with, in_list, exists, Scalar,
  string, number, boolean, ConditionValue, scalar, array, Condition, comparison, all_of, any_of,
  not_of, Conditions, none_left, and_then, Priority, low, normal, high, urgent, RuleActions,
}

mutual
  pub data Raw : Type 0 where
    raw_null : Raw
    raw_scalar : Scalar → Raw
    raw_array : Raws → Raw
    raw_object : RawFields → Raw

  pub data Raws : Type 0 where
    no_raws : Raws
    raw_item : Raw → Raws → Raws

  pub data RawFields : Type 0 where
    no_raw_fields : RawFields
    raw_field : String → Raw → RawFields → RawFields

pub data InvalidRule : Type 0 where
  nested_too_deeply not_an_object branch_not_an_array empty_field unknown_operator value_required :
      InvalidRule
  actions_not_an_object invalid_priority invalid_tags invalid_route invalid_flag : InvalidRule

unfoldable pub raw_get : String → RawFields → Option Raw
raw_get k no_raw_fields = none
raw_get k (raw_field j v fs) = if str_eq j k then some v else raw_get k fs

-- COMPARISON_OPS
unfoldable pub operator_of : String → Option ComparisonOperator
operator_of s =
    if str_eq s "eq"
    then some eq
    else if str_eq s "neq"
    then some neq
    else if str_eq s "gt"
    then some gt
    else if str_eq s "gte"
    then some gte
    else if str_eq s "lt"
    then some lt
    else if str_eq s "lte"
    then some lte
    else if str_eq s "contains"
    then some contains
    else if str_eq s "startsWith"
    then some starts_with
    else if str_eq s "in"
    then some in_list
    else if str_eq s "exists"
    then some exists
    else none

-- The strings and numbers of an array, if it has nothing else.
abbrev pub scalars_of : Raws → Option (List Scalar)
scalars_of no_raws = some []
scalars_of (raw_item (raw_scalar (string s)) vs) = elim (scalars_of vs) [
  | none ↦ none
  | some xs ↦ some (string s ∷ xs)
]
scalars_of (raw_item (raw_scalar (number n)) vs) = elim (scalars_of vs) [
  | none ↦ none
  | some xs ↦ some (number n ∷ xs)
]
scalars_of (raw_item (raw_scalar (boolean b)) vs) = none
scalars_of (raw_item raw_null vs) = none
scalars_of (raw_item (raw_array ws) vs) = none
scalars_of (raw_item (raw_object fs) vs) = none

abbrev pub value_of : Option Raw → Option ConditionValue
value_of (some (raw_scalar s)) = some (scalar s)
value_of (some (raw_array vs)) = elim (scalars_of vs) [ none ↦ none | some xs ↦ some (array xs) ]
value_of _ = none

abbrev pub text_of : Option Raw → Option String
text_of (some (raw_scalar (string s))) = some s
text_of _ = none

abbrev pub is_exists : ComparisonOperator → Bool
is_exists exists = true
is_exists _ = false

-- With `exists` the value is not looked at.
abbrev pub leaf : String → ComparisonOperator → Option Raw → Result InvalidRule Condition
leaf field op value =
    if not (is_exists op) && not (is_some (value_of value))
    then err value_required
    else ok (comparison (record { field = field; op = op; value = value_of value }))

abbrev pub validate_leaf : RawFields → Result InvalidRule Condition
validate_leaf fs = elim (text_of (raw_get "field" fs)) [
  | none ↦ err empty_field
  | some field ↦ if str_eq field "" then err empty_field else elim (text_of (raw_get "op" fs)) [
    | none ↦ err unknown_operator
    | some name ↦ elim (operator_of name) [
      | none ↦ err unknown_operator
      | some op ↦ leaf field op (raw_get "value" fs)
    ]
  ]
]

abbrev pub each : (Raw → Result InvalidRule Condition) → Raws → Result InvalidRule Conditions
each validate no_raws = ok none_left
each validate (raw_item v vs) = elim (validate v) [
  | err e ↦ err e
  | ok c ↦ elim (each validate vs) [ err e ↦ err e | ok cs ↦ ok (and_then c cs) ]
]

abbrev pub branch :
    (Raw → Result InvalidRule Condition)
    → (Conditions → Condition)
    → Raw
    → Result InvalidRule Condition
branch validate build (raw_array vs) = elim (each validate vs) [
  | err e ↦ err e
  | ok cs ↦ ok (build cs)
]
branch validate build _ = err branch_not_an_array

abbrev pub shape : (Raw → Result InvalidRule Condition) → RawFields → Result InvalidRule Condition
shape validate fs = elim (raw_get "all" fs) [
  | some v ↦ branch validate all_of v
  | none ↦ elim (raw_get "any" fs) [
    | some v ↦ branch validate any_of v
    | none ↦ elim (raw_get "not" fs) [
      | some v ↦ elim (validate v) [ err e ↦ err e | ok c ↦ ok (not_of c) ]
      | none ↦ validate_leaf fs
    ]
  ]
]

-- The levels that are left: MAX_CONDITION_DEPTH + 1 at the root, where the depth is 0.
unfoldable pub validate_at : ℕ → Raw → Result InvalidRule Condition
unfolding raw_get operator_of
validate_at zero value = err nested_too_deeply
validate_at (suc n) (raw_object fs) = shape (validate_at n) fs
validate_at (suc n) _ = err not_an_object

abbrev pub max_condition_depth : ℕ
max_condition_depth = 12

unfoldable pub validate_condition : Raw → Result InvalidRule Condition
unfolding validate_at
validate_condition value = validate_at (suc max_condition_depth) value

abbrev pub priority_of : Raw → Option Priority
priority_of (raw_scalar (string s)) =
    if str_eq s "low"
    then some low
    else if str_eq s "normal"
    then some normal
    else if str_eq s "high"
    then some high
    else if str_eq s "urgent"
    then some urgent
    else none
priority_of _ = none

abbrev pub texts_of : Raw → Option (List String)
texts_of (raw_array no_raws) = some []
texts_of (raw_array (raw_item v vs)) = elim (text_of (some v)) [
  | none ↦ none
  | some s ↦ elim (texts_of (raw_array vs)) [ none ↦ none | some ss ↦ some (s ∷ ss) ]
]
texts_of _ = none

abbrev pub flag_of : Raw → Option Bool
flag_of (raw_scalar (boolean b)) = some b
flag_of _ = none

-- A field that may be undefined, and else is of a form.
abbrev pub optional :
    {A : Type 0} → InvalidRule → (Raw → Option A) → Option Raw → Result InvalidRule (Option A)
optional e parse none = ok none
optional e parse (some v) = elim (parse v) [ none ↦ err e | some a ↦ ok (some a) ]

unfoldable pub validate_actions : Raw → Result InvalidRule RuleActions
unfolding raw_get
validate_actions (raw_object fs) =
    elim (optional invalid_priority priority_of (raw_get "priority" fs)) [
      | err e ↦ err e
      | ok p ↦ elim (optional invalid_tags texts_of (raw_get "tags" fs)) [
        | err e ↦ err e
        | ok ts ↦ elim (optional invalid_route (λ v. text_of (some v)) (raw_get "route" fs)) [
          | err e ↦ err e
          | ok r ↦ elim (optional invalid_flag flag_of (raw_get "flag" fs)) [
            | err e ↦ err e
            | ok f ↦ ok (record { priority = p; tags = ts; route = r; flag = f })
          ]
        ]
      ]
    ]
validate_actions _ = err actions_not_an_object
