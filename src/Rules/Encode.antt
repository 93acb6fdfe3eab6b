-- ===== src/Rules/Encode.antt =====
-- Lemmas on validateCondition of inbox/rules/repository.ts: a condition, written as JSON, is accepted.
use openzigs_social.Prelude.{
  ℕ, zero, suc, String, false, Option, none, some, List, [], ◌∷◌, ◌≡◌, refl, ◌∙◌, str_eq, not, ◌&&◌,
  is_some,
}
use openzigs_social.Effects.{Result, ok}
use openzigs_social.Rules.Types.{
  ComparisonOperator, eq, neq, gt, gte, lt, lte, contains, starts_with, in_list, exists, Scalar,
  string, number, boolean, ConditionValue, scalar, array, ComparisonCondition, Condition,
  comparison, all_of, any_of, not_of, Conditions, none_left, and_then,
}
use openzigs_social.Rules.Validate.{
  Raw, raw_scalar, raw_array, raw_object, Raws, no_raws, raw_item, RawFields, no_raw_fields,
  raw_field, InvalidRule, raw_get, operator_of, scalars_of, value_of, is_exists, leaf,
  validate_leaf, each, branch, shape, validate_at, validate_condition, max_condition_depth,
}

abbrev pub operator_name : ComparisonOperator → String
operator_name eq = "eq"
operator_name neq = "neq"
operator_name gt = "gt"
operator_name gte = "gte"
operator_name lt = "lt"
operator_name lte = "lte"
operator_name contains = "contains"
operator_name starts_with = "startsWith"
operator_name in_list = "in"
operator_name exists = "exists"

abbrev pub encode_scalars : List Scalar → Raws
encode_scalars [] = no_raws
encode_scalars (s ∷ ss) = raw_item (raw_scalar s) (encode_scalars ss)

abbrev pub encode_value : Option ConditionValue → RawFields
encode_value none = no_raw_fields
encode_value (some (scalar s)) = raw_field "value" (raw_scalar s) no_raw_fields
encode_value (some (array ss)) = raw_field "value" (raw_array (encode_scalars ss)) no_raw_fields

abbrev pub encode_leaf : ComparisonCondition → RawFields
encode_leaf l =
    raw_field "field" (raw_scalar (string l.field))
      (raw_field "op" (raw_scalar (string (operator_name l.op))) (encode_value l.value))

-- JSON.stringify of a condition.
abbrev mutual
  pub encode : Condition → Raw
  encode (comparison l) = raw_object (encode_leaf l)
  encode (all_of cs) = raw_object (raw_field "all" (raw_array (encode_all cs)) no_raw_fields)
  encode (any_of cs) = raw_object (raw_field "any" (raw_array (encode_all cs)) no_raw_fields)
  encode (not_of c) = raw_object (raw_field "not" (encode c) no_raw_fields)

  pub encode_all : Conditions → Raws
  encode_all none_left = no_raws
  encode_all (and_then c cs) = raw_item (encode c) (encode_all cs)

abbrev HasNoBoolean : List Scalar → Type 0
HasNoBoolean [] = Unit
HasNoBoolean (string s ∷ ss) = HasNoBoolean ss
HasNoBoolean (number n ∷ ss) = HasNoBoolean ss
HasNoBoolean (boolean b ∷ ss) = ⊥

abbrev IsValue : Option ConditionValue → Type 0
IsValue none = Unit
IsValue (some (scalar s)) = Unit
IsValue (some (array ss)) = HasNoBoolean ss

-- An operator other than `exists` has a value.
abbrev HasOperand : ComparisonOperator → Option ConditionValue → Type 0
HasOperand op v = (not (is_exists op) && not (is_some v)) ≡ false

abbrev pub IsLeaf : ComparisonCondition → Type 0
IsLeaf l = (str_eq l.field "" ≡ false) × IsValue l.value × HasOperand l.op l.value

-- A condition with n levels below its root at most, and proper leaves.
abbrev mutual
  pub Fits : ℕ → Condition → Type 0
  Fits n (comparison l) = IsLeaf l
  Fits n (all_of cs) = AllFit n cs
  Fits n (any_of cs) = AllFit n cs
  Fits zero (not_of c) = ⊥
  Fits (suc n) (not_of c) = Fits n c

  pub AllFit : ℕ → Conditions → Type 0
  AllFit n none_left = Unit
  AllFit zero (and_then c cs) = ⊥
  AllFit (suc n) (and_then c cs) = Fits n c × AllFit (suc n) cs

operator_of-name : (op : ComparisonOperator) → operator_of (operator_name op) ≡ some op
unfolding operator_of
operator_of-name eq = refl
operator_of-name neq = refl
operator_of-name gt = refl
operator_of-name gte = refl
operator_of-name lt = refl
operator_of-name lte = refl
operator_of-name contains = refl
operator_of-name starts_with = refl
operator_of-name in_list = refl
operator_of-name exists = refl

scalars_of-encode : (ss : List Scalar) → HasNoBoolean ss → scalars_of (encode_scalars ss) ≡ some ss
scalars_of-encode [] h = refl
scalars_of-encode (string s ∷ ss) h = rw (scalars_of-encode ss h) refl
scalars_of-encode (number n ∷ ss) h = rw (scalars_of-encode ss h) refl
scalars_of-encode (boolean b ∷ ss) h = elim h [ ]

value_of-encode :
    (v : Option ConditionValue) → IsValue v → value_of (raw_get "value" (encode_value v)) ≡ v
unfolding raw_get
value_of-encode none h = refl
value_of-encode (some (scalar s)) h = refl
value_of-encode (some (array ss)) h = rw (scalars_of-encode ss h, value_of) refl

leaf-encode :
    (field : String) (op : ComparisonOperator) (v : Option ConditionValue)
    → IsValue v
    → HasOperand op v
    → leaf field op (raw_get "value" (encode_value v))
      ≡ ok (comparison (record { field = field; op = op; value = v }))
leaf-encode field op v h k = rw (value_of-encode v h) (rw k refl)

validate_leaf-encode :
    (l : ComparisonCondition) → IsLeaf l → validate_leaf (encode_leaf l) ≡ ok (comparison l)
unfolding raw_get
validate_leaf-encode l h =
    rw (h.0, operator_of-name l.op) (leaf-encode l.field l.op l.value h.1 h.2)

module _ (validate : Raw → Result InvalidRule Condition) where
  branch-ok :
      (build : Conditions → Condition) (vs : Raws) (cs : Conditions)
      → each validate vs ≡ ok cs
      → branch validate build (raw_array vs) ≡ ok (build cs)
  branch-ok build vs cs h = rw (h, branch) refl

  each-ok :
      (v : Raw) (vs : Raws) (c : Condition) (cs : Conditions)
      → validate v ≡ ok c
      → each validate vs ≡ ok cs
      → each validate (raw_item v vs) ≡ ok (and_then c cs)
  each-ok v vs c cs h k = rw (h, k, each) refl

  shape-all :
      (v : Raw) → shape validate (raw_field "all" v no_raw_fields) ≡ branch validate all_of v
  unfolding raw_get
  shape-all v = refl

  shape-any :
      (v : Raw) → shape validate (raw_field "any" v no_raw_fields) ≡ branch validate any_of v
  unfolding raw_get
  shape-any v = refl

  shape-not :
      (v : Raw) (c : Condition)
      → validate v ≡ ok c
      → shape validate (raw_field "not" v no_raw_fields) ≡ ok (not_of c)
  unfolding raw_get
  shape-not v c h = rw h refl

  shape-leaf :
      (f : String) (op : ComparisonOperator) (v : Option ConditionValue)
      → let fs = encode_leaf (record { field = f; op = op; value = v }) in
        shape validate fs ≡ validate_leaf fs
  unfolding raw_get
  shape-leaf f op none = refl
  shape-leaf f op (some (scalar v)) = refl
  shape-leaf f op (some (array vs)) = refl

validate_at-object :
    (n : ℕ) (fs : RawFields) → validate_at (suc n) (raw_object fs) ≡ shape (validate_at n) fs
unfolding validate_at
validate_at-object n fs = refl

mutual
  validate_at-encode : (n : ℕ) (c : Condition) → Fits n c → validate_at (suc n) (encode c) ≡ ok c
  validate_at-encode n (comparison l) h =
      validate_at-object n _
      ∙ shape-leaf (validate_at n) l.field l.op l.value
      ∙ validate_leaf-encode l h
  validate_at-encode n (all_of cs) h =
      validate_at-object n _
      ∙ shape-all (validate_at n) (raw_array (encode_all cs))
      ∙ branch-ok (validate_at n) all_of (encode_all cs) cs (each-encode_all n cs h)
  validate_at-encode n (any_of cs) h =
      validate_at-object n _
      ∙ shape-any (validate_at n) (raw_array (encode_all cs))
      ∙ branch-ok (validate_at n) any_of (encode_all cs) cs (each-encode_all n cs h)
  validate_at-encode zero (not_of c) h = elim h [ ]
  validate_at-encode (suc n) (not_of c) h =
      validate_at-object (suc n) _
      ∙ shape-not (validate_at (suc n)) (encode c) c (validate_at-encode n c h)

  each-encode_all :
      (n : ℕ) (cs : Conditions) → AllFit n cs → each (validate_at n) (encode_all cs) ≡ ok cs
  each-encode_all n none_left h = refl
  each-encode_all zero (and_then c cs) h = elim h [ ]
  each-encode_all (suc n) (and_then c cs) h =
      each-ok (validate_at (suc n)) (encode c) (encode_all cs) c cs (validate_at-encode n c h.0)
        (each-encode_all (suc n) cs h.1)

-- A condition that is at most twelve levels deep below its root, whose comparisons have a field
-- that is not empty, a value unless they test for existence, and no boolean within a list,
-- written as JSON, is accepted and comes back as it was.
pub validate_condition-encode :
    (c : Condition) → Fits max_condition_depth c → validate_condition (encode c) ≡ ok c
unfolding validate_condition
validate_condition-encode c h = validate_at-encode max_condition_depth c h
