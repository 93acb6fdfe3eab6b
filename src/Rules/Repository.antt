-- ===== src/Rules/Repository.antt =====
-- inbox/rules/repository.ts: the methods of RuleRepository. The JSON columns are kept decoded, as the
-- validation gives them. `now` is the reading of datetime('now').
use openzigs_social.Prelude.{
  ℕ, String, Bool, true, false, ◌&&◌, ◌||◌, Option, none, some, get_or, List, [], ◌∷◌, keep, take,
  drop, ◌==◌, str_eq, if◌then◌else◌, is_some, length, ltb,
}
use mathlib.Core.Option
use openzigs_social.Effects.{Exec, Result, ok, err}
use openzigs_social.Sql.{Table, insert, update_where, delete_where, find}
use openzigs_social.Sql.Order.{sort_by}
use openzigs_social.Sql.Newest.{sort_newest}
use openzigs_social.Rules.Types.{Priority, normal, RuleActions, RuleDefinition, RuleEvaluation}
use openzigs_social.Rules.Engine.{Runtime, evaluate_rules}
use openzigs_social.Rules.Facts.{SocialMessage, SocialContact, SocialThread, build_facts}
use openzigs_social.Rules.Validate.{Raw, InvalidRule, validate_condition, validate_actions}

pub record RuleInput : Type 0 where
  pub name : String
  pub enabled : Option Bool
  pub sort_order : Option ℕ
  pub condition : Raw
  pub actions : Raw

pub record FiringRow : Type 0 where
  pub id : ℕ
  pub rule_id : Option ℕ
  pub platform : String
  pub platform_message_id : String
  pub message_id : ℕ
  pub actions : RuleActions
  pub fired_at : ℕ

pub record ThreadState : Type 0 where
  pub thread_id : ℕ
  pub priority : Priority
  pub flagged : Bool
  pub last_read_at : Option ℕ
  pub updated_at : ℕ

pub record RuleStore : Type 0 where
  pub rules : Table RuleDefinition
  pub firings : Table FiringRow
  pub states : List ThreadState

-- A message with its keys, and the thread with its key.
pub record FactSources : Type 0 where
  pub message : SocialMessage
  pub message_id : ℕ
  pub platform_message_id : String
  pub contact : Option SocialContact
  pub thread : Option (ℕ × SocialThread)

abbrev pub rule_id : RuleDefinition → ℕ
rule_id r = r.id

unfoldable pub get : ℕ → RuleStore → Option RuleDefinition
get k store = find rule_id k store.rules.rows

-- The row of an input, if both parts are accepted.
unfoldable pub to_row : String → RuleInput → Result InvalidRule (ℕ → RuleDefinition)
unfolding validate_condition validate_actions
to_row now input = elim (validate_condition input.condition) [
  | err e ↦ err e
  | ok condition ↦ elim (validate_actions input.actions) [
    | err e ↦ err e
    | ok actions ↦ ok (λ k. record {
      id = k;
      name = input.name;
      enabled = get_or input.enabled true;
      sort_order = get_or input.sort_order 0;
      condition = condition;
      actions = actions;
      created_at = now;
      updated_at = now;
    })
  ]
]

-- `none` is the throw for a row that is not found again.
unfoldable pub create : String → RuleInput → Exec RuleStore InvalidRule (Option RuleDefinition)
unfolding to_row insert get
create now input store = elim (to_row now input) [
  | err e ↦ (err e, store)
  | ok make ↦
      let store' : RuleStore = record store { rules = insert make store.rules } in
      (ok (get store'.rules.seq store'), store')
]

unfoldable pub update : String → ℕ → RuleInput → Exec RuleStore InvalidRule (Option RuleDefinition)
unfolding to_row update_where get
update now k input store =
    if is_some (get k store)
    then elim (to_row now input) [
      | err e ↦ (err e, store)
      | ok make ↦
          let store' : RuleStore = record store {
            rules =
                update_where (λ r. r.id == k) (λ r. record (make k) { created_at = r.created_at })
                  store.rules;
          } in
          (ok (get k store'), store')
    ]
    else (ok none, store)

abbrev pub fired_by : ℕ → FiringRow → Bool
fired_by k r = elim r.rule_id [ none ↦ false | some j ↦ j == k ]

-- The foreign key of the firings is ON DELETE SET NULL.
unfoldable pub delete : ℕ → RuleStore → Bool × RuleStore
unfolding delete_where update_where
delete k store =
    let rules = delete_where (λ r. r.id == k) store.rules in
    (
      ltb (length rules.rows) (length store.rules.rows),
      record store {
        rules = rules;
        firings = update_where (fired_by k) (λ r. record r { rule_id = none }) store.firings;
      },
    )

unfoldable pub list : Bool → RuleStore → List RuleDefinition
unfolding sort_by
list include_disabled store =
    sort_by (λ r. r.sort_order) (keep (λ r. include_disabled || r.enabled) store.rules.rows)

unfoldable pub list_firings : ℕ → ℕ → ℕ → RuleStore → List FiringRow
unfolding sort_newest
list_firings k limit offset store =
    take limit (drop offset (sort_newest (λ r. r.fired_at) (keep (fired_by k) store.firings.rows)))

unfoldable pub list_firings_for_message : String → String → RuleStore → List FiringRow
unfolding sort_newest
list_firings_for_message platform k store =
    sort_newest (λ r. r.fired_at)
      (keep (λ r. str_eq r.platform platform && str_eq r.platform_message_id k) store.firings.rows)

unfoldable pub upsert_state : ℕ → ℕ → Priority → Bool → List ThreadState → List ThreadState
upsert_state now t p f [] =
    record { thread_id = t; priority = p; flagged = f; last_read_at = none; updated_at = now } ∷ []
upsert_state now t p f (s ∷ ss) =
    if s.thread_id == t
    then record s { priority = p; flagged = s.flagged || f; updated_at = now } ∷ ss
    else s ∷ upsert_state now t p f ss

abbrev pub new_firing : ℕ → FactSources → ℕ × RuleActions → ℕ → FiringRow
new_firing now sources firing k = record {
  id = k;
  rule_id = some (firing.0);
  platform = sources.message.platform;
  platform_message_id = sources.platform_message_id;
  message_id = sources.message_id;
  actions = firing.1;
  fired_at = now;
}

unfoldable pub add_firings :
    ℕ → FactSources → List (ℕ × RuleActions) → Table FiringRow → Table FiringRow
unfolding insert
add_firings now sources [] t = t
add_firings now sources (f ∷ fs) t =
    add_firings now sources fs (insert (new_firing now sources f) t)

abbrev pub apply_state :
    ℕ → Option (ℕ × SocialThread) → RuleEvaluation → List ThreadState → List ThreadState
apply_state now none evaluation states = states
apply_state now (some (t, thread)) evaluation states =
    if is_some evaluation.priority || evaluation.flagged
    then upsert_state now t (get_or evaluation.priority normal) evaluation.flagged states
    else states

unfoldable pub apply_to_message : Runtime → ℕ → FactSources → RuleStore → RuleEvaluation × RuleStore
unfolding list add_firings upsert_state evaluate_rules build_facts
apply_to_message js now sources store =
    let facts =
      build_facts js sources.message sources.contact (Option.map (λ t. t.1) sources.thread) in
    let evaluation = evaluate_rules js (list false store) facts in
    (
      evaluation,
      record store {
        firings = add_firings now sources evaluation.firings store.firings;
        states = apply_state now sources.thread evaluation store.states;
      },
    )
