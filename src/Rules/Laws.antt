-- ===== src/Rules/Laws.antt =====
-- Lemmas on inbox/rules/engine.ts: the rules that fire, their tags and priorities.
use openzigs_social.Prelude.{
  ◌≤◌, String, Bool, false, ◌||◌, Option, none, some, get_or, List, [], ◌∷◌, ◌++◌, map, any, keep,
  Memᴰ, ◌≡◌, refl, ap, sym, ◌∙◌, ◌⊎◌, inl, inr, arith, ltb, str_eq, eq_iff, Bool-cases,
}
use mathlib.Core.List.{append_assoc, append-nil}
use openzigs_social.Rules.Types.{Priority, priority_rank, RuleDefinition, Facts, RuleEvaluation}
use openzigs_social.Rules.Engine.{
  Runtime, higher_priority, add_tags, raise, fire_rule, fires, evaluate_from, no_result,
  evaluate_rules,
}

-- Whether a tag is among tags, and what a rule sets.
abbrev pub has_tag : String → List String → Bool
has_tag t ts = any (λ s. str_eq s t) ts

abbrev pub flags : RuleDefinition → Bool
flags rule = get_or rule.actions.flag false

abbrev pub tags_of : RuleDefinition → List String
tags_of rule = get_or rule.actions.tags []

-- Rules fired one after another.
abbrev fire_all : List RuleDefinition → RuleEvaluation → RuleEvaluation
fire_all [] e = e
fire_all (r ∷ rs) e = fire_all rs (fire_rule r e)

fire_all-ids :
    (rs : List RuleDefinition) (e : RuleEvaluation)
    → ((fire_all rs e).fired_rule_ids ≡ e.fired_rule_ids ++ map (λ r. r.id) rs)
      × ((fire_all rs e).firings ≡ e.firings ++ map (λ r. (r.id, r.actions)) rs)
      × ((fire_all rs e).flagged ≡ (e.flagged || any flags rs))
unfolding fire_rule
fire_all-ids [] e = (sym (append-nil _), sym (append-nil _), ground arith)
fire_all-ids (r ∷ rs) e =
    let (ids, firings, flagged) = fire_all-ids rs (fire_rule r e) in
    (
      ids ∙ append_assoc e.fired_rule_ids (r.id ∷ []) _,
      firings ∙ append_assoc e.firings ((r.id, r.actions) ∷ []) _,
      flagged ∙ ground arith,
    )

has_tag-snoc :
    (t s : String) (ts : List String) → has_tag t (ts ++ s ∷ []) ≡ (has_tag t ts || str_eq s t)
has_tag-snoc t s [] = ground arith
has_tag-snoc t s (u ∷ ts) = ground (arith, has_tag-snoc t s ts)

has_tag-add_tags :
    (t : String) (ts seen : List String)
    → has_tag t (add_tags ts seen) ≡ (has_tag t seen || has_tag t ts)
unfolding add_tags
has_tag-add_tags t [] seen = ground arith
has_tag-add_tags t (u ∷ ts) seen = elim (Bool-cases (has_tag u seen)) [
  | inl old ↦ rw old (
      has_tag-add_tags t ts seen ∙ elim (Bool-cases (str_eq u t)) [
        | inl hit ↦ rw hit (rw (ap (λ x. has_tag x seen) (sym ((eq_iff u t).0 hit)) ∙ old) refl)
        | inr miss ↦ rw miss refl
      ])
  | inr new ↦
      rw new (has_tag-add_tags t ts (seen ++ u ∷ []) ∙ ground (arith, has_tag-snoc t u seen))
]

fire_all-tags :
    (t : String) (rs : List RuleDefinition) (e : RuleEvaluation)
    → has_tag t (fire_all rs e).tags ≡ (has_tag t e.tags || any (λ r. has_tag t (tags_of r)) rs)
unfolding fire_rule
fire_all-tags t [] e = ground arith
fire_all-tags t (r ∷ rs) e =
    fire_all-tags t rs (fire_rule r e) ∙ ground (arith, has_tag-add_tags t (tags_of r) e.tags)

-- A priority that is at least another, where none is the least.
abbrev pub IsRaised : Option Priority → Priority → Type 0
IsRaised o p = (q : Priority) × (o ≡ some q) × (priority_rank p ≤ priority_rank q)

raise-kept : (p : Priority) (o r : Option Priority) → IsRaised o p → IsRaised (raise r o) p
unfolding higher_priority
raise-kept p o none h = h
raise-kept p o (some r) (q, e, le) = elim (Bool-cases (ltb (priority_rank q) (priority_rank r))) [
  | inl up ↦ rw e (r, rw up refl, ground (arith, up, le))
  | inr down ↦ rw e (q, rw down refl, le)
]

raise-new : (p : Priority) (o : Option Priority) → IsRaised (raise (some p) o) p
unfolding higher_priority
raise-new p none = (p, refl, omega arith)
raise-new p (some q) = elim (Bool-cases (ltb (priority_rank q) (priority_rank p))) [
  | inl up ↦ (p, rw up refl, omega arith)
  | inr down ↦ (q, rw down refl, ground (arith, down))
]

raise-from :
    (q : Priority) (r o : Option Priority) → raise r o ≡ some q → (r ≡ some q) ⊎ (o ≡ some q)
unfolding higher_priority
raise-from q none o h = inr h
raise-from q (some r) none h = inl h
raise-from q (some r) (some p) h = elim (Bool-cases (ltb (priority_rank p) (priority_rank r))) [
  | inl up ↦ inl (rw up at h)
  | inr down ↦ inr (rw down at h)
]

fire_all-kept :
    (p : Priority) (rs : List RuleDefinition) (e : RuleEvaluation)
    → IsRaised e.priority p
    → IsRaised (fire_all rs e).priority p
unfolding fire_rule
fire_all-kept p [] e h = h
fire_all-kept p (r ∷ rs) e h =
    fire_all-kept p rs (fire_rule r e) (raise-kept p e.priority r.actions.priority h)

fire_all-IsRaised :
    (p : Priority) {r : RuleDefinition} (rs : List RuleDefinition) (e : RuleEvaluation)
    → Memᴰ r rs
    → r.actions.priority ≡ some p
    → IsRaised (fire_all rs e).priority p
unfolding fire_rule
fire_all-IsRaised p [] e m h = elim m [ ]
fire_all-IsRaised p (r ∷ rs) e (Memᴰ.head same) h =
    fire_all-kept p rs (fire_rule r e)
      (rw (ap (λ x. x.actions.priority) (sym same) ∙ h) (raise-new p e.priority))
fire_all-IsRaised p (r ∷ rs) e (Memᴰ.tail m) h = fire_all-IsRaised p rs (fire_rule r e) m h

fire_all-attained :
    (q : Priority) (rs : List RuleDefinition) (e : RuleEvaluation)
    → (fire_all rs e).priority ≡ some q
    → (e.priority ≡ some q) ⊎ ((r : RuleDefinition) × Memᴰ r rs × (r.actions.priority ≡ some q))
unfolding fire_rule
fire_all-attained q [] e h = inl h
fire_all-attained q (r ∷ rs) e h = elim (fire_all-attained q rs (fire_rule r e) h) [
  | inr (s, m, at') ↦ inr (s, Memᴰ.tail m, at')
  | inl early ↦ elim (raise-from q r.actions.priority e.priority early) [
    | inl here ↦ inr (r, Memᴰ.head refl, here)
    | inr old ↦ inl old
  ]
]

module _ (js : Runtime) where
  -- The rules that fire.
  abbrev pub fired : List RuleDefinition → Facts → List RuleDefinition
  fired rules facts = keep (fires js facts) rules

  evaluate_from_lem :
      (rules : List RuleDefinition) (facts : Facts) (e : RuleEvaluation)
      → evaluate_from js rules facts e ≡ fire_all (fired rules facts) e
  unfolding evaluate_from
  evaluate_from_lem [] facts e = refl
  evaluate_from_lem (r ∷ rules) facts e = elim (Bool-cases (fires js facts r)) [
    | inl on ↦ rw on (evaluate_from_lem rules facts (fire_rule r e))
    | inr off ↦ rw off (evaluate_from_lem rules facts e)
  ]

  -- The evaluation of an ordered set of rules lists the ids and the actions of the enabled rules
  -- whose condition holds, in order, is flagged just if one of these flags, and has a tag just
  -- if one of these has it.
  pub evaluate_rules-fired :
      (rules : List RuleDefinition) (facts : Facts)
      → let e = evaluate_rules js rules facts in
        (e.fired_rule_ids ≡ map (λ r. r.id) (fired rules facts))
        × (e.firings ≡ map (λ r. (r.id, r.actions)) (fired rules facts))
        × (e.flagged ≡ any flags (fired rules facts))
        × ((t : String) → has_tag t e.tags ≡ any (λ r. has_tag t (tags_of r)) (fired rules facts))
  unfolding evaluate_rules
  evaluate_rules-fired rules facts =
      let rs = fired rules facts in
      let (ids, firings, flagged) = fire_all-ids rs no_result in
      rw evaluate_from_lem (ids, firings, flagged, λ t. fire_all-tags t rs no_result)

  -- The priority of an evaluation is at least that of every rule that fires, and it is the
  -- priority of one of them.
  evaluate_rules-priority :
      (rules : List RuleDefinition) (facts : Facts)
      → let result = (evaluate_rules js rules facts).priority in
        ((r : RuleDefinition) (p : Priority)
          → Memᴰ r (fired rules facts)
          → r.actions.priority ≡ some p
          → IsRaised result p)
        × ((q : Priority)
            → result ≡ some q
            → (r : RuleDefinition) × Memᴰ r (fired rules facts) × (r.actions.priority ≡ some q))
  unfolding evaluate_rules
  evaluate_rules-priority rules facts = rw evaluate_from_lem (
    λ r p m h. fire_all-IsRaised p (fired rules facts) no_result m h,
    λ q h. elim (fire_all-attained q (fired rules facts) no_result h) [
      | inl early ↦ cc early
      | inr r ↦ r
    ],
  )
