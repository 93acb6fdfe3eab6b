-- ===== src/Rules/Trail.antt =====
-- Lemmas on inbox/rules/repository.ts: the trail of firings, and the flags of threads.
use openzigs_social.Prelude.{
  ℕ, String, Bool, false, ◌&&◌, ◌||◌, Option, none, some, List, [], ◌∷◌, ◌++◌, map, ◌==◌,
  if◌then◌else◌,
}
use openzigs_social.Rules.Types.{RuleActions}
use openzigs_social.Rules.Engine.{Runtime}
use openzigs_social.Rules.Facts.{SocialThread}
use openzigs_social.Rules.Repository.{
  RuleInput, FiringRow, ThreadState, RuleStore, FactSources, create, update, delete, new_firing,
  apply_to_message,
}

pub record Audit : Type 0 where
  pub platform : String
  pub platform_message_id : String
  pub message_id : ℕ
  pub actions : RuleActions
  pub fired_at : ℕ

-- A firing without the rule, which may be deleted.
abbrev pub audit_of : FiringRow → Audit
audit_of r = record {
  platform = r.platform;
  platform_message_id = r.platform_message_id;
  message_id = r.message_id;
  actions = r.actions;
  fired_at = r.fired_at;
}

abbrev pub audits : RuleStore → List Audit
audits store = map audit_of store.firings.rows

abbrev pub is_flagged : ℕ → List ThreadState → Bool
is_flagged t [] = false
is_flagged t (s ∷ ss) = if s.thread_id == t then s.flagged else is_flagged t ss

pub data Call : Type 0 where
  create_call : String → RuleInput → Call
  update_call : String → ℕ → RuleInput → Call
  delete_call : ℕ → Call
  apply_call : ℕ → FactSources → Call

abbrev pub on_thread : ℕ → Option (ℕ × SocialThread) → Bool
on_thread t none = false
on_thread t (some (u, thread)) = u == t

module _ (js : Runtime) where
  unfoldable pub step : Call → RuleStore → RuleStore
  unfolding create update delete apply_to_message
  step (create_call now input) store = (create now input store).1
  step (update_call now k input) store = (update now k input store).1
  step (delete_call k) store = (delete k store).1
  step (apply_call now sources) store = (apply_to_message js now sources store).1

  unfoldable pub run : List Call → RuleStore → RuleStore
  unfolding step
  run [] store = store
  run (c ∷ cs) store = run cs (step c store)

  -- What a call adds to the trail: the firings of its evaluation.
  abbrev pub told : Call → RuleStore → List Audit
  told (apply_call now sources) store =
      map (λ f. audit_of (new_firing now sources f 0))
        (apply_to_message js now sources store).0.firings
  told (create_call now input) store = []
  told (update_call now k input) store = []
  told (delete_call k) store = []

  abbrev pub trail : List Call → RuleStore → List Audit
  trail [] store = []
  trail (c ∷ cs) store = told c store ++ trail cs (step c store)

  -- Whether a call evaluates a message of the thread and a rule flags it.
  abbrev pub flags : ℕ → Call → RuleStore → Bool
  flags t (apply_call now sources) store =
      on_thread t sources.thread && (apply_to_message js now sources store).0.flagged
  flags t (create_call now input) store = false
  flags t (update_call now k input) store = false
  flags t (delete_call k) store = false

  abbrev pub ever_flags : ℕ → List Call → RuleStore → Bool
  ever_flags t [] store = false
  ever_flags t (c ∷ cs) store = flags t c store || ever_flags t cs (step c store)
