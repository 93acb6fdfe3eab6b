-- ===== src/AutoReply/Pipeline.antt =====
-- routing/pipeline.ts: AutoReplyPipeline. `send` is asynchronous, so that a method is cut at its await:
-- what runs up to the call of `send`, and what runs when its promise has settled.
use openzigs_social.Prelude.{
  ℕ, String, Bool, true, false, ◌&&◌, not, Option, none, some, get_or, List, [], ◌∷◌, ◌++◌, str_eq,
  if◌then◌else◌,
}
use openzigs_social.Retry.Backoff.{Fraction}
use openzigs_social.Effects.{Result, ok, err, Exec, pure, throw, modify, ◌>>=◌, ◌>>◌}
use openzigs_social.Personality.Profiler.{VoiceScore, Text, score_voice, BrandVoiceRulebook}
use openzigs_social.Personality.Rulebook as Rulebook
use openzigs_social.AutoReply.Decision.{RoutingThresholds, RoutingDecision, decide_routing}
use openzigs_social.AutoReply.Audit.{
  AutoReplyAudit, AuditTable, AuditError, AuditOutcome, sent, rejected, is_pending, Method, get,
  add, finalize,
}

pub record AutoReplyContext : Type 0 where
  pub thread_id : String
  pub contact_id : Option String
  pub platform : String
  pub prompt : String

pub record AutoReplyRequest : Type 0 where
  pub thread_id : String
  pub contact_id : Option String
  pub platform : Option String
  pub prompt : String
  pub draft : String
  pub confidence : Fraction
  pub model : Option String

pub record AutoReplyResolveInput : Type 0 where
  pub approve : Bool
  pub edited_text : Option String

-- What `emit` is called with.
pub data Event : Type 0 where
  sent_event queued_event rejected_event : AutoReplyAudit → Event

-- A text that `send` delivered for an audit row.
pub record Delivery : Type 0 where
  pub audit_id : ℕ
  pub text : String
  pub context : AutoReplyContext

pub record Replies : Type 0 where
  pub rulebook : Rulebook.RulebookTable
  pub table : AuditTable
  pub delivered : List Delivery
  pub emitted : List Event

pub data PipelineError : Type 0 where
  audit_error : AuditError → PipelineError
  not_found : ℕ → PipelineError
  already_resolved : ℕ → AuditOutcome → PipelineError
  send_failed : String → PipelineError

abbrev pub Step : Type 0 → Type 0
Step A = Exec Replies PipelineError A

-- A call of the audit repository.
abbrev pub lift : {A : Type 0} → Result AuditError A → Result PipelineError A
lift (ok a) = ok a
lift (err e) = err (audit_error e)

abbrev pub on_audit : {A : Type 0} → Method A → Step A
on_audit m w = let (r, t) = m w.table in (lift r, record w { table = t })

abbrev pub emit : Event → Step (Unit {0})
emit e = modify (λ w. record w { emitted = w.emitted ++ e ∷ [] })

-- A method that awaits `send`: the row, the text and the context that it was called with.
pub record Sending : Type 0 where
  pub audit_id : ℕ
  pub text : String
  pub human_override : Option Bool
  pub context : AutoReplyContext

pub data Started : Type 0 where
  finished : AutoReplyAudit → Started
  awaiting : Sending → Started

-- After the await.
unfoldable pub settle_send : ℕ → Sending → Result String (Unit {0}) → Step AutoReplyAudit
unfolding finalize
settle_send now s (err e) = throw (send_failed e)
settle_send now s (ok u) = do
  modify (λ w. record w {
    delivered =
        w.delivered ++ record { audit_id = s.audit_id; text = s.text; context = s.context } ∷ [];
  })
  audit ← on_audit (
      finalize now s.audit_id
        (record { outcome = sent; final_text = some s.text; human_override = s.human_override }))
  emit (sent_event audit)
  pure audit

abbrev pub context_of : AutoReplyRequest → AutoReplyContext
context_of request = record {
  thread_id = request.thread_id;
  contact_id = request.contact_id;
  platform = get_or request.platform "";
  prompt = request.prompt;
}

abbrev pub send_or_queue : Bool → AutoReplyRequest → AutoReplyAudit → Step Started
send_or_queue true request audit = pure (
    awaiting (record {
      audit_id = audit.id;
      text = request.draft;
      human_override = none;
      context = context_of request;
    }))
send_or_queue false request audit = do emit (queued_event audit); pure (finished audit)

module _ (js : Text) where
  unfoldable pub verdict :
      RoutingThresholds → AutoReplyRequest → BrandVoiceRulebook → VoiceScore × RoutingDecision
  verdict thresholds request rulebook =
      let voice = score_voice js request.draft rulebook in
      (
        voice,
        decide_routing (record { confidence = request.confidence; voice_match = voice.score })
            thresholds,
      )

  unfoldable pub start_evaluate : ℕ → Bool → RoutingThresholds → AutoReplyRequest → Step Started
  unfolding add
  start_evaluate now enabled thresholds request w =
      let (voice, decision) = verdict thresholds request (Rulebook.get w.rulebook) in
      (do
        audit ← on_audit (
            add now (record {
              thread_id = request.thread_id;
              contact_id = request.contact_id;
              platform = some (get_or request.platform "");
              prompt = request.prompt;
              draft_text = request.draft;
              confidence = request.confidence;
              voice_match = voice.score;
              tone_match = voice.tone_match;
              banned_hits = some voice.banned_hits;
              decision = decision.action;
              model = request.model;
              outcome = none;
              final_text = none;
            }))
        send_or_queue (enabled && decision.auto_send) request audit)
        w

abbrev pub approve_sending : ℕ → AutoReplyResolveInput → AutoReplyAudit → Sending
approve_sending k input existing =
    let final_text = get_or input.edited_text existing.draft_text in
    record {
      audit_id = k;
      text = final_text;
      human_override = some (not (str_eq final_text existing.draft_text));
      context = record {
        thread_id = existing.thread_id;
        contact_id = existing.contact_id;
        platform = existing.platform;
        prompt = existing.prompt;
      };
    }

unfoldable pub resolve_existing :
    ℕ → ℕ → AutoReplyResolveInput → Option AutoReplyAudit → Step Started
unfolding finalize
resolve_existing now k input none = throw (not_found k)
resolve_existing now k input (some existing) =
    if not (is_pending existing.outcome)
    then throw (already_resolved k existing.outcome)
    else if not input.approve
    then (do
      audit ←
          on_audit (
            finalize now k
              (record { outcome = rejected; final_text = none; human_override = none }))
      emit (rejected_event audit)
      pure (finished audit))
    else pure (awaiting (approve_sending k input existing))

unfoldable pub start_resolve : ℕ → ℕ → AutoReplyResolveInput → Step Started
unfolding get resolve_existing
start_resolve now k input w = resolve_existing now k input (get k w.table) w

-- A method with nothing between its two halves. `send` is the caller's.
abbrev pub finish :
    ℕ → (String → AutoReplyContext → Result String (Unit {0})) → Started → Step AutoReplyAudit
finish later send (finished audit) = pure audit
finish later send (awaiting s) = settle_send later s (send s.text s.context)

unfoldable pub evaluate :
    Text
    → ℕ
    → ℕ
    → (String → AutoReplyContext → Result String (Unit {0}))
    → Bool
    → RoutingThresholds
    → AutoReplyRequest
    → Step AutoReplyAudit
evaluate js now later send enabled thresholds request =
    start_evaluate js now enabled thresholds request >>= finish later send

unfoldable pub resolve :
    ℕ
    → ℕ
    → (String → AutoReplyContext → Result String (Unit {0}))
    → ℕ
    → AutoReplyResolveInput
    → Step AutoReplyAudit
resolve now later send k input = start_resolve now k input >>= finish later send
