-- ===== src/AutoReply/Trail.antt =====
-- routing/pipeline.ts: what `evaluate` records of a request.
use openzigs_social.Prelude.{String, none, some, get_or}
use openzigs_social.Effects.{Result}
use openzigs_social.Personality.Profiler.{Text}
use openzigs_social.Personality.Rulebook as Rulebook
use openzigs_social.AutoReply.Decision.{RoutingThresholds}
use openzigs_social.AutoReply.Audit.{AuditRecordInput}
use openzigs_social.AutoReply.Pipeline.{AutoReplyRequest, AutoReplyContext, Replies, verdict}

abbrev pub Send : Type 0
Send = String → AutoReplyContext → Result String (Unit {0})

abbrev pub audit_input : Text → RoutingThresholds → AutoReplyRequest → Replies → AuditRecordInput
audit_input js thresholds request w =
    let (voice, decision) = verdict js thresholds request (Rulebook.get w.rulebook) in
    record {
      thread_id = request.thread_id;
      contact_id = request.contact_id;
      platform = some (get_or request.platform "");
      prompt = request.prompt;
      draft_text = request.draft;
      confidence = request.confidence;
      voice_match = voice.score;
      tone_match = voice.tone_match;
      banned_hits = some voice.banned_hits;
      decision = decision.action;
      model = request.model;
      outcome = none;
      final_text = none;
    }
