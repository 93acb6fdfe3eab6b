-- ===== src/AutoReply/Tests.antt =====
-- A workspace with a banned word, and drafts that are sent, queued, approved and pruned.
use openzigs_social.Prelude.{
  ℕ, String, true, false, none, some, List, [], ◌∷◌, ◌++◌, ◌≡◌, ◌≢◌, refl, arith, map, str_eq,
}
use openzigs_social.Prelude.Maps
use openzigs_social.Retry.Backoff.{Fraction}
use openzigs_social.Effects.{ok}
use openzigs_social.Sql.{insert, update_where, delete_where, find}
use openzigs_social.Sql.Newest.{sort_newest}
use openzigs_social.Personality.Profiler.{
  BrandVoiceRulebook, Text, VoiceScore, score_voice, find_banned_hits, banned_from, tone_of,
  build_vocabulary,
}
use openzigs_social.Personality.Rulebook as Rulebook
use openzigs_social.AutoReply.Decision.{RoutingThresholds, queue, decide_routing}
use openzigs_social.AutoReply.Audit.{
  pending, sent, AuditRow, row_id, get, add, get_or_throw, finalize, newest_ids, newest_first,
  prune_cap, prune_older, prune,
}
use openzigs_social.AutoReply.Retention.{RetentionScheduler, retention_bounds, run_tick}
use openzigs_social.AutoReply.Pipeline.{
  AutoReplyRequest, Replies, awaiting, settle_send, verdict, start_evaluate, approve_sending,
  resolve_existing, start_resolve, evaluate,
}
use openzigs_social.AutoReply.Flights.{
  no_replies, no_flights, Event, evaluate_starts, resolve_starts, send_ends, saves, step, run,
}
use openzigs_social.AutoReply.Landed.{last_of, texts-run}
use openzigs_social.AutoReply.Faithful.{texts, told}
use openzigs_social.AutoReply.Trail.{Send}
use openzigs_social.AutoReply.Posture.{
  approval, evaluate-banned, evaluate-banned_sent, resolve-overlapping,
}

-- A runtime for texts of one word in lower case.
abbrev js : Text
js = record {
  to_lower_case = λ s. s;
  trim = λ s. s;
  collapse = λ s. s;
  split_words = λ s. s ∷ [];
  has_text = λ s t. str_eq s t;
}

abbrev half : Fraction
half = record { num = 1; den = 2 }

abbrev thresholds : RoutingThresholds
thresholds = record { confidence_threshold = half; voice_threshold = half }

abbrev request : String → AutoReplyRequest
request draft = record {
  thread_id = "t1";
  contact_id = none;
  platform = some "x";
  prompt = "hi";
  draft = draft;
  confidence = record { num = 3; den = 4 };
  model = none;
}

abbrev delivers : Send
delivers text context = ok tt

abbrev rulebook : BrandVoiceRulebook
rulebook = record { tone = "warm"; banned_words = "cheap" ∷ []; exemplars = [] }

abbrev ready : Replies
ready = record no_replies {
  rulebook =
      some (record { tone = "warm"; banned_words = "cheap" ∷ []; exemplars = []; updated_at = 1 });
}

-- Two approvals of one draft overlap; the second send ends first.
abbrev history : List Event
history =
    saves 1 rulebook
    ∷ evaluate_starts 10 true thresholds (request "cold")
    ∷ resolve_starts 30 1 (approval (some "mild"))
    ∷ resolve_starts 31 1 (approval none)
    ∷ send_ends 32 1 (ok tt)
    ∷ send_ends 33 0 (ok tt)
    ∷ []

abbrev score : VoiceScore
score = score_voice js "cold" rulebook

abbrev cold : AuditRow
cold = record {
  id = 1;
  thread_id = "t1";
  contact_id = none;
  platform = "x";
  prompt = "hi";
  draft_text = "cold";
  final_text = some "cold";
  confidence = record { num = 3; den = 4 };
  voice_match = score.score;
  tone_match = score.tone_match;
  banned_hits = [];
  decision = queue;
  model = none;
  human_override = true;
  outcome = sent;
  created_at = 10;
  updated_at = 33;
}

cold_found : find row_id 1 (run js history no_flights).replies.table.rows ≡ some cold
unfolding run step start_evaluate start_resolve resolve_existing verdict settle_send score_voice
    find_banned_hits tone_of build_vocabulary banned_from decide_routing add get_or_throw get
    finalize insert update_where find Rulebook.save Rulebook.normalize_rulebook Rulebook.dedupe
    Rulebook.get Maps.get Maps.set
cold_found = refl

texts-run_example :
    last_of (texts 1 (run js history no_flights).replies.delivered) ≡ told (some cold)
texts-run_example = texts-run js history 1 cold cold_found

hits-ne : find_banned_hits js "cheap" (Rulebook.get ready.rulebook).banned_words ≢ []
unfolding find_banned_hits banned_from Rulebook.get
hits-ne e = cc e

evaluate-banned_example :
    let w' = (evaluate js 10 11 delivers true thresholds (request "cheap") ready).1 in
    (w'.delivered ≡ ready.delivered)
    × ((r : AuditRow) × (find row_id 1 w'.table.rows ≡ some r)
        × (r.draft_text ≡ "cheap")
        × (r.outcome ≡ pending)
        × (r.decision ≡ queue))
evaluate-banned_example =
    evaluate-banned js 10 11 delivers true thresholds (request "cheap") ready (omega arith) hits-ne
      (omega arith)

abbrev lax : RoutingThresholds
lax = record { confidence_threshold = half; voice_threshold = record { num = 0; den = 1 } }

evaluate-banned_sent_example :
    texts 1 (evaluate js 10 11 (λ _ _. ok tt) true lax (request "cheap") ready).1.delivered
    ≡ texts 1 ready.delivered ++ "cheap" ∷ []
evaluate-banned_sent_example =
    evaluate-banned_sent js 10 11 lax (request "cheap") ready (omega arith) hits-ne refl refl

-- A queued row.
abbrev row : ℕ → ℕ → AuditRow
row k at = record {
  id = k;
  thread_id = "t1";
  contact_id = none;
  platform = "x";
  prompt = "hi";
  draft_text = "cold";
  final_text = none;
  confidence = half;
  voice_match = half;
  tone_match = half;
  banned_hits = [];
  decision = queue;
  model = none;
  human_override = false;
  outcome = pending;
  created_at = at;
  updated_at = at;
}

abbrev waiting : Replies
waiting = record ready { table = record { rows = row 1 10 ∷ []; seq = 1 } }

found : find row_id 1 waiting.table.rows ≡ some (row 1 10)
unfolding find
found = refl

resolve-overlapping_example :
    let s = approve_sending 1 (approval none) (row 1 10) in
    let s' = approve_sending 1 (approval (some "mild")) (row 1 10) in
    let w' = (settle_send 32 s' (ok tt) (settle_send 31 s (ok tt) waiting).1).1 in
    (start_resolve 30 1 (approval none) waiting ≡ (ok (awaiting s), waiting))
    × (start_resolve 30 1 (approval (some "mild")) waiting ≡ (ok (awaiting s'), waiting))
    × (texts 1 w'.delivered ≡ texts 1 waiting.delivered ++ "cold" ∷ "mild" ∷ [])
resolve-overlapping_example =
    resolve-overlapping 30 31 30 32 1 none (some "mild") waiting (row 1 10) found refl

abbrev retention : RetentionScheduler
retention = record {
  audit = record { rows = row 1 10 ∷ row 2 86400020 ∷ row 3 86400030 ∷ []; seq = 3 };
  max_age_days = 1;
  max_rows = 1;
  task = true;
  running = false;
}

ticked : map row_id (run_tick 86400100 retention).audit.rows ≡ 3 ∷ []
unfolding run_tick retention_bounds prune prune_older prune_cap newest_ids newest_first sort_newest
    delete_where
ticked = refl
