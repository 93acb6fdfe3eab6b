-- ===== src/AutoReply/Flights.antt =====
-- routing/pipeline.ts: histories of the two halves of its methods, with other calls in between.
use openzigs_social.Prelude.{ℕ, zero, suc, String, Bool, Option, none, some, List, [], ◌∷◌}
use openzigs_social.Effects.{Result, ok, err}
use openzigs_social.Personality.Profiler.{Text, BrandVoiceRulebook}
use openzigs_social.Personality.Rulebook as Rulebook
use openzigs_social.Sql.{empty_table}
use openzigs_social.AutoReply.Decision.{RoutingThresholds}
use openzigs_social.AutoReply.Audit.{AuditPruneInput, prune}
use openzigs_social.AutoReply.Pipeline.{
  AutoReplyRequest, AutoReplyResolveInput, Replies, Sending, Started, finished, awaiting,
  PipelineError, settle_send, start_evaluate, start_resolve,
}

-- The stores, and the calls of `send` that are awaited.
pub record Flights : Type 0 where
  pub replies : Replies
  pub waiting : List Sending

abbrev pub no_replies : Replies
no_replies = record { rulebook = none; table = empty_table; delivered = []; emitted = [] }

abbrev pub no_flights : Flights
no_flights = record { replies = no_replies; waiting = [] }

-- What a first half leaves: it has ended, or it awaits `send`.
abbrev pub take_off : Result PipelineError Started × Replies → List Sending → Flights
take_off (err e, w) ws = record { replies = w; waiting = ws }
take_off (ok (finished audit), w) ws = record { replies = w; waiting = ws }
take_off (ok (awaiting s), w) ws = record { replies = w; waiting = s ∷ ws }

-- The awaited call at a place of the list, and the others.
abbrev pub pick : ℕ → List Sending → Option (Sending × List Sending)
pick n [] = none
pick zero (s ∷ ws) = some (s, ws)
pick (suc n) (s ∷ ws) = elim (pick n ws) [ none ↦ none | some p ↦ some (p.0, s ∷ p.1) ]

pub data Event : Type 0 where
  evaluate_starts : (now : ℕ) → Bool → RoutingThresholds → AutoReplyRequest → Event
  resolve_starts : (now k : ℕ) → AutoReplyResolveInput → Event
  send_ends : (now place : ℕ) → Result String (Unit {0}) → Event
  saves : (now : ℕ) → BrandVoiceRulebook → Event
  prunes : AuditPruneInput → Event

abbrev pub land_at :
    ℕ → Result String (Unit {0}) → Flights → Option (Sending × List Sending) → Flights
land_at now outcome f none = f
land_at now outcome f (some (s, ws)) = record {
  replies = (settle_send now s outcome f.replies).1;
  waiting = ws;
}

unfoldable pub step : Text → Event → Flights → Flights
unfolding start_evaluate start_resolve settle_send prune
step js (evaluate_starts now enabled thresholds request) f =
    take_off (start_evaluate js now enabled thresholds request f.replies) f.waiting
step js (resolve_starts now k input) f = take_off (start_resolve now k input f.replies) f.waiting
step js (send_ends now place outcome) f = land_at now outcome f (pick place f.waiting)
step js (saves now input) f = record f {
  replies = record (f.replies) { rulebook = (Rulebook.save js now input f.replies.rulebook).1 };
}
step js (prunes input) f = record f {
  replies = record (f.replies) { table = (prune input f.replies.table).1 };
}

unfoldable pub run : Text → List Event → Flights → Flights
run js [] f = f
run js (e ∷ es) f = run js es (step js e f)
