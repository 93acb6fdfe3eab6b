-- ===== src/Outbox/Machine.antt =====
-- outbox/repository.ts: the calls of the repository as one step on the table.
use openzigs_social.Prelude.{ℕ, String, Option, List, [], ◌∷◌}
use openzigs_social.Outbox.Types.{OutboxStatus, OutboxCreateInput, OutboxUpdateInput}
use openzigs_social.Outbox.Repository.{
  Outbox, create, update, transition, TransitionOptions, schedule, unschedule, reschedule,
  claim_due, mark_published, mark_failed, retry, delete,
}

pub data Call : Type 0 where
  creates : OutboxCreateInput → Call
  updates : ℕ → OutboxUpdateInput → Call
  schedules : (k publish_at : ℕ) → Call
  unschedules : ℕ → Call
  reschedules : (k publish_at : ℕ) → Call
  claims : (limit : ℕ) → Call
  publishes : ℕ → Option String → Call
  fails : ℕ → String → Option ℕ → Call
  retries : (k publish_at : ℕ) → Call
  transitions_to : ℕ → OutboxStatus → TransitionOptions → Call
  deletes : ℕ → Call

-- The state after a call, whether it returns or throws.
unfoldable pub step : ℕ → Call → Outbox → Outbox
step now (creates input) t = (create now input t).1
step now (updates k patch) t = (update now k patch t).1
step now (schedules k at) t = (schedule now k at t).1
step now (unschedules k) t = (unschedule now k t).1
step now (reschedules k at) t = (reschedule now k at t).1
step now (claims limit) t = (claim_due now limit t).1
step now (publishes k external_id) t = (mark_published now k external_id t).1
step now (fails k error attempts) t = (mark_failed now k error attempts t).1
step now (retries k at) t = (retry now k at t).1
step now (transitions_to k to opts) t = (transition now k to opts t).1
step now (deletes k) t = (delete k t).1

unfoldable pub run : List (ℕ × Call) → Outbox → Outbox
run [] t = t
run ((now, c) ∷ cs) t = run cs (step now c t)
