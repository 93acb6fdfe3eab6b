-- ===== src/Outbox/Errors.antt =====
-- outbox/repository.ts: what each method throws, and the demands that say when.
use openzigs_social.Prelude.{
  ℕ, Bool, true, false, Option, none, some, ◌≡◌, refl, inl, inr, arith, if◌then◌else◌, Option-cases,
}
use openzigs_social.Effects.{Result, ok, err}
use openzigs_social.Sql.{find, insert}
use openzigs_social.Sql.Laws.{IsTable, find-insert_new}
use openzigs_social.Outbox.Types.{
  OutboxStatus, draft, scheduled, published, failed, OutboxRow, OutboxPost, OutboxCreateInput,
  can_transition, OutboxError, illegal_transition, not_found,
}
use openzigs_social.Outbox.Repository.{
  Outbox, row_id, create, update, transition, TransitionOptions, schedule, unschedule, reschedule,
  mark_published, mark_failed, retry, new_row, content_row, is_editable, moved_row, rescheduled_row,
  is_movable, published_row, failed_row, get_or_throw, get,
}
use openzigs_social.Outbox.Edit.{
  outcome, guarded, guarded_lem, KeepsId, outcome_missing, outcome_found, edit_unchanged,
  transition-guarded,
}
use openzigs_social.Outbox.Machine.{
  Call, creates, updates, schedules, unschedules, reschedules, claims, publishes, fails, retries,
  transitions_to, deletes, step,
}
use openzigs_social.Outbox.Lawful.{content_row-KeepsId, new_row-id}

abbrev pub error {ℓ} : {E A : Type ℓ} → Result E A → Option E
error (ok a) = none
error (err e) = some e

eq-err_of_error {ℓ} : {E A : Type ℓ} (r : Result E A) {x : E} → error r ≡ some x → r ≡ err x
eq-err_of_error (ok a) h = cc
eq-err_of_error (err e) h = cc

-- What a call throws.
unfoldable pub thrown : ℕ → Call → Outbox → Option OutboxError
thrown now (creates input) t = error (create now input t).0
thrown now (updates k patch) t = error (update now k patch t).0
thrown now (schedules k at) t = error (schedule now k at t).0
thrown now (unschedules k) t = error (unschedule now k t).0
thrown now (reschedules k at) t = error (reschedule now k at t).0
thrown now (claims limit) t = none
thrown now (publishes k external_id) t = error (mark_published now k external_id t).0
thrown now (fails k e attempts) t = error (mark_failed now k e attempts t).0
thrown now (retries k at) t = error (retry now k at t).0
thrown now (transitions_to k to opts) t = error (transition now k to opts t).0
thrown now (deletes k) t = none

-- The specification: the row that a call needs, the test on its status and the error otherwise.
pub data Demand : Type 0 where
  nothing : Demand
  row : ℕ → (OutboxStatus → Bool) → (OutboxStatus → OutboxError) → Demand

abbrev pub demand : Call → Demand
demand (creates input) = nothing
demand (updates k patch) = row k is_editable (λ s. illegal_transition s s)
demand (schedules k at) =
    row k (λ s. can_transition s scheduled) (λ s. illegal_transition s scheduled)
demand (unschedules k) = row k (λ s. can_transition s draft) (λ s. illegal_transition s draft)
demand (reschedules k at) = row k is_movable (λ s. illegal_transition s s)
demand (claims limit) = nothing
demand (publishes k external_id) =
    row k (λ s. can_transition s published) (λ s. illegal_transition s published)
demand (fails k e attempts) =
    row k (λ s. can_transition s failed) (λ s. illegal_transition s failed)
demand (retries k at) =
    row k (λ s. can_transition s scheduled) (λ s. illegal_transition s scheduled)
demand (transitions_to k to opts) = row k (λ s. can_transition s to) (λ s. illegal_transition s to)
demand (deletes k) = nothing

abbrev pub refusal : Demand → Outbox → Option OutboxError
refusal nothing t = none
refusal (row k test e) t = elim (find row_id k t.rows) [
  | none ↦ some (not_found k)
  | some r ↦ if test r.status then none else some (e r.status)
]

module _ (k : ℕ) (test : OutboxStatus → Bool) (e : OutboxStatus → OutboxError)
    (f : OutboxPost → OutboxRow → OutboxRow) (same : KeepsId f) (t : Outbox) where
  outcome-refusal : error (outcome k test e f t) ≡ refusal (row k test e) t
  outcome-refusal = elim (Option-cases (find row_id k t.rows)) [
    | inl missing ↦ rw (outcome_missing k test e f t missing) (rw (missing, refusal))
    | inr (r, found) ↦ rw (outcome_found k test e f t r found) (rw (found, refusal) (ground arith))
  ]

  guarded-refusal : error (guarded k test e f t).0 ≡ refusal (row k test e) t
  guarded-refusal = rw (guarded_lem k test e f same t) outcome-refusal

  guarded_unchanged :
      {x : OutboxError} → error (guarded k test e f t).0 ≡ some x → (guarded k test e f t).1 ≡ t
  guarded_unchanged h =
      rw (guarded_lem k test e f same t)
        (edit_unchanged k test e f t (eq-err_of_error _ (rw (guarded_lem k test e f same t) at h)))

transition-refusal :
    (now k : ℕ) (to : OutboxStatus) (opts : TransitionOptions) (t : Outbox)
    → error (transition now k to opts t).0
      ≡ refusal (row k (λ s. can_transition s to) (λ s. illegal_transition s to)) t
transition-refusal now k to opts t = rw transition-guarded (
    guarded-refusal k (λ s. can_transition s to) (λ s. illegal_transition s to)
      (λ _. moved_row now to opts) (λ p r. refl) t)

create-thrown :
    (now : ℕ) (input : OutboxCreateInput) (t : Outbox)
    → IsTable row_id t
    → error (create now input t).0 ≡ none
unfolding create insert get_or_throw get
create-thrown now input t w =
    rw (find-insert_new row_id (new_row now input) 0 t.seq t.rows (new_row-id now input) w)

-- On a well-formed table, a call of the repository throws exactly what its demand says: nothing
-- for `create`, `claimDue` and `delete`, and for the others `not found` if the row is missing
-- and the illegal transition if its status does not pass the call's test.
pub thrown-refusal :
    (now : ℕ) (c : Call) (t : Outbox) → IsTable row_id t → thrown now c t ≡ refusal (demand c) t
unfolding thrown schedule unschedule retry update reschedule mark_published mark_failed
thrown-refusal now (creates input) t w = create-thrown now input t w
thrown-refusal now (updates k patch) t w =
    guarded-refusal k is_editable _ (content_row now patch) (content_row-KeepsId now patch) t
thrown-refusal now (schedules k at) t w =
    transition-refusal now k scheduled (record { publish_at = some (some at); clear_error = false })
      t
thrown-refusal now (unschedules k) t w =
    transition-refusal now k draft (record { publish_at = some none; clear_error = false }) t
thrown-refusal now (reschedules k at) t w =
    guarded-refusal k is_movable _ (λ _. rescheduled_row now at) (λ p r. refl) t
thrown-refusal now (claims limit) t w = refl
thrown-refusal now (publishes k external_id) t w =
    guarded-refusal k _ _ (λ _. published_row now external_id) (λ p r. refl) t
thrown-refusal now (fails k e attempts) t w =
    guarded-refusal k _ _ (λ _. failed_row now e attempts) (λ p r. refl) t
thrown-refusal now (retries k at) t w =
    transition-refusal now k scheduled (record { publish_at = some (some at); clear_error = true })
      t
thrown-refusal now (transitions_to k to opts) t w = transition-refusal now k to opts t
thrown-refusal now (deletes k) t w = refl

transition_unchanged :
    (now k : ℕ) (to : OutboxStatus) (opts : TransitionOptions) (t : Outbox) {x : OutboxError}
    → error (transition now k to opts t).0 ≡ some x
    → (transition now k to opts t).1 ≡ t
transition_unchanged now k to opts t h = rw transition-guarded (
    guarded_unchanged k (λ s. can_transition s to) (λ s. illegal_transition s to)
      (λ _. moved_row now to opts) (λ p r. refl) t (rw transition-guarded at h))

-- On a well-formed table, a call of the repository that throws leaves the table as it was.
step-thrown_unchanged :
    (now : ℕ) (c : Call) (t : Outbox) (x : OutboxError)
    → IsTable row_id t
    → thrown now c t ≡ some x
    → step now c t ≡ t
unfolding thrown step schedule unschedule retry update reschedule mark_published mark_failed
step-thrown_unchanged now (creates input) t x w h = cc (h, create-thrown now input t w)
step-thrown_unchanged now (updates k patch) t x w h =
    guarded_unchanged k is_editable (λ s. illegal_transition s s) (content_row now patch)
      (content_row-KeepsId now patch) t h
step-thrown_unchanged now (schedules k at) t x w h =
    transition_unchanged now k scheduled
      (record { publish_at = some (some at); clear_error = false }) t h
step-thrown_unchanged now (unschedules k) t x w h =
    transition_unchanged now k draft (record { publish_at = some none; clear_error = false }) t h
step-thrown_unchanged now (reschedules k at) t x w h =
    guarded_unchanged k is_movable (λ s. illegal_transition s s) (λ _. rescheduled_row now at)
      (λ p r. refl) t h
step-thrown_unchanged now (claims limit) t x w h = cc
step-thrown_unchanged now (publishes k external_id) t x w h =
    guarded_unchanged k (λ s. can_transition s published) (λ s. illegal_transition s published)
      (λ _. published_row now external_id) (λ p r. refl) t h
step-thrown_unchanged now (fails k e attempts) t x w h =
    guarded_unchanged k (λ s. can_transition s failed) (λ s. illegal_transition s failed)
      (λ _. failed_row now e attempts) (λ p r. refl) t h
step-thrown_unchanged now (retries k at) t x w h =
    transition_unchanged now k scheduled
      (record { publish_at = some (some at); clear_error = true }) t h
step-thrown_unchanged now (transitions_to k to opts) t x w h =
    transition_unchanged now k to opts t h
step-thrown_unchanged now (deletes k) t x w h = cc
