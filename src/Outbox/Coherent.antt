-- ===== src/Outbox/Coherent.antt =====
-- Lemmas on outbox/repository.ts: which columns of a row are set in which status.
use openzigs_social.Prelude.{
  ℕ, suc, ◌<◌, String, Bool, true, false, not, ◌&&◌, Option, none, some, List, [], ◌∷◌, ◌≡◌, refl,
  arith, ◌==◌, if◌then◌else◌, is_some, includes, Bool-cases, inl, inr, All,
}
use openzigs_social.Sql.Laws.{IsTable}
use openzigs_social.Sql.Every.{Every, Every-map, Every-insert, Every-delete}
use openzigs_social.Outbox.Types.{
  OutboxStatus, draft, scheduled, publishing, published, failed, same_status, OutboxRow, OutboxPost,
  OutboxCreateInput, OutboxUpdateInput, can_transition, OutboxError, illegal_transition, to_post,
}
use openzigs_social.Outbox.Repository.{
  Outbox, row_id, update, transition, schedule, unschedule, reschedule, claim_due, mark_published,
  mark_failed, retry, delete, new_row, due_ids, claim_row, content_row, is_editable, moved_row,
  rescheduled_row, is_movable, published_row, failed_row, is_due,
}
use openzigs_social.Outbox.Edit.{edit, guarded, guarded_lem, KeepsId, find-edit, transition-guarded}
use openzigs_social.Outbox.Claim.{find-claim_due, due_ids-due}
use openzigs_social.Outbox.Machine.{
  Call, creates, updates, schedules, unschedules, reschedules, claims, publishes, fails, retries,
  transitions_to, deletes, step, run,
}
use openzigs_social.Outbox.Lawful.{content_row-KeepsId, new_row-id}
use openzigs_social.Outbox.History.{create-state, step-IsTable}

pub record IsCoherent (r : OutboxRow) : Type 0 where
  pub dated : is_some r.publish_at ≡ not (same_status r.status draft)
  pub stamped : is_some r.published_at ≡ same_status r.status published
  pub native_id : same_status r.status published ≡ false → r.external_id ≡ none
  pub cleared : r.status ≡ published → r.last_error ≡ none
  pub explained : r.status ≡ failed → is_some r.last_error ≡ true
  pub attempted : r.status ≡ publishing → 0 < r.attempts

abbrev pub AllCoherent : Outbox → Type 0
AllCoherent = Every row_id IsCoherent

module _ (k : ℕ) (test : OutboxStatus → Bool) (e : OutboxStatus → OutboxError)
    (f : OutboxPost → OutboxRow → OutboxRow) (same : KeepsId f)
    (coherent : (r : OutboxRow)
      → test r.status ≡ true
      → IsCoherent r
      → IsCoherent (f (to_post r) r)) where
  edit_row-IsCoherent :
      (r : OutboxRow)
      → IsCoherent r
      → IsCoherent (if r.id == k && test r.status then f (to_post r) r else r)
  edit_row-IsCoherent r h = elim (Bool-cases (r.id == k && test r.status)) [
    | inl t ↦ rw t (coherent r (ground arith) h)
    | inr f ↦ rw f h
  ]

  guarded-AllCoherent : (t : Outbox) → AllCoherent t → AllCoherent (guarded k test e f t).1
  guarded-AllCoherent t h = rw (guarded_lem k test e f same t) (
      Every-map row_id IsCoherent t (edit k test f t) _ (λ j. find-edit k j test f t same)
        (λ j r _. edit_row-IsCoherent r) h)

module _ (now : ℕ) (r : OutboxRow) (h : IsCoherent r) where
  scheduled_row-IsCoherent :
      (at : ℕ) (clear : Bool)
      → can_transition r.status scheduled ≡ true
      → IsCoherent
          (moved_row now scheduled (record { publish_at = some (some at); clear_error = clear }) r)
  unfolding can_transition same_status
  scheduled_row-IsCoherent at clear p = ground arith

  drafted_row-IsCoherent :
      can_transition r.status draft ≡ true
      → IsCoherent (moved_row now draft (record { publish_at = some none; clear_error = false }) r)
  unfolding can_transition same_status
  drafted_row-IsCoherent p = ground arith

  content_row-IsCoherent :
      (patch : OutboxUpdateInput) (p : OutboxPost) → IsCoherent (content_row now patch p r)
  unfolding content_row
  content_row-IsCoherent patch p = ground arith

  rescheduled_row-IsCoherent :
      (at : ℕ) → is_movable r.status ≡ true → IsCoherent (rescheduled_row now at r)
  unfolding is_movable same_status
  rescheduled_row-IsCoherent at p = ground arith

  published_row-IsCoherent :
      (external_id : Option String)
      → can_transition r.status published ≡ true
      → IsCoherent (published_row now external_id r)
  unfolding can_transition same_status
  published_row-IsCoherent external_id p = ground arith

  failed_row-IsCoherent :
      (error : String) (attempts : Option ℕ)
      → can_transition r.status failed ≡ true
      → IsCoherent (failed_row now error attempts r)
  unfolding can_transition same_status
  failed_row-IsCoherent error attempts p = ground arith

  claim_row-IsCoherent : is_due now r ≡ true → IsCoherent (claim_row now r)
  unfolding is_due same_status
  claim_row-IsCoherent p = ground arith

new_row-IsCoherent :
    (now : ℕ) (input : OutboxCreateInput) (k : ℕ) → IsCoherent (new_row now input k)
unfolding new_row same_status
new_row-IsCoherent now input k = ground arith

-- Calls of the methods that name the change that they make.
abbrev pub is_named : Call → Bool
is_named (transitions_to k to opts) = false
is_named _ = true

module _ (now : ℕ) (t : Outbox) (h : AllCoherent t) where
  schedule-AllCoherent :
      (k at : ℕ) (clear : Bool)
      → AllCoherent
          (transition now k scheduled
            (record { publish_at = some (some at); clear_error = clear })
            t).1
  schedule-AllCoherent k at clear = rw transition-guarded (
      guarded-AllCoherent k _ _ _ (λ p r. refl)
        (λ r p v. scheduled_row-IsCoherent now r v at clear p) t h)

  claim_due-AllCoherent : (limit : ℕ) → IsTable row_id t → AllCoherent (claim_due now limit t).1
  claim_due-AllCoherent limit w =
      Every-map row_id IsCoherent t (claim_due now limit t).1 _ (λ j. find-claim_due now limit j t)
        (λ j r here v. elim (Bool-cases (includes j (due_ids now limit t))) [
          | inl c ↦ rw c (claim_row-IsCoherent now r v (due_ids-due now limit t w j r here c))
          | inr c ↦ rw c v
        ])
        h

-- Each such call keeps every row coherent.
step-AllCoherent :
    (now : ℕ) (c : Call) (t : Outbox)
    → is_named c ≡ true
    → IsTable row_id t
    → AllCoherent t
    → AllCoherent (step now c t)
unfolding step schedule unschedule retry update reschedule mark_published mark_failed delete
step-AllCoherent now (creates input) t n w h = rw (create-state now input t) (
    Every-insert row_id IsCoherent (new_row now input) t (new_row-id now input) w
      (new_row-IsCoherent now input (suc t.seq)) h)
step-AllCoherent now (updates k patch) t n w h =
    guarded-AllCoherent k is_editable (λ s. illegal_transition s s) (content_row now patch)
      (content_row-KeepsId now patch) (λ r p v. content_row-IsCoherent now r v patch (to_post r)) t
      h
step-AllCoherent now (schedules k at) t n w h = schedule-AllCoherent now t h k at false
step-AllCoherent now (unschedules k) t n w h =
    guarded-AllCoherent k (λ s. can_transition s draft) (λ s. illegal_transition s draft) _
      (λ p r. refl) (λ r p v. drafted_row-IsCoherent now r v p) t h
step-AllCoherent now (reschedules k at) t n w h =
    guarded-AllCoherent k is_movable (λ s. illegal_transition s s) _ (λ p r. refl)
      (λ r p v. rescheduled_row-IsCoherent now r v at p) t h
step-AllCoherent now (claims limit) t n w h = claim_due-AllCoherent now t h limit w
step-AllCoherent now (publishes k external_id) t n w h =
    guarded-AllCoherent k (λ s. can_transition s published) (λ s. illegal_transition s published) _
      (λ p r. refl) (λ r p v. published_row-IsCoherent now r v external_id p) t h
step-AllCoherent now (fails k error attempts) t n w h =
    guarded-AllCoherent k (λ s. can_transition s failed) (λ s. illegal_transition s failed) _
      (λ p r. refl) (λ r p v. failed_row-IsCoherent now r v error attempts p) t h
step-AllCoherent now (retries k at) t n w h = schedule-AllCoherent now t h k at true
step-AllCoherent now (transitions_to k to opts) t n w h = cc
step-AllCoherent now (deletes k) t n w h = Every-delete row_id IsCoherent (λ r. r.id == k) t w h

-- Over any history of calls other than a direct `transition`, on a well-formed table whose rows
-- are coherent, every row stays coherent: a publish time is there unless it is a draft, a
-- publication time just if it is published, no native id unless published, no last error if
-- published and one if failed, and at least one attempt while publishing.
pub run-AllCoherent :
    (cs : List (ℕ × Call)) (t : Outbox)
    → All (λ c. is_named c.1 ≡ true) cs
    → IsTable row_id t
    → AllCoherent t
    → AllCoherent (run cs t)
unfolding run
run-AllCoherent [] t n w h = h
run-AllCoherent ((now, c) ∷ cs) t n w h =
    run-AllCoherent cs (step now c t) n.1 (step-IsTable now c t w)
      (step-AllCoherent now c t n.0 w h)
