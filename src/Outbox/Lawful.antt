-- ===== src/Outbox/Lawful.antt =====
-- Lemmas on outbox/repository.ts: what a call does to a row.
use openzigs_social.Prelude.{
  ℕ, suc, String, Bool, true, false, ◌&&◌, Option, none, some, ◌≡◌, refl, ap, sym, ◌∙◌, ◌⊎◌, inl,
  inr, arith, ◌==◌, if◌then◌else◌, Bool-cases, includes, ==_iff,
}
use mathlib.Core.Option
use mathlib.Core.Option.{some-injective}
use openzigs_social.Sql.{find, insert, delete_where}
use openzigs_social.Sql.Laws.{IsTable, find-insert_old, find-delete, find-le}
use openzigs_social.Outbox.Types.{
  OutboxStatus, draft, scheduled, published, failed, OutboxRow, OutboxPost, to_post,
  OutboxCreateInput, OutboxUpdateInput, can_transition, OutboxError, illegal_transition,
}
use openzigs_social.Outbox.Repository.{
  Outbox, row_id, create, update, transition, TransitionOptions, schedule, unschedule, reschedule,
  claim_due, mark_published, mark_failed, retry, delete, new_row, due_ids, claim_row, is_due,
  content_row, is_editable, moved_row, rescheduled_row, is_movable, published_row, failed_row,
}
use openzigs_social.Outbox.Edit.{
  edit, guarded, guarded_lem, KeepsId, find-edit, update-guarded, transition-guarded,
  reschedule-guarded, mark_published-guarded, mark_failed-guarded,
}
use openzigs_social.Outbox.Claim.{due_ids-due, find-claim_due}
use openzigs_social.Outbox.Machine.{
  Call, creates, updates, schedules, unschedules, reschedules, claims, publishes, fails, retries,
  transitions_to, deletes, step,
}

-- One row before and after a call.
pub record IsLawful (r r' : OutboxRow) : Type 0 where
  pub same_id : r'.id ≡ r.id
  pub same_platform : r'.platform ≡ r.platform
  pub same_created_at : r'.created_at ≡ r.created_at
  pub moved : (r'.status ≡ r.status) ⊎ (can_transition r.status r'.status ≡ true)
  pub terminal : r.status ≡ published → r' ≡ r

IsLawful-refl : (r : OutboxRow) → IsLawful r r
IsLawful-refl r = ground arith

module _ (k : ℕ) (test : OutboxStatus → Bool) (f : OutboxPost → OutboxRow → OutboxRow)
    (same : KeepsId f)
    (lawful : (p : OutboxPost) (r : OutboxRow) → test r.status ≡ true → IsLawful r (f p r)) where
  edit_row-IsLawful :
      (r : OutboxRow) → IsLawful r (if r.id == k && test r.status then f (to_post r) r else r)
  edit_row-IsLawful r = elim (Bool-cases (r.id == k && test r.status)) [
    | inl t ↦ rw t (lawful (to_post r) r (ground arith))
    | inr f ↦ rw f (IsLawful-refl r)
  ]

  edit-IsLawful :
      (t : Outbox) (j : ℕ) (r r' : OutboxRow)
      → find row_id j t.rows ≡ some r
      → find row_id j (edit k test f t).rows ≡ some r'
      → IsLawful r r'
  edit-IsLawful t j r r' h h' =
      let e = sym h' ∙ find-edit k j test f t same ∙ ap (Option.map _) h in
      rw (some-injective _ _ e) (edit_row-IsLawful r)

  pub guarded-IsLawful :
      (e : OutboxStatus → OutboxError) (t : Outbox) (j : ℕ) (r r' : OutboxRow)
      → find row_id j t.rows ≡ some r
      → find row_id j (guarded k test e f t).1.rows ≡ some r'
      → IsLawful r r'
  guarded-IsLawful e t j r r' h h' =
      edit-IsLawful t j r r' h (rw (guarded_lem k test e f same t) at h')

pub new_row-id : (now : ℕ) (input : OutboxCreateInput) {k : ℕ} → row_id (new_row now input k) ≡ k
unfolding new_row
new_row-id now input = refl

moved_row-IsLawful :
    (now : ℕ) (to : OutboxStatus) (opts : TransitionOptions) (r : OutboxRow)
    → can_transition r.status to ≡ true
    → IsLawful r (moved_row now to opts r)
unfolding can_transition
moved_row-IsLawful now to opts r h = ground arith

transition-IsLawful :
    (now k : ℕ) (to : OutboxStatus) (opts : TransitionOptions) (t : Outbox) (j : ℕ)
    (r r' : OutboxRow)
    → find row_id j t.rows ≡ some r
    → find row_id j (transition now k to opts t).1.rows ≡ some r'
    → IsLawful r r'
transition-IsLawful now k to opts t j r r' h h' =
    guarded-IsLawful k (λ s. can_transition s to) (λ _. moved_row now to opts) (λ p r. refl)
      (λ p r. moved_row-IsLawful now to opts r) (λ s. illegal_transition s to) t j r r' h
      (rw transition-guarded at h')

pub content_row-KeepsId : (now : ℕ) (patch : OutboxUpdateInput) → KeepsId (content_row now patch)
unfolding content_row
content_row-KeepsId now patch p r = refl

content_row-IsLawful :
    (now : ℕ) (patch : OutboxUpdateInput) (p : OutboxPost) (r : OutboxRow)
    → is_editable r.status ≡ true
    → IsLawful r (content_row now patch p r)
unfolding is_editable content_row
content_row-IsLawful now patch p r h = ground arith

rescheduled_row-IsLawful :
    (now at : ℕ) (r : OutboxRow)
    → is_movable r.status ≡ true
    → IsLawful r (rescheduled_row now at r)
unfolding is_movable can_transition
rescheduled_row-IsLawful now at r h = ground arith

published_row-IsLawful :
    (now : ℕ) (external_id : Option String) (r : OutboxRow)
    → can_transition r.status published ≡ true
    → IsLawful r (published_row now external_id r)
unfolding can_transition
published_row-IsLawful now external_id r h = ground arith

failed_row-IsLawful :
    (now : ℕ) (error : String) (attempts : Option ℕ) (r : OutboxRow)
    → can_transition r.status failed ≡ true
    → IsLawful r (failed_row now error attempts r)
unfolding can_transition
failed_row-IsLawful now error attempts r h = ground arith

claim_row-IsLawful : (now : ℕ) (r : OutboxRow) → is_due now r ≡ true → IsLawful r (claim_row now r)
unfolding is_due can_transition
claim_row-IsLawful now r h = ground arith

claim_due-IsLawful :
    (now limit : ℕ) (t : Outbox) (j : ℕ) (r r' : OutboxRow)
    → IsTable row_id t
    → find row_id j t.rows ≡ some r
    → find row_id j (claim_due now limit t).1.rows ≡ some r'
    → IsLawful r r'
claim_due-IsLawful now limit t j r r' w h h' =
    let e = sym h' ∙ find-claim_due now limit j t ∙ ap (Option.map _) h in
    rw (some-injective _ _ e) (cases (Bool-cases _))
  where
    cases :
        (includes j (due_ids now limit t) ≡ true) ⊎ (includes j (due_ids now limit t) ≡ false)
        → IsLawful r (if includes j (due_ids now limit t) then claim_row now r else r)
    cases (inl c) = rw c (claim_row-IsLawful now r (due_ids-due now limit t w j r h c))
    cases (inr c) = rw c (IsLawful-refl r)

create-IsLawful :
    (now : ℕ) (input : OutboxCreateInput) (t : Outbox) (j : ℕ) (r r' : OutboxRow)
    → IsTable row_id t
    → find row_id j t.rows ≡ some r
    → find row_id j (create now input t).1.rows ≡ some r'
    → IsLawful r r'
unfolding create insert
create-IsLawful now input t j r r' w h h' = elim (Bool-cases (j == suc t.seq)) [
  | inl new ↦
      absurd (omega (arith, find-le row_id j t.seq t.rows r w h, (==_iff j (suc t.seq)).0 new))
  | inr old ↦
      let e =
        sym (find-insert_old row_id j t.rows (new_row now input (suc t.seq)) (ground arith)) in
      ground (arith, IsLawful-refl r)
]

delete-IsLawful :
    (k : ℕ) (t : Outbox) (j : ℕ) (r r' : OutboxRow)
    → IsTable row_id t
    → find row_id j t.rows ≡ some r
    → find row_id j (delete k t).1.rows ≡ some r'
    → IsLawful r r'
unfolding delete delete_where
delete-IsLawful k t j r r' w h h' =
    let e = sym (find-delete row_id (λ x. x.id == k) j 0 t.seq t.rows r w h) ∙ h' in
    ground (arith, IsLawful-refl r)

module _ (now k : ℕ) (t : Outbox) (j : ℕ) (r r' : OutboxRow)
    (h : find row_id j t.rows ≡ some r) where
  update-IsLawful :
      (patch : OutboxUpdateInput)
      → find row_id j (update now k patch t).1.rows ≡ some r'
      → IsLawful r r'
  update-IsLawful patch h' =
      guarded-IsLawful k is_editable (content_row now patch) (content_row-KeepsId now patch)
        (content_row-IsLawful now patch) (λ s. illegal_transition s s) t j r r' h
        (rw update-guarded at h')

  reschedule-IsLawful :
      (at : ℕ) → find row_id j (reschedule now k at t).1.rows ≡ some r' → IsLawful r r'
  reschedule-IsLawful at h' =
      guarded-IsLawful k is_movable (λ _. rescheduled_row now at) (λ p x. refl)
        (λ p. rescheduled_row-IsLawful now at) (λ s. illegal_transition s s) t j r r' h
        (rw reschedule-guarded at h')

  mark_published-IsLawful :
      (external_id : Option String)
      → find row_id j (mark_published now k external_id t).1.rows ≡ some r'
      → IsLawful r r'
  mark_published-IsLawful external_id h' =
      guarded-IsLawful k (λ s. can_transition s published) (λ _. published_row now external_id)
        (λ p x. refl) (λ p. published_row-IsLawful now external_id)
        (λ s. illegal_transition s published) t j r r' h (rw mark_published-guarded at h')

  mark_failed-IsLawful :
      (error : String) (attempts : Option ℕ)
      → find row_id j (mark_failed now k error attempts t).1.rows ≡ some r'
      → IsLawful r r'
  mark_failed-IsLawful error attempts h' =
      guarded-IsLawful k (λ s. can_transition s failed) (λ _. failed_row now error attempts)
        (λ p x. refl) (λ p. failed_row-IsLawful now error attempts)
        (λ s. illegal_transition s failed) t j r r' h (rw mark_failed-guarded at h')

-- A call keeps the id, the platform and the creation time of every row that it leaves in the table,
-- moves its status along an edge of OUTBOX_TRANSITIONS or not at all, and changes no published row.
pub step-IsLawful :
    (now : ℕ) (c : Call) (t : Outbox) (j : ℕ) (r r' : OutboxRow)
    → IsTable row_id t
    → find row_id j t.rows ≡ some r
    → find row_id j (step now c t).rows ≡ some r'
    → IsLawful r r'
unfolding step schedule unschedule retry
step-IsLawful now (creates input) t j r r' w h h' = create-IsLawful now input t j r r' w h h'
step-IsLawful now (updates k patch) t j r r' w h h' = update-IsLawful now k t j r r' h patch h'
step-IsLawful now (schedules k at) t j r r' w h h' =
    transition-IsLawful now k scheduled
      (record { publish_at = some (some at); clear_error = false }) t j r r' h h'
step-IsLawful now (unschedules k) t j r r' w h h' =
    transition-IsLawful now k draft (record { publish_at = some none; clear_error = false }) t j r
      r' h h'
step-IsLawful now (reschedules k at) t j r r' w h h' = reschedule-IsLawful now k t j r r' h at h'
step-IsLawful now (claims limit) t j r r' w h h' = claim_due-IsLawful now limit t j r r' w h h'
step-IsLawful now (publishes k external_id) t j r r' w h h' =
    mark_published-IsLawful now k t j r r' h external_id h'
step-IsLawful now (fails k error attempts) t j r r' w h h' =
    mark_failed-IsLawful now k t j r r' h error attempts h'
step-IsLawful now (retries k at) t j r r' w h h' =
    transition-IsLawful now k scheduled (record { publish_at = some (some at); clear_error = true })
      t j r r' h h'
step-IsLawful now (transitions_to k to opts) t j r r' w h h' =
    transition-IsLawful now k to opts t j r r' h h'
step-IsLawful now (deletes k) t j r r' w h h' = delete-IsLawful k t j r r' w h h'
