-- ===== src/Outbox/Moves.antt =====
-- Lemmas on outbox/repository.ts: which call moves a post from which status to which.
use openzigs_social.Prelude.{
  ℕ, suc, String, Bool, true, false, Option, none, ◌&&◌, some, ◌≡◌, refl, ap, sym, ◌∙◌, ◌⊎◌, inl,
  inr, arith, ◌==◌, ==_iff, Bool-cases, includes,
}
use mathlib.Core.Option
use mathlib.Core.Option.{some-injective}
use openzigs_social.Sql.{find, insert, delete_where}
use openzigs_social.Sql.Laws.{IsTable, find-key, find-insert_old, find-delete, find-le}
use openzigs_social.Outbox.Types.{
  OutboxStatus, draft, scheduled, publishing, published, failed, OutboxRow, OutboxPost, to_post,
  OutboxError, OutboxCreateInput, OutboxUpdateInput, transitions, same_status, can_transition,
  illegal_transition,
}
use openzigs_social.Outbox.Repository.{
  Outbox, row_id, create, update, transition, schedule, unschedule, reschedule, claim_due,
  mark_published, mark_failed, retry, delete, TransitionOptions, new_row, due_ids, claim_row,
  is_due, content_row, is_editable, moved_row, rescheduled_row, is_movable, published_row,
  failed_row,
}
use openzigs_social.Outbox.Edit.{
  guarded, guarded_lem, KeepsId, find-edit, update-guarded, transition-guarded, reschedule-guarded,
  mark_published-guarded, mark_failed-guarded,
}
use openzigs_social.Outbox.Claim.{due_ids-due, find-claim_due}
use openzigs_social.Outbox.Machine.{
  Call, creates, updates, schedules, unschedules, reschedules, claims, publishes, fails, retries,
  transitions_to, deletes, step,
}
use openzigs_social.Outbox.Lawful.{content_row-KeepsId}

-- A post that can be scheduled: a draft, or one that failed.
abbrev pub IsIdle : OutboxStatus → Type 0
IsIdle s = (s ≡ draft) ⊎ (s ≡ failed)

-- The lifecycle of a post, edge by edge.
abbrev pub IsEdge : OutboxStatus → OutboxStatus → Type 0
IsEdge from to =
    (IsIdle from × (to ≡ scheduled))
    ⊎ (((from ≡ scheduled) × ((to ≡ draft) ⊎ (to ≡ publishing)))
        ⊎ ((from ≡ publishing) × ((to ≡ published) ⊎ (to ≡ failed))))

-- The move that a call may make of the row `j`.
abbrev pub IsMove : ℕ → Call → OutboxStatus → OutboxStatus → Type 0
IsMove j (creates input) from to = ⊥
IsMove j (updates k patch) from to = ⊥
IsMove j (schedules k at) from to = (j ≡ k) × IsIdle from × (to ≡ scheduled)
IsMove j (unschedules k) from to = (j ≡ k) × (from ≡ scheduled) × (to ≡ draft)
IsMove j (reschedules k at) from to = (j ≡ k) × (from ≡ failed) × (to ≡ scheduled)
IsMove j (claims limit) from to = (from ≡ scheduled) × (to ≡ publishing)
IsMove j (publishes k external_id) from to = (j ≡ k) × (from ≡ publishing) × (to ≡ published)
IsMove j (fails k error attempts) from to = (j ≡ k) × (from ≡ publishing) × (to ≡ failed)
IsMove j (retries k at) from to = (j ≡ k) × IsIdle from × (to ≡ scheduled)
IsMove j (transitions_to k s opts) from to = (j ≡ k) × IsEdge from to × (to ≡ s)
IsMove j (deletes k) from to = ⊥

module _ (k : ℕ) (test : OutboxStatus → Bool) (e : OutboxStatus → OutboxError)
    (f : OutboxPost → OutboxRow → OutboxRow) (same : KeepsId f) (t : Outbox) (j : ℕ)
    (r r' : OutboxRow) (h : find row_id j t.rows ≡ some r)
    (h' : find row_id j (guarded k test e f t).1.rows ≡ some r') where
  -- A row after a single-row method: the old one, or what the write makes of the row that it names.
  edited : (r' ≡ r) ⊎ ((j ≡ k) × (test r.status ≡ true) × (r' ≡ f (to_post r) r))
  edited =
      let e' =
        sym (rw (guarded_lem k test e f same t) at h')
        ∙ find-edit k j test f t same
        ∙ ap (Option.map _) h in
      let is = some-injective _ _ e' in
      elim (Bool-cases (r.id == k && test r.status)) [
        | inr out ↦ inl (is ∙ rw out refl)
        | inl in' ↦ inr (
          sym (find-key row_id j t.rows r h) ∙ (==_iff r.id k).0 (ground (arith, in')),
          ground (arith, in'),
          is ∙ rw in' refl,
        )
      ]

  unmoved : ((p : OutboxPost) (x : OutboxRow) → (f p x).status ≡ x.status) → r'.status ≡ r.status
  unmoved still = elim edited [
    | inl s ↦ ap (λ x. x.status) s
    | inr (_, _, s) ↦ ap (λ x. x.status) s ∙ still (to_post r) r
  ]

  moved_to :
      (to : OutboxStatus) (P : OutboxStatus → Type 0)
      → ((s : OutboxStatus) → test s ≡ true → P s)
      → ((p : OutboxPost) (x : OutboxRow) → (f p x).status ≡ to)
      → (r'.status ≡ r.status) ⊎ ((j ≡ k) × P r.status × (r'.status ≡ to))
  moved_to to P only lands = elim edited [
    | inl s ↦ inl (ap (λ x. x.status) s)
    | inr (target, legal, s) ↦
        inr (target, only r.status legal, ap (λ x. x.status) s ∙ lands (to_post r) r)
  ]

IsIdle-of_scheduled : (s : OutboxStatus) → can_transition s scheduled ≡ true → IsIdle s
unfolding can_transition transitions same_status
IsIdle-of_scheduled draft h = inl refl
IsIdle-of_scheduled scheduled h = cc h
IsIdle-of_scheduled publishing h = cc h
IsIdle-of_scheduled published h = cc h
IsIdle-of_scheduled failed h = inr refl

scheduled-of : (s : OutboxStatus) → can_transition s draft ≡ true → s ≡ scheduled
unfolding can_transition transitions same_status
scheduled-of draft h = cc h
scheduled-of scheduled h = refl
scheduled-of publishing h = cc h
scheduled-of published h = cc h
scheduled-of failed h = cc h

publishing-of_published : (s : OutboxStatus) → can_transition s published ≡ true → s ≡ publishing
unfolding can_transition transitions same_status
publishing-of_published draft h = cc h
publishing-of_published scheduled h = cc h
publishing-of_published publishing h = refl
publishing-of_published published h = cc h
publishing-of_published failed h = cc h

publishing-of_failed : (s : OutboxStatus) → can_transition s failed ≡ true → s ≡ publishing
unfolding can_transition transitions same_status
publishing-of_failed draft h = cc h
publishing-of_failed scheduled h = cc h
publishing-of_failed publishing h = refl
publishing-of_failed published h = cc h
publishing-of_failed failed h = cc h

scheduled-of_publishing : (s : OutboxStatus) → can_transition s publishing ≡ true → s ≡ scheduled
unfolding can_transition transitions same_status
scheduled-of_publishing draft h = cc h
scheduled-of_publishing scheduled h = refl
scheduled-of_publishing publishing h = cc h
scheduled-of_publishing published h = cc h
scheduled-of_publishing failed h = cc h

IsEdge-of_legal : (to s : OutboxStatus) → can_transition s to ≡ true → IsEdge s to
IsEdge-of_legal scheduled s h = inl (IsIdle-of_scheduled s h, refl)
IsEdge-of_legal draft s h = inr (inl (scheduled-of s h, inl refl))
IsEdge-of_legal publishing s h = inr (inl (scheduled-of_publishing s h, inr refl))
IsEdge-of_legal published s h = inr (inr (publishing-of_published s h, inl refl))
IsEdge-of_legal failed s h = inr (inr (publishing-of_failed s h, inr refl))

movable-of : (s : OutboxStatus) → is_movable s ≡ true → (s ≡ scheduled) ⊎ (s ≡ failed)
unfolding is_movable can_transition transitions same_status
movable-of draft h = cc h
movable-of scheduled h = inl refl
movable-of publishing h = cc h
movable-of published h = cc h
movable-of failed h = inr refl

scheduled-of_same : (s : OutboxStatus) → same_status s scheduled ≡ true → s ≡ scheduled
unfolding same_status
scheduled-of_same draft e = cc e
scheduled-of_same scheduled e = refl
scheduled-of_same publishing e = cc e
scheduled-of_same published e = cc e
scheduled-of_same failed e = cc e

due-scheduled : (now : ℕ) (r : OutboxRow) → is_due now r ≡ true → r.status ≡ scheduled
unfolding is_due
due-scheduled now r h = scheduled-of_same r.status (ground (arith, h))

abbrev pub IsMoved : ℕ → Call → OutboxRow → OutboxRow → Type 0
IsMoved j c r r' = (r'.status ≡ r.status) ⊎ IsMove j c r.status r'.status

module _ (now : ℕ) (t : Outbox) (j : ℕ) (r r' : OutboxRow) (w : IsTable row_id t)
    (h : find row_id j t.rows ≡ some r) where
  transition-moved :
      (k : ℕ) (to : OutboxStatus) (opts : TransitionOptions) (P : OutboxStatus → Type 0)
      → ((s : OutboxStatus) → can_transition s to ≡ true → P s)
      → find row_id j (transition now k to opts t).1.rows ≡ some r'
      → (r'.status ≡ r.status) ⊎ ((j ≡ k) × P r.status × (r'.status ≡ to))
  transition-moved k to opts P only h' =
      moved_to k (λ s. can_transition s to) (λ s. illegal_transition s to)
        (λ _. moved_row now to opts) (λ p x. refl) t j r r' h (rw transition-guarded at h') to P
        only (λ p x. refl)

  claim_due-IsMoved :
      (limit : ℕ)
      → find row_id j (claim_due now limit t).1.rows ≡ some r'
      → IsMoved j (claims limit) r r'
  claim_due-IsMoved limit h' =
      let is = some-injective _ _ (sym h' ∙ find-claim_due now limit j t ∙ ap (Option.map _) h) in
      elim (Bool-cases (includes j (due_ids now limit t))) [
        | inl due ↦
            let new : r' ≡ claim_row now r = is ∙ rw due refl in
            inr (due-scheduled now r (due_ids-due now limit t w j r h due), ap (λ x. x.status) new)
        | inr left ↦ let old : r' ≡ r = is ∙ rw left refl in inl (ap (λ x. x.status) old)
      ]

  create-same :
      (input : OutboxCreateInput) → find row_id j (create now input t).1.rows ≡ some r' → r' ≡ r
  unfolding create insert
  create-same input h' = elim (Bool-cases (j == suc t.seq)) [
    | inl new ↦
        absurd (omega (arith, find-le row_id j t.seq t.rows r w h, (==_iff j (suc t.seq)).0 new))
    | inr old ↦
        let e =
          sym (find-insert_old row_id j t.rows (new_row now input (suc t.seq)) (ground arith)) in
        ground (arith)
  ]

  delete-same : (k : ℕ) → find row_id j (delete k t).1.rows ≡ some r' → r' ≡ r
  unfolding delete delete_where
  delete-same k h' =
      let e = sym (find-delete row_id (λ x. x.id == k) j 0 t.seq t.rows r w h) ∙ h' in ground arith

  module _ (k : ℕ) where
    update-same :
        (patch : OutboxUpdateInput)
        → find row_id j (update now k patch t).1.rows ≡ some r'
        → r'.status ≡ r.status
    unfolding content_row
    update-same patch h' =
        unmoved k is_editable (λ s. illegal_transition s s) (content_row now patch)
          (content_row-KeepsId now patch) t j r r' h (rw update-guarded at h') (λ p x. refl)

    reschedule-IsMoved :
        (at : ℕ)
        → find row_id j (reschedule now k at t).1.rows ≡ some r'
        → IsMoved j (reschedules k at) r r'
    reschedule-IsMoved at h' =
        elim (moved_to k is_movable (λ s. illegal_transition s s) (λ _. rescheduled_row now at)
          (λ p x. refl) t j r r' h (rw reschedule-guarded at h') scheduled
          (λ s. (s ≡ scheduled) ⊎ (s ≡ failed)) movable-of (λ p x. refl)) [
            | inl s ↦ inl s
            | inr (target, inl still, is) ↦ inl (is ∙ sym still)
            | inr (target, inr lost, is) ↦ inr (target, lost, is)
          ]

    mark_published-IsMoved :
        (external_id : Option String)
        → find row_id j (mark_published now k external_id t).1.rows ≡ some r'
        → IsMoved j (publishes k external_id) r r'
    mark_published-IsMoved external_id h' =
        moved_to k (λ s. can_transition s published) (λ s. illegal_transition s published)
          (λ _. published_row now external_id) (λ p x. refl) t j r r' h
          (rw mark_published-guarded at h') published (λ s. s ≡ publishing) publishing-of_published
          (λ p x. refl)

    mark_failed-IsMoved :
        (error : String) (attempts : Option ℕ)
        → find row_id j (mark_failed now k error attempts t).1.rows ≡ some r'
        → IsMoved j (fails k error attempts) r r'
    mark_failed-IsMoved error attempts h' =
        moved_to k (λ s. can_transition s failed) (λ s. illegal_transition s failed)
          (λ _. failed_row now error attempts) (λ p x. refl) t j r r' h
          (rw mark_failed-guarded at h') failed (λ s. s ≡ publishing) publishing-of_failed
          (λ p x. refl)

  -- A call leaves the status of a row, or makes the one move that is the call's.
  pub step-IsMoved : (c : Call) → find row_id j (step now c t).rows ≡ some r' → IsMoved j c r r'
  unfolding step schedule unschedule retry
  step-IsMoved (creates input) h' = inl (ap (λ x. x.status) (create-same input h'))
  step-IsMoved (updates k patch) h' = inl (update-same k patch h')
  step-IsMoved (schedules k at) h' =
      transition-moved k scheduled (record { publish_at = some (some at); clear_error = false })
        IsIdle IsIdle-of_scheduled h'
  step-IsMoved (unschedules k) h' =
      transition-moved k draft (record { publish_at = some none; clear_error = false })
        (λ s. s ≡ scheduled) scheduled-of h'
  step-IsMoved (reschedules k at) h' = reschedule-IsMoved k at h'
  step-IsMoved (claims limit) h' = claim_due-IsMoved limit h'
  step-IsMoved (publishes k external_id) h' = mark_published-IsMoved k external_id h'
  step-IsMoved (fails k error attempts) h' = mark_failed-IsMoved k error attempts h'
  step-IsMoved (retries k at) h' =
      transition-moved k scheduled (record { publish_at = some (some at); clear_error = true })
        IsIdle IsIdle-of_scheduled h'
  step-IsMoved (transitions_to k to opts) h' =
      elim (transition-moved k to opts (λ s. IsEdge s to) (IsEdge-of_legal to) h') [
        | inl s ↦ inl s
        | inr (target, edge, is) ↦ inr (target, rw is edge, is)
      ]
  step-IsMoved (deletes k) h' = inl (ap (λ x. x.status) (delete-same k h'))
