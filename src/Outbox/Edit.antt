-- ===== src/Outbox/Edit.antt =====
-- The shape that the single-row methods of the repository share: find the row, check its status,
-- write it, read it back. Their proofs go through `edit`, the state that such a method leaves.
use openzigs_social.Prelude.{
  ℕ, String, Bool, ◌&&◌, true, Option, none, some, ◌≡◌, refl, ◌∙◌, inl, inr, arith, ◌==◌,
  if◌then◌else◌, Bool-cases, Option-cases, map_same, map_fixed,
}
use mathlib.Core.Option
use openzigs_social.Effects.{Result, ok, err, guard, ◌>>=◌, ◌>>◌}
use openzigs_social.Sql.{update_where, find}
use openzigs_social.Sql.Laws.{IsTable, update-IsTable, find-update_rows, find-key}
use openzigs_social.Outbox.Types.{
  OutboxStatus, OutboxRow, OutboxPost, to_post, can_transition, OutboxError, illegal_transition,
  not_found, OutboxUpdateInput, published, failed,
}
use openzigs_social.Outbox.Repository.{
  Outbox, Method, row_id, update, transition, TransitionOptions, reschedule, mark_published,
  mark_failed, content_row, is_editable, moved_row, rescheduled_row, is_movable, published_row,
  failed_row, get_or_throw, update_row,
}

-- The state after a single-row method.
pub edit : ℕ → (OutboxStatus → Bool) → (OutboxPost → OutboxRow → OutboxRow) → Outbox → Outbox
edit k test f t = elim (find row_id k t.rows) [
  | none ↦ t
  | some r ↦ if test r.status then update_where (λ x. x.id == k) (f (to_post r)) t else t
]

-- The result of a single-row method.
pub outcome :
    ℕ
    → (OutboxStatus → Bool)
    → (OutboxStatus → OutboxError)
    → (OutboxPost → OutboxRow → OutboxRow)
    → Outbox
    → Result OutboxError OutboxPost
outcome k test e f t = elim (find row_id k t.rows) [
  | none ↦ err (not_found k)
  | some r ↦ if test r.status then ok (to_post (f (to_post r) r)) else err (e r.status)
]

-- The code of a single-row method.
abbrev pub guarded :
    ℕ
    → (OutboxStatus → Bool)
    → (OutboxStatus → OutboxError)
    → (OutboxPost → OutboxRow → OutboxRow)
    → Method OutboxPost
guarded k test e f = do
  post ← get_or_throw k
  guard (test post.status) (e post.status)
  update_row k (f post)
  get_or_throw k

-- A write that leaves the key alone.
abbrev pub KeepsId : (OutboxPost → OutboxRow → OutboxRow) → Type 0
KeepsId f = (p : OutboxPost) (r : OutboxRow) → (f p r).id ≡ r.id

module _ (k : ℕ) (test : OutboxStatus → Bool) (e : OutboxStatus → OutboxError)
    (f : OutboxPost → OutboxRow → OutboxRow) (same : KeepsId f) where
  find-written :
      (t : Outbox) (r : OutboxRow) (p : OutboxPost)
      → find row_id k t.rows ≡ some r
      → find row_id k (update_where (λ x. x.id == k) (f p) t).rows ≡ some (f p r)
  unfolding update_where
  find-written t r p h =
      rw (find-update_rows row_id (λ x. x.id == k) (f p) (same p) k t.rows, h)
        (ground (arith, find-key row_id k t.rows r h))

  pub guarded_lem : (t : Outbox) → guarded k test e f t ≡ (outcome k test e f t, edit k test f t)
  unfolding outcome edit get_or_throw to_post
  guarded_lem t = elim (Option-cases (find row_id k t.rows)) [
    | inl missing ↦ rw (missing, outcome, edit)
    | inr (r, found) ↦ elim (Bool-cases (test r.status)) [
      | inl legal ↦ rw (found, outcome, edit, legal) (rw (find-written t r (to_post r) found))
      | inr illegal ↦ rw (found, outcome, edit, illegal)
    ]
  ]

-- A row after a single-row method on the row `k`: the old one, or what the write makes of it.
pub find-edit :
    (k j : ℕ) (test : OutboxStatus → Bool) (f : OutboxPost → OutboxRow → OutboxRow) (t : Outbox)
    → KeepsId f
    → find row_id j (edit k test f t).rows
      ≡ Option.map
          (λ r. if r.id == k && test r.status then f (to_post r) r else r)
          (find row_id j t.rows)
unfolding edit update_where
find-edit k j test f t same = elim (Option-cases (find row_id k t.rows)) [
  | inl missing ↦
      rw (missing, edit) (map_fixed _ _ λ x here. ground (arith, find-key row_id j t.rows x here))
  | inr (r, found) ↦ elim (Bool-cases (test r.status)) [
    | inl legal ↦
        rw
          (
            found,
            edit,
            legal,
            find-update_rows row_id (λ x. x.id == k) (f (to_post r)) (same (to_post r)) j t.rows,
          )
          (map_same _ _ _ λ x here. ground (arith, find-key row_id j t.rows x here))
    | inr illegal ↦
        rw (found, edit, illegal)
          (map_fixed _ _ λ x here. ground (arith, find-key row_id j t.rows x here))
  ]
]

-- A method on a row that it accepts.
pub guarded_ok :
    (k : ℕ) (test : OutboxStatus → Bool) (e : OutboxStatus → OutboxError)
    (f : OutboxPost → OutboxRow → OutboxRow) (t : Outbox) (r : OutboxRow)
    → KeepsId f
    → find row_id k t.rows ≡ some r
    → test r.status ≡ true
    → guarded k test e f t
      ≡ (ok (to_post (f (to_post r) r)), update_where (λ x. x.id == k) (f (to_post r)) t)
unfolding outcome edit
guarded_ok k test e f t r same found legal =
    guarded_lem k test e f same t ∙ rw (found, outcome, edit, legal)

-- A method that throws has written nothing.
pub edit_unchanged :
    (k : ℕ) (test : OutboxStatus → Bool) (e : OutboxStatus → OutboxError)
    (f : OutboxPost → OutboxRow → OutboxRow) (t : Outbox) {x : OutboxError}
    → outcome k test e f t ≡ err x
    → edit k test f t ≡ t
unfolding outcome edit
edit_unchanged k test e f t h = ground arith

pub outcome_missing :
    (k : ℕ) (test : OutboxStatus → Bool) (e : OutboxStatus → OutboxError)
    (f : OutboxPost → OutboxRow → OutboxRow) (t : Outbox)
    → find row_id k t.rows ≡ none
    → outcome k test e f t ≡ err (not_found k)
unfolding outcome
outcome_missing k test e f t h = rw (h, outcome)

pub outcome_found :
    (k : ℕ) (test : OutboxStatus → Bool) (e : OutboxStatus → OutboxError)
    (f : OutboxPost → OutboxRow → OutboxRow) (t : Outbox) (r : OutboxRow)
    → find row_id k t.rows ≡ some r
    → outcome k test e f t
      ≡ (if test r.status then ok (to_post (f (to_post r) r)) else err (e r.status))
unfolding outcome
outcome_found k test e f t r h = rw (h, outcome)

pub edit-IsTable :
    (k : ℕ) (test : OutboxStatus → Bool) (f : OutboxPost → OutboxRow → OutboxRow) (t : Outbox)
    → KeepsId f
    → IsTable row_id t
    → IsTable row_id (edit k test f t)
unfolding edit
edit-IsTable k test f t same w = elim (Option-cases (find row_id k t.rows)) [
  | inl missing ↦ rw (missing, edit) w
  | inr (r, found) ↦
      rw (found, edit)
        (ground
          (arith, update-IsTable row_id (λ x. x.id == k) (f (to_post r)) (same (to_post r)) t w))
]

pub seq-edit :
    (k : ℕ) (test : OutboxStatus → Bool) (f : OutboxPost → OutboxRow → OutboxRow) (t : Outbox)
    → (edit k test f t).seq ≡ t.seq
unfolding edit update_where
seq-edit k test f t = ground arith

module _ (now k : ℕ) where
  pub update-guarded :
      (patch : OutboxUpdateInput)
      → update now k patch
        ≡ guarded k is_editable (λ s. illegal_transition s s) (content_row now patch)
  unfolding update
  update-guarded patch = refl

  pub transition-guarded :
      (to : OutboxStatus) (opts : TransitionOptions)
      → transition now k to opts
        ≡ guarded k
            (λ s. can_transition s to)
            (λ s. illegal_transition s to)
            (λ _. moved_row now to opts)
  unfolding transition
  transition-guarded to opts = refl

  pub reschedule-guarded :
      (at : ℕ)
      → reschedule now k at
        ≡ guarded k is_movable (λ s. illegal_transition s s) (λ _. rescheduled_row now at)
  unfolding reschedule
  reschedule-guarded at = refl

  pub mark_published-guarded :
      (external_id : Option String)
      → mark_published now k external_id
        ≡ guarded k
            (λ s. can_transition s published)
            (λ s. illegal_transition s published)
            (λ _. published_row now external_id)
  unfolding mark_published
  mark_published-guarded external_id = refl

  pub mark_failed-guarded :
      (error : String) (attempts : Option ℕ)
      → mark_failed now k error attempts
        ≡ guarded k
            (λ s. can_transition s failed)
            (λ s. illegal_transition s failed)
            (λ _. failed_row now error attempts)
  unfolding mark_failed
  mark_failed-guarded error attempts = refl
