-- ===== src/Outbox/Settle.antt =====
-- Lemmas on outbox/poller.ts: one claimed post.
use openzigs_social.Prelude.{
  ℕ, suc, ◌+◌, ◌-◌, String, Bool, true, false, Option, some, List, ◌≡◌, refl, ap, arith, ◌==◌,
  length, length-append,
}
use openzigs_social.Effects.{Result, ok}
use openzigs_social.Sql.{Table, update_where, insert, find}
use openzigs_social.Sql.Laws.{IsTable}
use openzigs_social.Retry.Backoff.{Ending, value, exhausted, Retried, retry}
use openzigs_social.Retry.Dlq.{entry_id, DispatchOutcome, done, dead, to_entry}
use openzigs_social.Retry.Landing.{dispatch_with_dlq-expected, expected, letter, land_lem}
use openzigs_social.Outbox.Types.{
  OutboxRow, OutboxPost, OutboxError, publishing, published, failed, can_transition,
  illegal_transition, to_post,
}
use openzigs_social.Outbox.Repository.{
  Outbox, row_id, mark_published, mark_failed, published_row, failed_row,
}
use openzigs_social.Outbox.Edit.{guarded_ok, mark_published-guarded, mark_failed-guarded}
use openzigs_social.Outbox.Poller.{
  OutboxPublisher, PublishError, PublishResult, error_message, slot, World, input_of, op_of, settle,
  publish_one,
}

seq-insert : {Row : Type 0} (make : ℕ → Row) (t : Table Row) → (insert make t).seq ≡ t.seq + 1
unfolding insert
seq-insert make t = omega arith

-- The row that a post's outcome makes of its row.
abbrev pub settled_row : ℕ → DispatchOutcome PublishError PublishResult → OutboxRow → OutboxRow
settled_row now (done v attempts) r = published_row now v.external_id r
settled_row now (dead attempts e dlq_id) r = failed_row now (error_message e) (some attempts) r

abbrev pub is_done : DispatchOutcome PublishError PublishResult → Bool
is_done (done v attempts) = true
is_done (dead attempts e dlq_id) = false

mark_published_ok :
    (now k : ℕ) (external_id : Option String) (t : Outbox) (r : OutboxRow)
    → find row_id k t.rows ≡ some r
    → r.status ≡ publishing
    → mark_published now k external_id t ≡ (
      ok (to_post (published_row now external_id r)),
      update_where (λ x. x.id == k) (published_row now external_id) t,
    )
unfolding can_transition
mark_published_ok now k external_id t r found busy = rw mark_published-guarded (
    guarded_ok k (λ s. can_transition s published) (λ s. illegal_transition s published)
      (λ _. published_row now external_id) t r (λ p x. refl) found (rw busy))

mark_failed_ok :
    (now k : ℕ) (error : String) (attempts : Option ℕ) (t : Outbox) (r : OutboxRow)
    → find row_id k t.rows ≡ some r
    → r.status ≡ publishing
    → mark_failed now k error attempts t ≡ (
      ok (to_post (failed_row now error attempts r)),
      update_where (λ x. x.id == k) (failed_row now error attempts) t,
    )
unfolding can_transition
mark_failed_ok now k error attempts t r found busy = rw mark_failed-guarded (
    guarded_ok k (λ s. can_transition s failed) (λ s. illegal_transition s failed)
      (λ _. failed_row now error attempts) t r (λ p x. refl) found (rw busy))

settle_lem :
    (now : ℕ) (post : OutboxPost) (o : DispatchOutcome PublishError PublishResult) (w : World)
    (r : OutboxRow)
    → find row_id post.id w.outbox.rows ≡ some r
    → r.status ≡ publishing
    → ((settle now post o w).0 ≡ ok (is_done o))
      × ((settle now post o w).1.outbox
          ≡ update_where (λ x. x.id == post.id) (settled_row now o) w.outbox)
      × ((settle now post o w).1.dlq ≡ w.dlq)
      × (length (settle now post o w).1.emitted ≡ length w.emitted + 1)
unfolding settle
settle_lem now post (done v attempts) w r found busy =
    let e = mark_published_ok now post.id v.external_id w.outbox r found busy in
    rw (e, settle) (refl, ap (λ x. x.1) e, refl, length-append w.emitted _)
settle_lem now post (dead attempts x dlq_id) w r found busy =
    let e = mark_failed_ok now post.id (error_message x) (some attempts) w.outbox r found busy in
    rw (e, settle) (refl, ap (λ x. x.1) e, refl, length-append w.emitted _)

-- The row, the result and the number of dead letters that an ending of `retry` stands for.
abbrev pub ended_row : ℕ → ℕ → Ending PublishError PublishResult → OutboxRow → OutboxRow
ended_row now calls (value v) r = published_row now v.external_id r
ended_row now calls (exhausted n e) r = failed_row now (error_message e) (some calls) r

abbrev pub is_value : Ending PublishError PublishResult → Bool
is_value (value v) = true
is_value (exhausted n e) = false

abbrev pub dead_count : Ending PublishError PublishResult → ℕ
dead_count (value v) = 0
dead_count (exhausted n e) = 1

pub ended_row-id :
    (now calls : ℕ) (e : Ending PublishError PublishResult) (r : OutboxRow)
    → (ended_row now calls e r).id ≡ r.id
ended_row-id now calls (value v) r = refl
ended_row-id now calls (exhausted n e) r = refl

-- How one post is settled in a world.
pub record IsSettled (now : ℕ) (post : OutboxPost) (calls : ℕ)
    (e : Ending PublishError PublishResult) (w : World) (res : Result OutboxError Bool) (w' : World)
    : Type 0 where
  pub result : res ≡ ok (is_value e)
  pub outbox : w'.outbox ≡ update_where (λ x. x.id == post.id) (ended_row now calls e) w.outbox
  pub dlq_table : IsTable entry_id w'.dlq
  pub dlq_seq : w'.dlq.seq ≡ w.dlq.seq + dead_count e
  pub emitted : length w'.emitted ≡ length w.emitted + 1

module _ (publisher : OutboxPublisher) (schedule : List ℕ) (is_transient : PublishError → Bool)
    (now : ℕ) where
  -- What the publishing of a post comes to, which does not depend on the state.
  abbrev pub retried : OutboxPost → Retried PublishError PublishResult
  retried post =
      retry is_transient (λ attempt. slot schedule (attempt - 1))
        (λ attempt. publisher attempt (input_of post)) (length schedule + 1)

  conclude-IsSettled :
      (post : OutboxPost) (calls : ℕ) (e : Ending PublishError PublishResult) (w : World)
      (r : OutboxRow)
      → IsTable entry_id w.dlq
      → find row_id post.id w.outbox.rows ≡ some r
      → r.status ≡ publishing
      → let (o, dlq') =
          expected error_message is_transient
            (λ attempt. slot schedule (attempt - 1))
            (λ attempt. publisher attempt (input_of post))
            now
            (op_of post)
            calls
            e
            w.dlq in
        let (res, w') = settle now post o (record w { dlq = dlq' }) in
        IsSettled now post calls e w res w'
  conclude-IsSettled post calls (value v) w r table found busy =
      let (res, outbox, dlq, emitted) = settle_lem now post (done v calls) w r found busy in
      record {
        result = res;
        outbox = outbox;
        dlq_table = rw dlq table;
        dlq_seq = rw dlq (omega arith);
        emitted = emitted;
      }
  conclude-IsSettled post calls (exhausted n e) w r table found busy =
      let input =
        letter error_message is_transient (λ attempt. slot schedule (attempt - 1))
          (λ attempt. publisher attempt (input_of post)) (op_of post) calls e in
      let dlq' = insert (to_entry now input) w.dlq in
      let (res, outbox, dlq, emitted) =
        settle_lem now post (dead calls e (some (suc w.dlq.seq))) (record w { dlq = dlq' }) r found
          busy in
      record {
        result = res;
        outbox = outbox;
        dlq_table = rw dlq (land_lem now input w.dlq table).1;
        dlq_seq = rw dlq (seq-insert (to_entry now input) w.dlq);
        emitted = emitted;
      }

  pub publish_one-IsSettled :
      (post : OutboxPost) (w : World) (r : OutboxRow)
      → IsTable entry_id w.dlq
      → find row_id post.id w.outbox.rows ≡ some r
      → r.status ≡ publishing
      → let (res, w') = publish_one publisher schedule is_transient now post w in
        IsSettled now post (retried post).calls (retried post).ending w res w'
  unfolding publish_one
  publish_one-IsSettled post w r table found busy =
      rw
        (dispatch_with_dlq-expected error_message is_transient
          (λ attempt. slot schedule (attempt - 1)) (λ attempt. publisher attempt (input_of post))
          now (op_of post) (length schedule + 1) w.dlq table)
        (conclude-IsSettled post (retried post).calls (retried post).ending w r table found busy)
