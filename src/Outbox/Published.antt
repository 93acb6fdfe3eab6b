-- ===== src/Outbox/Published.antt =====
-- Lemmas on outbox/poller.ts: the columns of the rows that a batch of posts leaves.
use openzigs_social.Prelude.{
  ℕ, ◌+◌, Bool, false, none, some, List, [], ◌∷◌, ◌≡◌, refl, ap, sym, ◌∙◌, inl, inr, ◌==◌, ==_iff,
  Bool-cases, Memᴰ, includes, includes-map_of_mem, map_fixed, length,
}
use mathlib.Core.Option
use openzigs_social.Effects.{Result, ok}
use openzigs_social.Sql.{find}
use openzigs_social.Sql.Laws.{IsTable}
use openzigs_social.Retry.Backoff.{Ending, value, exhausted}
use openzigs_social.Retry.Dlq.{entry_id}
use openzigs_social.Outbox.Types.{OutboxRow, OutboxPost, OutboxError, published, failed}
use openzigs_social.Outbox.Repository.{Outbox, row_id}
use openzigs_social.Outbox.Exclusive.{post_ids}
use openzigs_social.Outbox.Poller.{
  OutboxPublisher, PublishError, PublishResult, World, error_message, publish_all, promise_all,
}
use openzigs_social.Outbox.Settle.{retried, ended_row}
use openzigs_social.Outbox.Settled.{
  AreClaimed, final_row, final_rows, results, failures, publish_all-AreSettled,
}
use openzigs_social.Outbox.Tick.{final_rows-same}

-- The columns that say how a publishing ended.
abbrev pub IsOutcome : ℕ → ℕ → Ending PublishError PublishResult → OutboxRow → OutboxRow → Type 0
IsOutcome now calls (value v) r r' =
    (r'.status ≡ published)
    × (r'.external_id ≡ v.external_id)
    × (r'.published_at ≡ some now)
    × (r'.last_error ≡ none)
    × (r'.attempts ≡ r.attempts)
IsOutcome now calls (exhausted n e) r r' =
    (r'.status ≡ failed)
    × (r'.external_id ≡ r.external_id)
    × (r'.published_at ≡ r.published_at)
    × (r'.last_error ≡ some (error_message e))
    × (r'.attempts ≡ calls)

-- The columns that a publishing leaves alone.
pub record IsSamePost (r r' : OutboxRow) : Type 0 where
  pub id : r'.id ≡ r.id
  pub platform : r'.platform ≡ r.platform
  pub account_id : r'.account_id ≡ r.account_id
  pub body : r'.body ≡ r.body
  pub media_json : r'.media_json ≡ r.media_json
  pub publish_at : r'.publish_at ≡ r.publish_at
  pub created_at : r'.created_at ≡ r.created_at

ended_row-IsOutcome :
    (now calls : ℕ) (e : Ending PublishError PublishResult) (r : OutboxRow)
    → IsOutcome now calls e r (ended_row now calls e r) × IsSamePost r (ended_row now calls e r)
ended_row-IsOutcome now calls (value v) r = (
  (refl, refl, refl, refl, refl),
  record {
    id = refl;
    platform = refl;
    account_id = refl;
    body = refl;
    media_json = refl;
    publish_at = refl;
    created_at = refl;
  },
)
ended_row-IsOutcome now calls (exhausted n e) r = (
  (refl, refl, refl, refl, refl),
  record {
    id = refl;
    platform = refl;
    account_id = refl;
    body = refl;
    media_json = refl;
    publish_at = refl;
    created_at = refl;
  },
)

module _ (publisher : OutboxPublisher) (schedule : List ℕ) (is_transient : PublishError → Bool)
    (now : ℕ) where
  final_rows-own :
      (posts : List OutboxPost) (t : Outbox) (post : OutboxPost) (r : OutboxRow)
      → AreClaimed publisher schedule is_transient now posts t
      → Memᴰ post posts
      → final_rows publisher schedule is_transient now posts post.id r
        ≡ final_row publisher schedule is_transient now post r
  final_rows-own [] t post r c m = elim m [ ]
  final_rows-own (p ∷ ps) t post r (busy, fresh, c) (Memᴰ.head e) = rw e (
      rw ((==_iff p.id p.id).1 refl)
        (final_rows-same publisher schedule is_transient now ps p.id _ fresh))
  final_rows-own (p ∷ ps) t post r (busy, fresh, c) (Memᴰ.tail m) =
      elim (Bool-cases (p.id == post.id)) [
        | inl hit ↦ cc (
          includes-map_of_mem (λ (q : OutboxPost). q.id) ps m,
          rw ((==_iff p.id post.id).0 hit) at fresh,
        )
        | inr miss ↦ rw miss (final_rows-own ps t post r c m)
      ]

  pub record ArePublished (posts : List OutboxPost) (w : World)
      (rs : List (Result OutboxError Bool)) (w' : World) : Type 0 where
    pub result : promise_all rs ≡ ok (results publisher schedule is_transient now posts)
    pub ended :
        (post : OutboxPost) (r : OutboxRow)
        → Memᴰ post posts
        → find row_id post.id w.outbox.rows ≡ some r
        → (r' : OutboxRow) × (find row_id post.id w'.outbox.rows ≡ some r')
          × IsSamePost r r'
          × (let run = retried publisher schedule is_transient now post in
              IsOutcome now run.calls run.ending r r')
    pub others :
        (j : ℕ)
        → includes j (post_ids posts) ≡ false
        → find row_id j w'.outbox.rows ≡ find row_id j w.outbox.rows
    pub dlq_table : IsTable entry_id w'.dlq
    pub dlq_seq : w'.dlq.seq ≡ w.dlq.seq + failures publisher schedule is_transient now posts
    pub emitted : length w'.emitted ≡ length w.emitted + length posts

  -- If the dead-letter table is well-formed and the posts are ids of rows that are `publishing`,
  -- each once, then publishing them all returns whether each one's retries end in a value,
  -- leaves every row that is not of a post as it was, and the row of a post with its content,
  -- either published, with the adapter's id, the time and no error, or failed, with the text of
  -- the last error and the number of calls; it adds as many dead letters as there are failures,
  -- and emits one event for each post.
  pub publish_all-ArePublished :
      (posts : List OutboxPost) (w : World)
      → IsTable entry_id w.dlq
      → AreClaimed publisher schedule is_transient now posts w.outbox
      → let (rs, w') = publish_all publisher schedule is_transient now posts w in
        ArePublished posts w rs w'
  publish_all-ArePublished posts w table c =
      let s = publish_all-AreSettled publisher schedule is_transient now posts w table c in
      record {
        result = s.result;
        ended = λ post r m h.
            let run = retried publisher schedule is_transient now post in
            let (outcome, same) = ended_row-IsOutcome now run.calls run.ending r in
            (
              ended_row now run.calls run.ending r,
              s.rows post.id
                  ∙ ap (Option.map _) h
                  ∙ ap some (final_rows-own posts w.outbox post r c m),
              same,
              outcome,
            );
        others = λ j h.
            s.rows j
            ∙ sym (
                map_fixed _ _
                  (λ r _. final_rows-same publisher schedule is_transient now posts j r h));
        dlq_table = s.dlq_table;
        dlq_seq = s.dlq_seq;
        emitted = s.emitted;
      }
