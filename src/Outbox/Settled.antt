-- ===== src/Outbox/Settled.antt =====
-- Lemmas on outbox/poller.ts: the posts of one tick.
use openzigs_social.Prelude.{
  ℕ, ◌+◌, Bool, false, some, List, [], ◌∷◌, map, ◌≡◌, refl, ap, sym, ◌∙◌, arith, ◌==◌,
  if◌then◌else◌, length, map_same, map_fixed, includes,
}
use mathlib.Core.Option
use openzigs_social.Effects.{Result, ok}
use openzigs_social.Sql.{update_where, find}
use openzigs_social.Sql.Laws.{IsTable, find-update_rows, find-key}
use openzigs_social.Retry.Dlq.{entry_id}
use openzigs_social.Outbox.Types.{OutboxRow, OutboxPost, OutboxError, publishing}
use openzigs_social.Outbox.Repository.{Outbox, row_id}
use openzigs_social.Outbox.Settle.{
  retried, ended_row, ended_row-id, is_value, dead_count, IsSettled, publish_one-IsSettled,
}
use openzigs_social.Outbox.Exclusive.{post_ids}
use openzigs_social.Outbox.Poller.{
  OutboxPublisher, PublishError, World, publish_one, publish_all, promise_all,
}

module _ (publisher : OutboxPublisher) (schedule : List ℕ) (is_transient : PublishError → Bool)
    (now : ℕ) where
  -- The row of a post after its publishing.
  abbrev pub final_row : OutboxPost → OutboxRow → OutboxRow
  final_row post =
      ended_row now (retried publisher schedule is_transient now post).calls
        (retried publisher schedule is_transient now post).ending

  -- Posts that are in the table as `publishing` rows, each id once.
  abbrev pub AreClaimed : List OutboxPost → Outbox → Type 0
  AreClaimed [] t = Unit
  AreClaimed (post ∷ posts) t =
      ((r : OutboxRow) × (find row_id post.id t.rows ≡ some r) × (r.status ≡ publishing))
      × (includes post.id (post_ids posts) ≡ false)
      × AreClaimed posts t

  AreClaimed-update :
      (post : OutboxPost) (posts : List OutboxPost) (t t' : Outbox)
      → ((j : ℕ) → (post.id == j) ≡ false → find row_id j t'.rows ≡ find row_id j t.rows)
      → includes post.id (post_ids posts) ≡ false
      → AreClaimed posts t
      → AreClaimed posts t'
  AreClaimed-update post [] t t' e h c = tt
  AreClaimed-update post (q ∷ qs) t t' e h ((r, found, busy), fresh, c) = (
    (r, e q.id (ground arith) ∙ found, busy),
    fresh,
    AreClaimed-update post qs t t' e (ground arith) c,
  )

  find-settled :
      (post : OutboxPost) (t : Outbox) (j : ℕ)
      → find row_id j (update_where (λ x. x.id == post.id) (final_row post) t).rows
        ≡ Option.map (λ r. if post.id == j then final_row post r else r) (find row_id j t.rows)
  unfolding update_where
  find-settled post t j =
      find-update_rows row_id (λ x. x.id == post.id) (final_row post)
        (λ r.
          ended_row-id now (retried publisher schedule is_transient now post).calls
            (retried publisher schedule is_transient now post).ending r)
        j t.rows
      ∙ map_same _ _ (find row_id j t.rows)
          λ r here. ground (arith, find-key row_id j t.rows r here)

  -- How many of the posts fail.
  abbrev pub failures : List OutboxPost → ℕ
  failures [] = 0
  failures (post ∷ posts) =
      dead_count (retried publisher schedule is_transient now post).ending + failures posts

  -- The result of each post, in the order of the list.
  abbrev pub results : List OutboxPost → List Bool
  results = map (λ post. is_value (retried publisher schedule is_transient now post).ending)

  -- A row after all the posts are published.
  abbrev pub final_rows : List OutboxPost → ℕ → OutboxRow → OutboxRow
  final_rows [] j r = r
  final_rows (post ∷ posts) j r = final_rows posts j (if post.id == j then final_row post r else r)

  pub record AreSettled (posts : List OutboxPost) (w : World) (rs : List (Result OutboxError Bool))
      (w' : World) : Type 0 where
    pub result : promise_all rs ≡ ok (results posts)
    pub rows :
        (j : ℕ)
        → find row_id j w'.outbox.rows
          ≡ Option.map (final_rows posts j) (find row_id j w.outbox.rows)
    pub dlq_table : IsTable entry_id w'.dlq
    pub dlq_seq : w'.dlq.seq ≡ w.dlq.seq + failures posts
    pub emitted : length w'.emitted ≡ length w.emitted + length posts

  -- If the dead-letter table is well-formed and the posts are ids of rows that are `publishing`,
  -- each once, then publishing them all returns whether each one's retries end in a value,
  -- leaves every row that is not of a post as it was and the row of a post published with the
  -- adapter's id or failed with the last error and the number of calls, adds as many dead
  -- letters as there are failures, and emits one event for each post.
  pub publish_all-AreSettled :
      (posts : List OutboxPost) (w : World)
      → IsTable entry_id w.dlq
      → AreClaimed posts w.outbox
      → let (rs, w') = publish_all publisher schedule is_transient now posts w in
        AreSettled posts w rs w'
  unfolding publish_all promise_all
  publish_all-AreSettled [] w table c = record {
    result = refl;
    rows = λ j. map_fixed _ _ (λ r _. refl);
    dlq_table = table;
    dlq_seq = omega arith;
    emitted = omega arith;
  }
  publish_all-AreSettled (post ∷ posts) w table ((r, found, busy), fresh, c) =
      let (res, w') = publish_one publisher schedule is_transient now post w in
      let (rs, w'') = publish_all publisher schedule is_transient now posts w' in
      let one : IsSettled now post (retried publisher schedule is_transient now post).calls
          (retried publisher schedule is_transient now post).ending w res w' =
        publish_one-IsSettled publisher schedule is_transient now post w r table found busy in
      let row : (j : ℕ)
          → find row_id j w'.outbox.rows
            ≡ Option.map (λ r. if post.id == j then final_row post r else r)
                (find row_id j w.outbox.rows) =
        λ j. ap (λ t. find row_id j t.rows) one.outbox ∙ find-settled post w.outbox j in
      let rest : AreSettled posts w' rs w'' = publish_all-AreSettled posts w' one.dlq_table (
        AreClaimed-update post posts w.outbox w'.outbox
          (λ j ne. row j ∙ sym (map_fixed _ _ (λ r _. rw ne))) fresh c) in
      record {
        result = rw (one.result, promise_all) (rw rest.result);
        rows =
            λ j. rest.rows j ∙ ap (Option.map (final_rows posts j)) (row j) ∙ Option.map-map _ _ _;
        dlq_table = rest.dlq_table;
        dlq_seq = omega (arith, rest.dlq_seq, one.dlq_seq);
        emitted = omega (arith, rest.emitted, one.emitted);
      }
