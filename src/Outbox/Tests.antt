-- ===== src/Outbox/Tests.antt =====
-- The outbox on a small table: two scheduled posts and a draft.
use mathlib.Core.List.Permᴰ
use openzigs_social.Prelude.{
  ℕ, zero, suc, ◌≤◌, true, false, Option, none, some, List, [], ◌∷◌, ◌≡◌, refl, arith, includes,
}
use openzigs_social.Effects.{ok, err}
use openzigs_social.Sql.{find, update_where, update_rows}
use openzigs_social.Sql.Laws.{IsTable}
use openzigs_social.Sql.Order.{sort_by}
use openzigs_social.Outbox.Types.{
  OutboxStatus, draft, scheduled, publishing, published, OutboxRow, OutboxPost, OutboxCreateInput,
  null_json, same_status, illegal_transition, can_transition, to_post, parse_media,
}
use openzigs_social.Outbox.Repository.{
  Outbox, row_id, due_ids, is_due, claim_due, schedule, transition, mark_published, get_or_throw,
  get,
}
use openzigs_social.Outbox.Exclusive.{claimed_ids, claim_due-IsExclusive}
use openzigs_social.Outbox.Machine.{Call, creates, claims, publishes, schedules, run, step}
use openzigs_social.Outbox.History.{run-IsLawfulHistory, IsLawfulHistory}
use openzigs_social.Outbox.Errors.{thrown, demand, refusal, thrown-refusal}
use openzigs_social.Outbox.Coherent.{AllCoherent, run-AllCoherent}
use openzigs_social.Outbox.Poller.{OutboxPublisher, World, publish_all, no_publisher, tick}
use openzigs_social.Outbox.Settled.{AreClaimed}
use openzigs_social.Outbox.Published.{ArePublished, publish_all-ArePublished}
use openzigs_social.Outbox.Tick.{IsTicked, tick-IsTicked}
use openzigs_social.Outbox.Scheduler
use openzigs_social.Outbox.Scheduler.{start_event, cron_fires, new_scheduler, in_flight-run}

abbrev post : ℕ → OutboxStatus → Option ℕ → ℕ → OutboxRow
post id status publish_at attempts = record {
  id = id;
  platform = "twitter";
  account_id = none;
  body = "hello";
  media_json = null_json;
  status = status;
  publish_at = publish_at;
  external_id = none;
  attempts = attempts;
  last_error = none;
  published_at = none;
  created_at = 1;
  updated_at = 1;
}

abbrev posts : Outbox
posts = record {
  rows = post 1 scheduled (some 50) 0 ∷ post 2 scheduled (some 10) 0 ∷ post 3 draft none 0 ∷ [];
  seq = 3;
}

posts-IsTable : IsTable row_id posts
posts-IsTable = (omega arith, (omega arith, (omega arith, omega arith)))

claims_earliest : claimed_ids 100 1 posts ≡ 2 ∷ []
unfolding claim_due due_ids is_due same_status sort_by update_where update_rows to_post
claims_earliest = refl

claimed_first : includes 2 (claimed_ids 100 1 posts) ≡ true
unfolding claim_due due_ids is_due same_status sort_by update_where update_rows to_post
claimed_first = refl

claim_due-IsExclusive_example : includes 2 (claimed_ids 200 5 (claim_due 100 1 posts).1) ≡ false
claim_due-IsExclusive_example =
    claim_due-IsExclusive 100 1 200 5 2 posts posts-IsTable claimed_first

found_second : find row_id 2 posts.rows ≡ some (post 2 scheduled (some 10) 0)
unfolding find
found_second = refl

abbrev history : List (ℕ × Call)
history = (100, claims 1) ∷ (101, publishes 2 (some "x9")) ∷ (102, schedules 3 500) ∷ []

abbrev published_post : OutboxRow
published_post = record (post 2 published (some 10) 1) {
  external_id = some "x9";
  published_at = some 101;
  updated_at = 101;
}

published_second : find row_id 2 (run history posts).rows ≡ some published_post
unfolding run step claim_due due_ids is_due same_status sort_by update_where update_rows
    mark_published get_or_throw get find can_transition to_post parse_media schedule transition
published_second = refl

run-IsLawfulHistory_example :
    IsLawfulHistory 2 history (post 2 scheduled (some 10) 0) published_post
run-IsLawfulHistory_example =
    run-IsLawfulHistory history posts 2 (post 2 scheduled (some 10) 0) published_post posts-IsTable
      found_second published_second

thrown-refusal_example :
    thrown 100 (publishes 1 none) posts ≡ refusal (demand (publishes 1 none)) posts
thrown-refusal_example = thrown-refusal 100 (publishes 1 none) posts posts-IsTable

thrown_early : thrown 100 (publishes 1 none) posts ≡ some (illegal_transition scheduled published)
unfolding thrown mark_published get_or_throw get find can_transition same_status to_post parse_media
thrown_early = refl

abbrev no_posts : Outbox
no_posts = record { rows = []; seq = 0 }

no_posts-AllCoherent : AllCoherent no_posts
unfolding find
no_posts-AllCoherent j r h = cc

abbrev new_post : OutboxCreateInput
new_post = record {
  platform = "twitter";
  account_id = none;
  body = some "hello";
  media = none;
  publish_at = some 50;
}

run-AllCoherent_example :
    AllCoherent
      (run ((1, creates new_post) ∷ (60, claims 1) ∷ (61, publishes 1 (some "x9")) ∷ []) no_posts)
run-AllCoherent_example =
    run-AllCoherent ((1, creates new_post) ∷ (60, claims 1) ∷ (61, publishes 1 (some "x9")) ∷ [])
      no_posts (refl, (refl, (refl, tt))) (omega arith) no_posts-AllCoherent

-- An adapter that fails on its first attempt at each post.
abbrev flaky : OutboxPublisher
flaky zero input = err (no_publisher "x")
flaky (suc zero) input = err (no_publisher "x")
flaky (suc (suc n)) input = ok (record { external_id = some "x9" })

abbrev world : World
world = record {
  outbox = (claim_due 100 5 posts).1;
  dlq = record { rows = []; seq = 0 };
  emitted = [];
}

abbrev claimed : List OutboxPost
claimed = to_post (post 1 publishing (some 50) 1) ∷ to_post (post 2 publishing (some 10) 1) ∷ []

claimed-AreClaimed : AreClaimed flaky (5 ∷ 7 ∷ []) (λ e. true) 100 claimed world.outbox
unfolding claim_due due_ids is_due same_status sort_by update_where update_rows to_post find
claimed-AreClaimed = ((_, refl, refl), refl, ((_, refl, refl), refl, tt))

publish_all-ArePublished_example :
    let (rs, w') = publish_all flaky (5 ∷ 7 ∷ []) (λ e. true) 100 claimed world in
    ArePublished flaky (5 ∷ 7 ∷ []) (λ e. true) 100 claimed world rs w'
publish_all-ArePublished_example =
    publish_all-ArePublished flaky (5 ∷ 7 ∷ []) (λ e. true) 100 claimed world (omega arith)
      claimed-AreClaimed

tick-IsTicked_example :
    let w : World = record world { outbox = posts } in
    let (res, w') = tick flaky (5 ∷ 7 ∷ []) (λ e. true) (λ ps. ps) 100 5 w in
    IsTicked flaky (5 ∷ 7 ∷ []) (λ e. true) (λ ps. ps) 100 5 w res w'
tick-IsTicked_example =
    tick-IsTicked flaky (5 ∷ 7 ∷ []) (λ e. true) (λ ps. ps) 100 5 (record world { outbox = posts })
      posts-IsTable (omega arith) (Permᴰ.refl (claim_due 100 5 posts).0)

in_flight-run_example :
    (Scheduler.run (start_event ∷ cron_fires ∷ cron_fires ∷ []) new_scheduler).in_flight ≤ 1
in_flight-run_example = in_flight-run (start_event ∷ cron_fires ∷ cron_fires ∷ [])
