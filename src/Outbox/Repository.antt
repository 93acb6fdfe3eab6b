-- ===== src/Outbox/Repository.antt =====
-- outbox/repository.ts: the methods of OutboxRepository. Each takes the reading of `this.now()`
-- that it makes.
use openzigs_social.Prelude.{
  ℕ, ◌+◌, String, Bool, true, false, ◌&&◌, ◌||◌, not, Option, none, some, get_or, min, List, [],
  map, leb, ◌==◌, str_eq, if◌then◌else◌, keep, any, take, drop, includes, is_some,
}
use mathlib.Core.Option
use openzigs_social.Effects.{Exec, or_throw, guard, modify, ◌>>=◌, ◌>>◌}
use openzigs_social.Sql.{Table, insert, update_where, delete_where, find}
use openzigs_social.Sql.Order.{sort_by}
use openzigs_social.Outbox.Types.{
  OutboxStatus, draft, scheduled, publishing, published, failed, same_status, OutboxRow, OutboxPost,
  can_transition, store_media, to_post, OutboxError, illegal_transition, not_found,
  OutboxCreateInput, OutboxUpdateInput, OutboxFilter,
}

abbrev pub Outbox : Type 0
Outbox = Table OutboxRow

abbrev pub Method : Type 0 → Type 0
Method A = Exec Outbox OutboxError A

abbrev pub row_id : OutboxRow → ℕ
row_id r = r.id

-- UPDATE outbox SET f WHERE id = k
abbrev pub update_row : ℕ → (OutboxRow → OutboxRow) → Method (Unit {0})
update_row k f = modify (update_where (λ r. r.id == k) f)

unfoldable pub get : ℕ → Outbox → Option OutboxPost
get k t = Option.map to_post (find row_id k t.rows)

unfoldable pub get_or_throw : ℕ → Method OutboxPost
unfolding get
get_or_throw k t = or_throw (not_found k) (get k t) t

-- INSERT INTO outbox
unfoldable pub new_row : ℕ → OutboxCreateInput → ℕ → OutboxRow
unfolding store_media
new_row now input k = record {
  id = k;
  platform = input.platform;
  account_id = input.account_id;
  body = get_or input.body "";
  media_json = store_media (get_or input.media []);
  status = if is_some input.publish_at then scheduled else draft;
  publish_at = input.publish_at;
  external_id = none;
  attempts = 0;
  last_error = none;
  published_at = none;
  created_at = now;
  updated_at = now;
}

unfoldable pub create : ℕ → OutboxCreateInput → Method OutboxPost
unfolding get_or_throw insert new_row
create now input t = let t' = insert (new_row now input) t in get_or_throw t'.seq t'

-- One WHERE condition for each field of the filter that is given; NULL fails a comparison.
abbrev holds {ℓ} : {A : Type ℓ} → (A → Bool) → Option A → Bool
holds test none = true
holds test (some a) = test a

abbrev not_null {ℓ} : {A : Type ℓ} → (A → Bool) → Option A → Bool
not_null test none = false
not_null test (some a) = test a

unfoldable pub matches : OutboxFilter → OutboxRow → Bool
unfolding same_status
matches filter r =
    holds (λ statuses. any (λ s. same_status r.status s) statuses) filter.status
    && (holds (λ p. str_eq r.platform p) filter.platform
        && (holds (λ from. not_null (λ at. leb from at) r.publish_at) filter.from
            && holds (λ to. not_null (λ at. leb at to) r.publish_at) filter.to))

unfoldable pub list : OutboxFilter → Outbox → List OutboxPost
unfolding matches sort_by
list filter t = map to_post (
    take (min (get_or filter.limit 200) 500) (
      drop (get_or filter.offset 0)
        (sort_by (λ r. get_or r.publish_at r.created_at) (keep (matches filter) t.rows))))

unfoldable pub content_row : ℕ → OutboxUpdateInput → OutboxPost → OutboxRow → OutboxRow
unfolding store_media
content_row now patch post r = record r {
  body = get_or patch.body post.body;
  media_json = store_media (get_or patch.media post.media);
  account_id = if is_some patch.account_id then patch.account_id else post.account_id;
  updated_at = now;
}

unfoldable pub is_editable : OutboxStatus → Bool
unfolding same_status
is_editable s = not (same_status s publishing || same_status s published)

unfoldable pub update : ℕ → ℕ → OutboxUpdateInput → Method OutboxPost
unfolding get_or_throw update_where content_row is_editable
update now k patch = do
  post ← get_or_throw k
  guard (is_editable post.status) (illegal_transition post.status post.status)
  update_row k (content_row now patch post)
  get_or_throw k

-- The options of `transition`: `publish_at` left out, NULL or a time.
pub record TransitionOptions : Type 0 where
  pub publish_at : Option (Option ℕ)
  pub clear_error : Bool

abbrev pub moved_row : ℕ → OutboxStatus → TransitionOptions → OutboxRow → OutboxRow
moved_row now to opts r = record r {
  status = to;
  updated_at = now;
  publish_at = get_or opts.publish_at r.publish_at;
  last_error = if opts.clear_error then none else r.last_error;
}

unfoldable pub transition : ℕ → ℕ → OutboxStatus → TransitionOptions → Method OutboxPost
unfolding get_or_throw update_where can_transition
transition now k to opts = do
  post ← get_or_throw k
  guard (can_transition post.status to) (illegal_transition post.status to)
  update_row k (moved_row now to opts)
  get_or_throw k

unfoldable pub schedule : ℕ → ℕ → ℕ → Method OutboxPost
unfolding transition
schedule now k publish_at =
    transition now k scheduled (record { publish_at = some (some publish_at); clear_error = false })

unfoldable pub unschedule : ℕ → ℕ → Method OutboxPost
unfolding transition
unschedule now k = transition now k draft (record { publish_at = some none; clear_error = false })

abbrev pub rescheduled_row : ℕ → ℕ → OutboxRow → OutboxRow
rescheduled_row now publish_at r = record r {
  publish_at = some publish_at;
  status = scheduled;
  last_error = none;
  updated_at = now;
}

unfoldable pub is_movable : OutboxStatus → Bool
unfolding same_status
is_movable s = same_status s scheduled || same_status s failed

unfoldable pub reschedule : ℕ → ℕ → ℕ → Method OutboxPost
unfolding get_or_throw update_where is_movable
reschedule now k publish_at = do
  post ← get_or_throw k
  guard (is_movable post.status) (illegal_transition post.status post.status)
  update_row k (rescheduled_row now publish_at)
  get_or_throw k

-- The subselect of the claim: due rows, earliest first, at most `limit` of them.
unfoldable pub is_due : ℕ → OutboxRow → Bool
unfolding same_status
is_due now r = same_status r.status scheduled && not_null (λ at. leb at now) r.publish_at

abbrev pub due_time : OutboxRow → ℕ
due_time r = get_or r.publish_at 0

unfoldable pub due_ids : ℕ → ℕ → Outbox → List ℕ
unfolding is_due sort_by
due_ids now limit t = map row_id (take limit (sort_by due_time (keep (is_due now) t.rows)))

abbrev pub claim_row : ℕ → OutboxRow → OutboxRow
claim_row now r = record r { status = publishing; attempts = r.attempts + 1; updated_at = now }

-- RETURNING gives the rows as they are after the update.
unfoldable pub claim_due : ℕ → ℕ → Outbox → List OutboxPost × Outbox
unfolding due_ids update_where to_post
claim_due now limit t =
    let ids = due_ids now limit t in
    let t' = update_where (λ r. includes r.id ids) (claim_row now) t in
    (map to_post (keep (λ r. includes r.id ids) t'.rows), t')

abbrev pub published_row : ℕ → Option String → OutboxRow → OutboxRow
published_row now external_id r = record r {
  status = published;
  external_id = external_id;
  published_at = some now;
  last_error = none;
  updated_at = now;
}

unfoldable pub mark_published : ℕ → ℕ → Option String → Method OutboxPost
unfolding get_or_throw update_where can_transition
mark_published now k external_id = do
  post ← get_or_throw k
  guard (can_transition post.status published) (illegal_transition post.status published)
  update_row k (published_row now external_id)
  get_or_throw k

abbrev pub failed_row : ℕ → String → Option ℕ → OutboxRow → OutboxRow
failed_row now error attempts r = record r {
  status = failed;
  last_error = some error;
  attempts = get_or attempts r.attempts;
  updated_at = now;
}

unfoldable pub mark_failed : ℕ → ℕ → String → Option ℕ → Method OutboxPost
unfolding get_or_throw update_where can_transition
mark_failed now k error attempts = do
  post ← get_or_throw k
  guard (can_transition post.status failed) (illegal_transition post.status failed)
  update_row k (failed_row now error attempts)
  get_or_throw k

-- `publish_at` defaults to a reading of the clock of its own.
unfoldable pub retry : ℕ → ℕ → ℕ → Method OutboxPost
unfolding transition
retry now k publish_at =
    transition now k scheduled (record { publish_at = some (some publish_at); clear_error = true })

unfoldable pub delete : ℕ → Outbox → Bool × Outbox
unfolding delete_where
delete k t = (is_some (find row_id k t.rows), delete_where (λ r. r.id == k) t)
