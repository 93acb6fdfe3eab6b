-- ===== src/Outbox/Poller.antt =====
-- outbox/dispatch.ts and outbox/poller.ts: publishing the claimed posts through the shared retry
-- helper. The adapters of the platforms, and `toLowerCase`, are parameters.
use Prim.Native.String
use openzigs_social.Prelude.{
  ℕ, zero, suc, ◌+◌, ◌-◌, String, Bool, true, false, Option, none, some, List, [], ◌∷◌, ◌++◌,
  length, keep, map, is_some,
}
use openzigs_social.Prelude.Maps.{get, set}
use openzigs_social.Effects.{Result, ok, err}
use openzigs_social.Sql.{Table}
use openzigs_social.Retry.Dlq.{DlqEntry, DispatchOp, DispatchOutcome, done, dead, dispatch_with_dlq}
use openzigs_social.Outbox.Types.{OutboxMedia, OutboxPost, OutboxError}
use openzigs_social.Outbox.Repository.{Outbox, claim_due, mark_published, mark_failed}

pub record PublishInput : Type 0 where
  pub platform : String
  pub account_id : Option String
  pub body : String
  pub media : List OutboxMedia

pub record PublishResult : Type 0 where
  pub external_id : Option String

-- What an adapter throws, or that there is none for the platform.
pub data PublishError : Type 0 where
  no_publisher : String → PublishError
  thrown : String → PublishError

-- An adapter gives a result for each attempt: the platform may answer differently every time.
abbrev pub OutboxPublisher : Type 0
OutboxPublisher = ℕ → PublishInput → Result PublishError PublishResult

-- `errorMessage` of an Error is its message.
unfoldable pub error_message : Option PublishError → String
error_message none = "undefined"
error_message (some (no_publisher platform)) =
    String.◌++◌ "no outbox publisher registered for platform \"" (String.◌++◌ platform "\"")
error_message (some (thrown message)) = message

module _ (to_lower : String → String) where
  unfoldable pub register :
      String → OutboxPublisher → List (String × OutboxPublisher) → List (String × OutboxPublisher)
  unfolding set
  register platform publisher publishers = set (to_lower platform) publisher publishers

  unfoldable pub resolve : String → List (String × OutboxPublisher) → Option OutboxPublisher
  unfolding get
  resolve platform publishers = get (to_lower platform) publishers

  unfoldable pub has : String → List (String × OutboxPublisher) → Bool
  unfolding resolve
  has platform publishers = is_some (resolve platform publishers)

  unfoldable pub publish : List (String × OutboxPublisher) → OutboxPublisher
  publish publishers attempt input = elim (resolve input.platform publishers) [
    | none ↦ err (no_publisher input.platform)
    | some publisher ↦ publisher attempt input
  ]

abbrev pub platforms : List (String × OutboxPublisher) → List String
platforms publishers = map (λ e. e.0) publishers

-- OUTBOX_RETRY_SCHEDULE_MS
abbrev pub outbox_retry_schedule_ms : List ℕ
outbox_retry_schedule_ms = 60000 ∷ 300000 ∷ 1800000 ∷ 7200000 ∷ []

-- `schedule[i] ?? schedule[schedule.length - 1] ?? 0`
unfoldable pub slot : List ℕ → ℕ → ℕ
slot [] i = 0
slot (d ∷ []) i = d
slot (d ∷ e ∷ ds) zero = d
slot (d ∷ e ∷ ds) (suc i) = slot (e ∷ ds) i

-- The payload of a dead letter.
pub record DeadPost : Type 0 where
  pub outbox_id : ℕ
  pub platform : String
  pub account_id : Option String

-- The events that the poller emits.
pub data PollerEvent : Type 0 where
  published_event :
      (id : ℕ) (platform : String) (external_id : Option String) (at : Option ℕ) → PollerEvent
  failed_event :
      (id : ℕ) (platform : String) (attempts : ℕ) (last_error : Option String) (dlq_id : Option ℕ)
      → PollerEvent

pub record World : Type 0 where
  pub outbox : Outbox
  pub dlq : Table (DlqEntry DeadPost)
  pub emitted : List PollerEvent

abbrev pub input_of : OutboxPost → PublishInput
input_of post = record {
  platform = post.platform;
  account_id = post.account_id;
  body = post.body;
  media = post.media;
}

abbrev pub op_of : OutboxPost → DispatchOp DeadPost
op_of post = record {
  platform = post.platform;
  op_kind = "outbox.publish";
  payload = record { outbox_id = post.id; platform = post.platform; account_id = post.account_id };
}

-- The call of the repository that follows a publish, and the event; `false` is a dead letter.
unfoldable pub settle :
    ℕ
    → OutboxPost
    → DispatchOutcome PublishError PublishResult
    → World
    → Result OutboxError Bool × World
settle now post (done v attempts) w =
    let (r, t) = mark_published now post.id v.external_id w.outbox in
    elim r [
      | ok updated ↦ (
        ok true,
        record w {
          outbox = t;
          emitted =
              w.emitted
              ++ published_event updated.id updated.platform updated.external_id
                  updated.published_at
                ∷ [];
        },
      )
      | err e ↦ (err e, record w { outbox = t })
    ]
settle now post (dead attempts e dlq_id) w =
    let (r, t) = mark_failed now post.id (error_message e) (some attempts) w.outbox in
    elim r [
      | ok updated ↦ (
        ok false,
        record w {
          outbox = t;
          emitted =
              w.emitted
              ++ failed_event updated.id updated.platform updated.attempts updated.last_error dlq_id
                ∷ [];
        },
      )
      | err e' ↦ (err e', record w { outbox = t })
    ]

-- The parts of a poller that do not change: its adapter, its schedule and its test for errors.
module _ (publisher : OutboxPublisher) (schedule : List ℕ)
    (is_transient : PublishError → Bool) where
  -- `now` is read by the repository, and by SQLite for a dead letter.
  unfoldable pub publish_one : ℕ → OutboxPost → World → Result OutboxError Bool × World
  publish_one now post w =
      let (outcome, dlq') =
        dispatch_with_dlq error_message is_transient (λ attempt. slot schedule (attempt - 1))
          (λ attempt. publisher attempt (input_of post)) now (op_of post) (length schedule + 1)
          w.dlq in
      settle now post outcome (record w { dlq = dlq' })

  -- The posts of one tick, in the order in which they finish.
  unfoldable pub publish_all : ℕ → List OutboxPost → World → List (Result OutboxError Bool) × World
  publish_all now [] w = ([], w)
  publish_all now (post ∷ posts) w =
      let (r, w') = publish_one now post w in
      let (rs, w'') = publish_all now posts w' in (r ∷ rs, w'')

pub record TickResult : Type 0 where
  pub claimed : ℕ
  pub published : ℕ
  pub failed : ℕ

-- `Promise.all` rejects with an error if any of the promises does.
unfoldable pub promise_all : List (Result OutboxError Bool) → Result OutboxError (List Bool)
promise_all [] = ok []
promise_all (ok b ∷ rs) = elim (promise_all rs) [ ok bs ↦ ok (b ∷ bs) | err e ↦ err e ]
promise_all (err e ∷ rs) = err e

unfoldable pub tick_result : ℕ → Result OutboxError (List Bool) → Result OutboxError TickResult
tick_result claimed (err e) = err e
tick_result claimed (ok outcomes) =
    let published = length (keep (λ b. b) outcomes) in
    ok (record { claimed = claimed; published = published; failed = claimed - published })

-- One tick: `finish` puts the claimed posts in the order in which their publishing ends.
module _ (publisher : OutboxPublisher) (schedule : List ℕ) (is_transient : PublishError → Bool)
    (finish : List OutboxPost → List OutboxPost) where
  unfoldable pub tick : ℕ → ℕ → World → Result OutboxError TickResult × World
  tick now batch_size w =
      let (claimed, t) = claim_due now batch_size w.outbox in
      let w' = record w { outbox = t } in
      let (rs, w'') = publish_all publisher schedule is_transient now (finish claimed) w' in
      (tick_result (length claimed) (promise_all rs), w'')
