-- ===== src/Approvals/Queue.antt =====
-- approvals/approval-queue.ts: the state of ApprovalQueue and its methods. A payload and the
-- metadata of a decision are of any type. A promise is its number in the order of creation, which
-- is also the handle of its timer; `resolved` holds the calls of the promises' `resolve`, and
-- `timers` the timers that are armed, with the id that their callback holds. Each method takes the
-- readings of `this.now()` that it makes, and `randomUUID()` is an argument.
use openzigs_social.Prelude.{
  ℕ, suc, String, Bool, true, false, not, Option, none, some, get_or, List, [], ◌∷◌, ◌++◌, map, ltb,
  leb, ◌==◌, str_eq, if◌then◌else◌, keep, is_some, length,
}
use mathlib.Core.Option
use openzigs_social.Prelude.Maps.{get, set, remove}
use openzigs_social.Effects.{Result, ok, err}

pub data Decision : Type 0 where
  approve reject : Decision

pub data OutcomeDecision : Type 0 where
  decided : Decision → OutcomeDecision
  timeout : OutcomeDecision

pub record RequestOptions : Type 0 where
  pub timeout_ms : Option ℕ
  pub id : Option String

pub data RequestError : Type 0 where
  invalid_options : RequestError
  already_pending : String → RequestError
  queue_full : ℕ → RequestError

-- `z.string().min(1).optional()`
abbrev pub invalid_id : Option String → Bool
invalid_id none = false
invalid_id (some id) = str_eq id ""

-- `timeoutMs !== undefined && timeoutMs > 0`
abbrev pub arms : Option ℕ → Bool
arms none = false
arms (some ms) = ltb 0 ms

-- clearTimeout
unfoldable pub clear_timeout : Option ℕ → List (ℕ × String) → List (ℕ × String)
clear_timeout none timers = timers
clear_timeout (some h) timers = keep (λ (h', _). not (h' == h)) timers

unfoldable pub callback : ℕ → List (ℕ × String) → Option String
callback h [] = none
callback h ((h', id) ∷ timers) = if h' == h then some id else callback h timers

module _ (P M : Type 0) where
  pub record PendingApproval : Type 0 where
    pub id : String
    pub payload : P
    pub created_at : ℕ
    pub timeout_ms : Option ℕ

  pub record ApprovalOutcome : Type 0 where
    pub id : String
    pub decision : OutcomeDecision
    pub decided_at : ℕ
    pub metadata : Option M

  pub record Entry : Type 0 where
    pub pending : PendingApproval
    pub promise : ℕ
    pub timer : Option ℕ
    pub settled : Bool

  pub data ApprovalQueueEvent : Type 0 where
    request_event : PendingApproval → ApprovalQueueEvent
    decision_event timeout_event : ApprovalOutcome → ApprovalQueueEvent

  pub record ApprovalQueue : Type 0 where
    pub entries : List (String × Entry)
    pub default_timeout_ms : Option ℕ
    pub max_pending : Option ℕ
    pub promises : ℕ
    pub timers : List (ℕ × String)
    pub resolved : List (ℕ × ApprovalOutcome)
    pub emitted : List (ApprovalQueueEvent)

  pub data Call : Type 0 where
    request_call : (now : ℕ) (uuid : String) (payload : P) (opts : RequestOptions) → Call
    decide_call : (now : ℕ) (id : String) (decision : Decision) (metadata : Option M) → Call
    clear_call : (clock : ℕ → ℕ) → Call
    fire_call : (now handle : ℕ) → Call

module _ {P M : Type 0} where
  abbrev pub empty_queue : Option ℕ → Option ℕ → ApprovalQueue P M
  empty_queue default_timeout_ms max_pending = record {
    entries = [];
    default_timeout_ms = default_timeout_ms;
    max_pending = max_pending;
    promises = 0;
    timers = [];
    resolved = [];
    emitted = [];
  }

  -- new ApprovalQueue: a cap of 0 is refused.
  unfoldable pub new_queue : Option ℕ → Option ℕ → Option (ApprovalQueue P M)
  new_queue default_timeout_ms none = some (empty_queue default_timeout_ms none)
  new_queue default_timeout_ms (some n) =
      if n == 0 then none else some (empty_queue default_timeout_ms (some n))

  unfoldable pub has : String → ApprovalQueue P M → Bool
  unfolding get
  has id q = is_some (get id q.entries)

  abbrev pub size : ApprovalQueue P M → ℕ
  size q = length q.entries

  unfoldable pub get_pending : String → ApprovalQueue P M → Option (PendingApproval P M)
  unfolding get
  get_pending id q = Option.map (λ e. e.pending) (get id q.entries)

  unfoldable pub list_pending : ApprovalQueue P M → List (PendingApproval P M)
  list_pending q = map (λ (_, e). e.pending) q.entries

  abbrev pub is_full : ApprovalQueue P M → Option ℕ → Bool
  is_full q none = false
  is_full q (some max) = leb max (size q)

  abbrev pub new_entry : ℕ → String → P → Option ℕ → ℕ → Entry P M
  new_entry now id payload timeout_ms n = record {
    pending = record { id = id; payload = payload; created_at = now; timeout_ms = timeout_ms };
    promise = n;
    timer = if arms timeout_ms then some n else none;
    settled = false;
  }

  -- The executor of `new Promise`.
  unfoldable pub enqueue : ℕ → String → P → Option ℕ → ApprovalQueue P M → ApprovalQueue P M
  unfolding set
  enqueue now id payload timeout_ms q =
      let entry = new_entry now id payload timeout_ms q.promises in
      record q {
        entries = set id entry q.entries;
        promises = suc q.promises;
        timers = if arms timeout_ms then (q.promises, id) ∷ q.timers else q.timers;
        emitted = q.emitted ++ request_event entry.pending ∷ [];
      }

  unfoldable pub request :
      ℕ
      → String
      → P
      → RequestOptions
      → ApprovalQueue P M
      → Result RequestError ℕ × ApprovalQueue P M
  unfolding has enqueue
  request now uuid payload opts q =
      let id = get_or opts.id uuid in
      if invalid_id opts.id
      then (err invalid_options, q)
      else if has id q
      then (err (already_pending id), q)
      else if is_full q q.max_pending
      then (err (queue_full (get_or q.max_pending 0)), q)
      else (
        ok q.promises,
        enqueue now id payload
            (if is_some opts.timeout_ms then opts.timeout_ms else q.default_timeout_ms) q,
      )

  abbrev pub outcome_event : ApprovalOutcome P M → ApprovalQueueEvent P M
  outcome_event o = elim o.decision [ timeout ↦ timeout_event o | decided d ↦ decision_event o ]

  unfoldable pub settle_entry :
      ℕ → String → OutcomeDecision → Option M → Entry P M → ApprovalQueue P M → ApprovalQueue P M
  unfolding remove clear_timeout
  settle_entry now id decision metadata entry q =
      let outcome : ApprovalOutcome P M = record {
        id = id;
        decision = decision;
        decided_at = now;
        metadata = metadata;
      } in
      record q {
        entries = remove id q.entries;
        timers = clear_timeout entry.timer q.timers;
        resolved = q.resolved ++ (entry.promise, outcome) ∷ [];
        emitted = q.emitted ++ outcome_event outcome ∷ [];
      }

  unfoldable pub settle :
      ℕ → String → OutcomeDecision → Option M → ApprovalQueue P M → Bool × ApprovalQueue P M
  unfolding get settle_entry
  settle now id decision metadata q = elim (get id q.entries) [
    | none ↦ (false, q)
    | some entry ↦
        if entry.settled then (false, q) else (true, settle_entry now id decision metadata entry q)
  ]

  unfoldable pub decide :
      ℕ → String → Decision → Option M → ApprovalQueue P M → Bool × ApprovalQueue P M
  unfolding settle
  decide now id decision metadata q = settle now id (decided decision) metadata q

  unfoldable pub settle_all : (ℕ → ℕ) → List String → ApprovalQueue P M → ApprovalQueue P M
  settle_all clock [] q = q
  settle_all clock (id ∷ ids) q =
      settle_all (λ k. clock (suc k)) ids (settle (clock 0) id timeout none q).1

  -- `clock k` is the reading for the k-th entry.
  unfoldable pub clear : (ℕ → ℕ) → ApprovalQueue P M → ApprovalQueue P M
  clear clock q = settle_all clock (map (λ (id, _). id) q.entries) q

  -- The event loop runs the callback of the timer `h`, if it is still armed.
  unfoldable pub fire : ℕ → ℕ → ApprovalQueue P M → ApprovalQueue P M
  unfolding settle clear_timeout callback
  fire now h q = elim (callback h q.timers) [
    | none ↦ q
    | some id ↦
        (settle now id timeout none (record q { timers = clear_timeout (some h) q.timers })).1
  ]

  unfoldable pub step : Call P M → ApprovalQueue P M → ApprovalQueue P M
  step (request_call now uuid payload opts) q = (request now uuid payload opts q).1
  step (decide_call now id decision metadata) q = (decide now id decision metadata q).1
  step (clear_call clock) q = clear clock q
  step (fire_call now h) q = fire now h q

  unfoldable pub run : List (Call P M) → ApprovalQueue P M → ApprovalQueue P M
  run [] q = q
  run (c ∷ cs) q = run cs (step c q)
