-- ===== src/RateLimit/Broker.antt =====
-- platform/rate-limit/broker.ts: per-platform budgets, hard quotas and warnings. `acquire` is its
-- start, which runs to the first check of the bucket, and one round of its loop for every time it
-- wakes; a platform is not configured anew while a call of it sleeps. `clock k` is the k-th reading
-- of the clock in a synchronous stretch. The threshold is the fraction `warn.num / warn.den`.
use openzigs_social.Prelude.{
  ℕ, suc, ◌+◌, ◌-◌, ◌*◌, ◌/◌, String, Bool, true, false, ◌&&◌, ◌||◌, not, Option, none, some,
  get_or, List, [], ◌∷◌, ◌++◌, leb, ltb, if◌then◌else◌, is_some, ◌⊎◌, inl, inr,
}
use mathlib.Core.Option
use openzigs_social.Prelude.Maps.{get, set}
use openzigs_social.Retry.Backoff.{Fraction}
use openzigs_social.RateLimit.Bucket.{
  TokenBucket, budget, new_bucket, utilization, try_consume, ms_until_available,
}

-- A number of JavaScript that is an integer.
pub data ℤ : Type 0 where
  pos negsuc : ℕ → ℤ

unfoldable pub minus : ℤ → ℕ → ℤ
minus (pos a) n = if leb n a then pos (a - n) else negsuc (n - a - 1)
minus (negsuc a) n = negsuc (a + n)

unfoldable pub below : ℤ → ℕ → Bool
below (pos a) n = ltb a n
below (negsuc a) n = true

pub record PlatformBudget : Type 0 where
  pub capacity : ℕ
  pub refill_rate : Fraction
  pub quota : Option ℕ

pub data AcquireResult : Type 0 where
  granted timed_out no_quota unknown_platform : AcquireResult

pub record RateLimitWarning : Type 0 where
  pub platform : String
  pub budget : ℕ
  pub used : ℕ

pub record PlatformState : Type 0 where
  pub bucket : TokenBucket
  pub quota_remaining : Option ℤ
  pub quota_initial : Option ℕ
  pub warned : Bool

pub record RateLimitBroker : Type 0 where
  pub states : List (String × PlatformState)
  pub warn : Fraction
  pub emitted : List RateLimitWarning

-- `none` is the error of the bucket's constructor.
unfoldable pub configure : ℕ → String → PlatformBudget → RateLimitBroker → Option RateLimitBroker
unfolding set
configure now platform b broker =
    Option.map
      (λ bucket. record broker {
        states =
            set platform
              (record {
                bucket = bucket;
                quota_remaining = Option.map pos b.quota;
                quota_initial = b.quota;
                warned = false;
              })
              broker.states;
      })
      (new_bucket b.capacity b.refill_rate none now)

unfoldable pub has : String → RateLimitBroker → Bool
unfolding get
has platform broker = is_some (get platform broker.states)

unfoldable pub reset_quota : String → RateLimitBroker → RateLimitBroker
unfolding get set
reset_quota platform broker = elim (get platform broker.states) [
  | none ↦ broker
  | some s ↦ record broker {
    states =
        set platform (record s { quota_remaining = Option.map pos s.quota_initial }) broker.states;
  }
]

unfoldable pub remaining_quota : String → RateLimitBroker → Option ℤ
unfolding get
remaining_quota platform broker = elim (get platform broker.states) [
  | none ↦ none
  | some s ↦ s.quota_remaining
]

-- Math.round (n / d)
abbrev round : ℕ → ℕ → ℕ
round n d = (2 * n + d) / (2 * d)

-- `maybeWarn` on a state: the state after it, and the warning that it emits.
unfoldable pub maybe_warn :
    Fraction → ℕ → String → PlatformState → Option RateLimitWarning × PlatformState
unfolding utilization
maybe_warn warn now platform s =
    let (used, bucket) = utilization now s.bucket in
    let hot = leb (warn.num * budget bucket) (used * warn.den) in
    let warning : RateLimitWarning = record {
      platform = platform;
      budget = bucket.capacity;
      used = round used bucket.rate.den;
    } in
    (if hot && not s.warned then some warning else none, record s { bucket = bucket; warned = hot })

-- `state.quotaRemaining !== undefined && state.quotaRemaining < cost`
abbrev pub lacks_quota : Option ℤ → ℕ → Bool
lacks_quota none cost = false
lacks_quota (some q) cost = below q cost

unfoldable pub spend_quota : ℕ → PlatformState → PlatformState
unfolding minus
spend_quota cost s = record s { quota_remaining = Option.map (λ q. minus q cost) s.quota_remaining }

-- `tryConsume` on a state, and what follows when it succeeds; `clock 0` and `clock 1` are read.
unfoldable pub attempt :
    Fraction → (ℕ → ℕ) → String → ℕ → PlatformState → Bool × PlatformState × Option RateLimitWarning
attempt warn clock platform cost s =
    let (granted', bucket) = try_consume (clock 0) cost s.bucket in
    let s' : PlatformState = record s { bucket = bucket } in
    let (warning, s'') = maybe_warn warn (clock 1) platform (spend_quota cost s') in
    if granted' then (true, s'', warning) else (false, s', none)

abbrev warnings : Option RateLimitWarning → List RateLimitWarning
warnings none = []
warnings (some w) = w ∷ []

-- The broker with a new state of a platform and the warnings that were emitted.
unfoldable pub put :
    String → PlatformState → List RateLimitWarning → RateLimitBroker → RateLimitBroker
unfolding set
put platform s ws broker = record broker {
  states = set platform s broker.states;
  emitted = broker.emitted ++ ws;
}

unfoldable pub try_acquire :
    (ℕ → ℕ) → String → ℕ → RateLimitBroker → AcquireResult × RateLimitBroker
try_acquire clock platform cost broker = elim (get platform broker.states) [
  | none ↦ (unknown_platform, broker)
  | some s ↦
      let (w, s') = maybe_warn broker.warn (clock 0) platform s in
      let (granted', s'', w') = attempt broker.warn (λ k. clock (suc k)) platform cost s' in
      if lacks_quota s.quota_remaining cost then (no_quota, broker) else (
        if granted' then granted else timed_out,
        put platform s'' (warnings w ++ warnings w') broker,
      )
]

-- A call of `acquire` that is in its loop.
pub record Waiter : Type 0 where
  pub platform : String
  pub cost : ℕ
  pub deadline : Option ℕ

pub data Round : Type 0 where
  finished : AcquireResult → Round
  sleeps : ℕ → Round

-- `remaining <= 0 || waitMs > remaining`
abbrev pub too_late : Option ℕ → ℕ → ℕ → Bool
too_late none now wait_ms = false
too_late (some deadline) now wait_ms = leb deadline now || ltb (deadline - now) wait_ms

-- The loop's decision when the bucket lacks the tokens.
unfoldable pub wait_round : (ℕ → ℕ) → Waiter → PlatformState → Round × PlatformState
wait_round clock waiter s =
    let (wait_ms, bucket) = ms_until_available (clock 0) waiter.cost s.bucket in
    let s' : PlatformState = record s { bucket = bucket } in
    elim wait_ms [
      | none ↦ (finished timed_out, s')
      | some ms ↦
          (if too_late waiter.deadline (clock 1) ms then finished timed_out else sleeps ms, s')
    ]

-- One round of the loop on the state of the platform.
unfoldable pub acquire_round :
    Fraction → (ℕ → ℕ) → Waiter → PlatformState → Round × PlatformState × Option RateLimitWarning
acquire_round warn clock waiter s =
    let (granted', s', w) = attempt warn clock waiter.platform waiter.cost s in
    let (round', s'') = wait_round (λ k. clock (suc k)) waiter s' in
    if granted' then (finished granted, s', w) else (round', s'', none)

-- What comes before the loop: an outcome, or the call that enters it.
unfoldable pub acquire_start :
    (ℕ → ℕ)
    → String
    → Option ℕ
    → Option ℕ
    → RateLimitBroker
    → (AcquireResult ⊎ Waiter) × RateLimitBroker
acquire_start clock platform cost timeout_ms broker = elim (get platform broker.states) [
  | none ↦ (inl unknown_platform, broker)
  | some s ↦
      let cost' = get_or cost 1 in
      let waiter : Waiter = record {
        platform = platform;
        cost = cost';
        deadline = Option.map (λ ms. clock 0 + ms) timeout_ms;
      } in
      let (w, s') = maybe_warn broker.warn (clock 1) platform s in
      if lacks_quota s.quota_remaining cost'
      then (inl no_quota, broker)
      else (inr waiter, put platform s' (warnings w) broker)
]

-- A round of a call that has woken up.
unfoldable pub acquire_wake : (ℕ → ℕ) → Waiter → RateLimitBroker → Round × RateLimitBroker
acquire_wake clock waiter broker = elim (get waiter.platform broker.states) [
  | none ↦ (finished unknown_platform, broker)
  | some s ↦
      let (round', s', w) = acquire_round broker.warn clock waiter s in
      (round', put waiter.platform s' (warnings w) broker)
]
