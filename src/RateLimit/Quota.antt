-- ===== src/RateLimit/Quota.antt =====
-- Lemmas on platform/rate-limit/broker.ts: the hard quota.
use openzigs_social.Prelude.{
  ℕ, suc, ◌-◌, ◌≤◌, String, false, none, some, List, ◌≡◌, ◌≢◌, refl, ap, sym, ◌∙◌, ◌⊎◌, inl, inr,
  arith, eq_iff, if◌then◌else◌, Bool-cases, Option-cases,
}
use mathlib.Core.Option
use openzigs_social.Prelude.Maps.{get, get-set}
use openzigs_social.Retry.Backoff.{Fraction}
use openzigs_social.RateLimit.Bucket.{try_consume}
use openzigs_social.RateLimit.Broker.{
  pos, minus, below, granted, RateLimitBroker, PlatformState, RateLimitWarning, maybe_warn,
  lacks_quota, spend_quota, attempt, put, try_acquire, remaining_quota,
}

maybe_warn-quota :
    (warn : Fraction) (now : ℕ) (platform : String) (s : PlatformState)
    → (maybe_warn warn now platform s).1.quota_remaining ≡ s.quota_remaining
unfolding maybe_warn
maybe_warn-quota warn now platform s = refl

-- A grant takes the cost off the quota, and nothing else does.
attempt-quota :
    (warn : Fraction) (clock : ℕ → ℕ) (platform : String) (cost : ℕ) (s : PlatformState)
    → (attempt warn clock platform cost s).1.quota_remaining ≡ (
        if (attempt warn clock platform cost s).0
        then Option.map (λ q. minus q cost) s.quota_remaining
        else s.quota_remaining)
unfolding attempt maybe_warn spend_quota
attempt-quota warn clock platform cost s =
    elim (Bool-cases (try_consume (clock 0) cost s.bucket).0) [
      | inl hit ↦ rw hit refl
      | inr miss ↦ rw miss refl
    ]

remaining_quota_lem :
    (platform : String) (s : PlatformState) (broker : RateLimitBroker)
    → get platform broker.states ≡ some s
    → remaining_quota platform broker ≡ s.quota_remaining
unfolding remaining_quota
remaining_quota_lem platform s broker here = rw (here, remaining_quota) refl

remaining_quota-put :
    (platform : String) (s : PlatformState) (ws : List RateLimitWarning) (broker : RateLimitBroker)
    → remaining_quota platform (put platform s ws broker) ≡ s.quota_remaining
unfolding put
remaining_quota-put platform s ws broker =
    remaining_quota_lem platform s (put platform s ws broker)
      (get-set platform platform s broker.states ∙ rw ((eq_iff platform platform).1 refl) refl)

remaining_quota-none :
    (platform : String) (broker : RateLimitBroker)
    → get platform broker.states ≡ none
    → remaining_quota platform broker ≡ none
unfolding remaining_quota
remaining_quota-none platform broker gone = rw (gone, remaining_quota) refl

-- What `tryAcquire` does on a platform that is there.
try_acquire_lem :
    (clock : ℕ → ℕ) (platform : String) (cost : ℕ) (s : PlatformState) (broker : RateLimitBroker)
    → get platform broker.states ≡ some s
    → let (result, broker') = try_acquire clock platform cost broker in
      ((result ≡ granted)
        × (lacks_quota s.quota_remaining cost ≡ false)
        × (remaining_quota platform broker' ≡ Option.map (λ q. minus q cost) s.quota_remaining))
      ⊎ ((result ≢ granted) × (remaining_quota platform broker' ≡ s.quota_remaining))
unfolding try_acquire
try_acquire_lem clock platform cost s broker here =
    let s' = (maybe_warn broker.warn (clock 0) platform s).1 in
    let shift = λ (k : ℕ). clock (suc k) in
    let quota = attempt-quota broker.warn shift platform cost s' in
    elim (Bool-cases (lacks_quota s.quota_remaining cost)) [
      | inl lacks ↦
          inr (
            rw (here, try_acquire) (rw lacks (λ e. cc, remaining_quota_lem platform s broker here)))
      | inr enough ↦ elim (Bool-cases (attempt broker.warn shift platform cost s').0) [
        | inl hit ↦ inl (
            rw (here, try_acquire)
              (rw (enough, hit)
                (
                  refl,
                  refl,
                  remaining_quota-put platform _ _ broker
                      ∙ quota
                      ∙ rw hit (
                          ap (Option.map (λ q. minus q cost))
                            (maybe_warn-quota broker.warn (clock 0) platform s)),
                )))
        | inr miss ↦ inr (
            rw (here, try_acquire)
              (rw (enough, miss)
                (
                  λ e. cc,
                  remaining_quota-put platform _ _ broker
                      ∙ quota
                      ∙ rw miss (maybe_warn-quota broker.warn (clock 0) platform s),
                )))
      ]
    ]

-- If the remaining quota of a platform is some number, `tryAcquire` either grants, and then the
-- cost is within the quota and is taken off it, or refuses, and then the quota is as it was.
remaining_quota-try_acquire :
    (clock : ℕ → ℕ) (platform : String) (cost r : ℕ) (broker : RateLimitBroker)
    → remaining_quota platform broker ≡ some (pos r)
    → let (result, broker') = try_acquire clock platform cost broker in
      ((result ≡ granted) × (cost ≤ r) × (remaining_quota platform broker' ≡ some (pos (r - cost))))
      ⊎ ((result ≢ granted) × (remaining_quota platform broker' ≡ some (pos r)))
unfolding minus below
remaining_quota-try_acquire clock platform cost r broker h =
    elim (Option-cases (get platform broker.states)) [
      | inl gone ↦ cc (h, remaining_quota-none platform broker gone)
      | inr (s, here) ↦
          let q = sym (remaining_quota_lem platform s broker here) ∙ h in
          elim (try_acquire_lem clock platform cost s broker here) [
            | inl (yes', enough, left) ↦
                let fits : cost ≤ r = ground (arith, rw q at enough) in
                inl (yes', fits, left ∙ rw q (ground (arith, fits)))
            | inr (no', left) ↦ inr (no', left ∙ q)
          ]
    ]
