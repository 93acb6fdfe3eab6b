-- ===== src/Retry/Laws.antt =====
-- Lemmas on platform/retry/backoff.ts: the retry loop and the range of a delay.
use openzigs_social.Prelude.{
  ℕ, zero, suc, ◌+◌, ◌-◌, ◌*◌, ◌≤◌, ◌<◌, Bool, true, false, Option, none, some, List, [], ◌∷◌, map,
  ◌≡◌, refl, ◌⊎◌, inl, inr, arith, leb, Bool-cases,
}
use native.Mathlib.Nat.{
  mul-le-mul_left, mul-le-mul_right, le_of_mul-le-mul_left, mul-div-le, lt-mul-div-succ,
}
use openzigs_social.Effects.{Result, ok, err, Result-cases}
use openzigs_social.Retry.Backoff.{
  Fraction, BackoffParams, raw_delay, jitter, compute_backoff_ms, round_div, Ending, value,
  exhausted, Retried, after_delay, retry_from, retry,
}

leb-suc-zero : (n : ℕ) → leb (suc n) 0 ≡ false
leb-suc-zero n = ground arith

-- start, start + 1, …, `n` numbers.
abbrev pub count_from : ℕ → ℕ → List ℕ
count_from start zero = []
count_from start (suc n) = start ∷ count_from (suc start) n

module _ {E T : Type 0} (is_transient : E → Bool) (delay : ℕ → ℕ) (fn : ℕ → Result E T) where
  -- The attempt fails with an error that may be retried.
  abbrev pub FailsTransiently : ℕ → Type 0
  FailsTransiently n = (e : E) × (fn n ≡ err e) × (is_transient e ≡ true)

  -- The attempt `n` gives the ending: its value, or its error where no attempt is `left` or the error
  -- is not transient.
  abbrev pub Concludes : ℕ → ℕ → Ending E T → Type 0
  Concludes left n (value v) = fn n ≡ ok v
  Concludes left n (exhausted a last_error) =
      (a ≡ n)
      × ((e : E) × (last_error ≡ some e) × (fn n ≡ err e) × ((left ≡ 0) ⊎ (is_transient e ≡ false)))

  -- A run that began with the attempt `first` and may make `most`.
  pub record IsRun (first most : ℕ) (r : Retried E T) : Type 0 where
    pub some_call : 1 ≤ r.calls
    pub bounded : r.calls ≤ most
    pub earlier : (n : ℕ) → first ≤ n → suc n < first + r.calls → FailsTransiently n
    pub last : Concludes (most - r.calls) (first + r.calls - 1) r.ending
    pub slept : r.delays ≡ map delay (count_from first (r.calls - 1))

  module _ (first left : ℕ) where
    value-IsRun :
        (v : T)
        → fn first ≡ ok v
        → IsRun first (suc left) (record { ending = value v; calls = 1; delays = [] })
    value-IsRun v e = record {
      some_call = omega arith;
      bounded = omega arith;
      earlier = λ n le lt. absurd (omega arith);
      last = let here : first + 1 - 1 ≡ first = omega arith in rw here e;
      slept = refl;
    }

    exhausted-IsRun :
        (e : E)
        → fn first ≡ err e
        → (left ≡ 0) ⊎ (is_transient e ≡ false)
        → IsRun first
            (suc left)
            (record { ending = exhausted first (some e); calls = 1; delays = [] })
    exhausted-IsRun e failed why = record {
      some_call = omega arith;
      bounded = omega arith;
      earlier = λ n le lt. absurd (omega arith);
      last =
          let here : first + 1 - 1 ≡ first = omega arith in
          let rest : suc left - 1 ≡ left = omega arith in
          rw (here, rest) (refl, (e, refl, failed, why));
      slept = refl;
    }

    after_delay-IsRun :
        (e : E) (r : Retried E T)
        → fn first ≡ err e
        → is_transient e ≡ true
        → IsRun (suc first) left r
        → IsRun first (suc left) (after_delay (delay first) r)
    after_delay-IsRun e r failed transient run = record {
      some_call = omega arith;
      bounded = omega (arith, run.bounded);
      earlier = λ n le lt. earlier n (cases first n le) lt;
      last =
          let here : first + suc r.calls - 1 ≡ suc first + r.calls - 1 = omega arith in
          let rest : suc left - suc r.calls ≡ left - r.calls = omega arith in
          rw (here, rest) run.last;
      slept =
          let count : suc r.calls - 1 ≡ suc (r.calls - 1) = omega (arith, run.some_call) in
          rw (count, run.slept);
    }
      where
        cases : (a n : ℕ) → a ≤ n → (n ≡ a) ⊎ (suc a ≤ n)
        cases a n le = ground arith

        earlier :
            (n : ℕ)
            → (n ≡ first) ⊎ (suc first ≤ n)
            → suc n < first + suc r.calls
            → FailsTransiently n
        earlier n (inl here) lt = rw here (e, failed, transient)
        earlier n (inr later) lt = run.earlier n later (omega arith)

  pub retry_from-IsRun :
      (left first : ℕ) (last_error : Option E)
      → IsRun first (suc left) (retry_from is_transient delay fn (suc left) first last_error)
  unfolding retry_from
  retry_from-IsRun zero first last_error = elim (Result-cases (fn first)) [
    | inl (v, e) ↦ rw (e, retry_from) (value-IsRun first 0 v e)
    | inr (x, e) ↦ rw (e, retry_from) (exhausted-IsRun first 0 x e (inl refl))
  ]
  retry_from-IsRun (suc left) first last_error = elim (Result-cases (fn first)) [
    | inl (v, e) ↦ rw (e, retry_from) (value-IsRun first (suc left) v e)
    | inr (x, e) ↦ elim (Bool-cases (is_transient x)) [
      | inl t ↦
          rw (e, retry_from, t, leb-suc-zero left)
            (after_delay-IsRun first (suc left) x _ e t
              (retry_from-IsRun left (suc first) (some x)))
      | inr f ↦
          rw (e, retry_from, f, leb-suc-zero left) (exhausted-IsRun first (suc left) x e (inr f))
    ]
  ]

-- With a budget of at least one attempt, `retry` makes between one and that many; all but the
-- last fail with a transient error, each followed by its delay; it returns the value of the
-- last, or throws with its error and number, and then the budget is spent or the error is not
-- transient.
pub retry-IsRun :
    {E T : Type 0} (is_transient : E → Bool) (delay : ℕ → ℕ) (fn : ℕ → Result E T) (most : ℕ)
    → 1 ≤ most
    → IsRun is_transient delay fn 1 most (retry is_transient delay fn most)
unfolding retry
retry-IsRun is_transient delay fn zero h = absurd (omega arith)
retry-IsRun is_transient delay fn (suc left) h = retry_from-IsRun is_transient delay fn left 1 none

jitter_split :
    (un ud rn k : ℕ)
    → un < ud
    → (ud * k ≤ ud * (rn + k) + 2 * un * rn - ud * rn)
      × (ud * (rn + k) + 2 * un * rn - ud * rn ≤ ud * (rn + k + rn))
jitter_split un ud rn k u =
    let below : un * rn ≤ ud * rn = mul-le-mul_right rn (omega arith) in omega arith

jitter_bounds :
    (un ud rn rd : ℕ)
    → un < ud
    → rn ≤ rd
    → (ud * (rd - rn) ≤ ud * rd + 2 * un * rn - ud * rn)
      × (ud * rd + 2 * un * rn - ud * rn ≤ ud * (rd + rn))
jitter_bounds un ud rn rd u r =
    let e : rn + (rd - rn) ≡ rd = omega arith in rw e at (jitter_split un ud rn (rd - rn) u)

-- Rounding is off by a half at most.
round_div_bounds :
    (n d : ℕ) → 0 < d → (2 * n ≤ 2 * d * round_div n d + d) × (2 * d * round_div n d ≤ 2 * n + d)
round_div_bounds n d h =
    omega
      (arith, mul-div-le (2 * n + d) (2 * d), lt-mul-div-succ (2 * n + d) {b = 2 * d} (omega arith))

-- The two bounds over the common denominator, and the factor `ud` cancelled.
scaled_bounds :
    (raw j ud rn rd m : ℕ)
    → 0 < ud
    → (ud * (rd - rn) ≤ j) × (j ≤ ud * (rd + rn))
    → (2 * (raw * j) ≤ 2 * (ud * rd) * m + ud * rd) × (2 * (ud * rd) * m ≤ 2 * (raw * j) + ud * rd)
    → (2 * raw * (rd - rn) ≤ 2 * rd * m + rd) × (2 * rd * m ≤ 2 * raw * (rd + rn) + rd)
scaled_bounds raw j ud rn rd m pos (low, high) (down, up) =
    (le_of_mul-le-mul_left {k = ud} lower pos, le_of_mul-le-mul_left {k = ud} upper pos)
  where
    lower : ud * (2 * raw * (rd - rn)) ≤ ud * (2 * rd * m + rd)
    lower =
        let step : raw * (ud * (rd - rn)) ≤ raw * j = mul-le-mul_left raw low in go (rd - rn) step
      where
        go : (k : ℕ) → raw * (ud * k) ≤ raw * j → ud * (2 * raw * k) ≤ ud * (2 * rd * m + rd)
        go k step = omega arith

    upper : ud * (2 * rd * m) ≤ ud * (2 * raw * (rd + rn) + rd)
    upper = let step : raw * j ≤ raw * (ud * (rd + rn)) = mul-le-mul_left raw high in omega arith

-- For a random number below 1 and a jitter ratio of at most 1, the delay differs from the raw
-- exponential delay by at most the jitter ratio times that delay, and half a millisecond for the
-- rounding.
compute_backoff_ms_bounds :
    (attempt : ℕ) (p : BackoffParams) (random : Fraction)
    → random.num < random.den
    → p.jitter_ratio.num ≤ p.jitter_ratio.den
    → 0 < p.jitter_ratio.den
    → let ratio = p.jitter_ratio in
      let raw = raw_delay attempt p in
      let delay = compute_backoff_ms attempt p random in
      (2 * raw * (ratio.den - ratio.num) ≤ 2 * ratio.den * delay + ratio.den)
      × (2 * ratio.den * delay ≤ 2 * raw * (ratio.den + ratio.num) + ratio.den)
unfolding compute_backoff_ms
compute_backoff_ms_bounds attempt p random u r d =
    let rn = p.jitter_ratio.num in
    let rd = p.jitter_ratio.den in
    let j = jitter random p.jitter_ratio in
    scaled_bounds (raw_delay attempt p) j random.den rn rd _ (omega arith)
      (jitter_bounds random.num random.den rn rd u r)
      (round_div_bounds (raw_delay attempt p * j) (random.den * rd)
        (pos random.den rd (omega arith) d))
  where
    pos : (a b : ℕ) → 0 < a → 0 < b → 0 < a * b
    pos a b h k = grind arith
