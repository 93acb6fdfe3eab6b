-- ===== src/Retry/Backoff.antt =====
-- platform/retry/backoff.ts: the delay before a retry, and the retry loop. A ratio in [0, 1] and a
-- random number in [0, 1) are fractions of natural numbers, so the arithmetic is exact.
use openzigs_social.Prelude.{
  ℕ, zero, suc, ◌+◌, ◌-◌, ◌*◌, ◌/◌, ◌^◌, Bool, not, ◌||◌, Option, none, some, List, [], ◌∷◌, leb,
  if◌then◌else◌,
}
use openzigs_social.Effects.{Result, ok, err}

pub record Fraction : Type 0 where
  pub num : ℕ
  pub den : ℕ

pub record BackoffParams : Type 0 where
  pub base_delay_ms : ℕ
  pub multiplier : ℕ
  pub jitter_ratio : Fraction

-- DEFAULT_BASE_DELAY_MS, DEFAULT_MULTIPLIER and DEFAULT_JITTER_RATIO
abbrev pub default_params : BackoffParams
default_params = record {
  base_delay_ms = 1000;
  multiplier = 2;
  jitter_ratio = record { num = 1; den = 4 };
}

abbrev pub default_max_attempts : ℕ
default_max_attempts = 5

-- `Math.round(n / d)` for n ≥ 0 and d > 0: halves go up.
abbrev pub round_div : ℕ → ℕ → ℕ
round_div n d = (2 * n + d) / (2 * d)

-- baseDelayMs * multiplier ** (attempt - 1)
unfoldable pub raw_delay : ℕ → BackoffParams → ℕ
raw_delay attempt p = p.base_delay_ms * p.multiplier ^ (attempt - 1)

-- The numerator of 1 + (random * 2 - 1) * jitterRatio over `random.den * jitterRatio.den`. Where
-- the factor is negative the subtraction stops at 0, and so does `Math.max(0, …)`.
unfoldable pub jitter : Fraction → Fraction → ℕ
jitter random ratio = random.den * ratio.den + 2 * random.num * ratio.num - random.den * ratio.num

unfoldable pub compute_backoff_ms : ℕ → BackoffParams → Fraction → ℕ
unfolding raw_delay jitter
compute_backoff_ms attempt p random =
    round_div (raw_delay attempt p * jitter random p.jitter_ratio) (random.den * p.jitter_ratio.den)

-- How `retry` ends, and the delays that it slept on the way. `last_error` is undefined only where no
-- attempt was made.
pub data Ending (E T : Type 0) : Type 0 where
  value : T → Ending E T
  exhausted : (attempts : ℕ) (last_error : Option E) → Ending E T

pub record Retried (E T : Type 0) : Type 0 where
  pub ending : Ending E T
  pub calls : ℕ
  pub delays : List ℕ

abbrev pub after_delay : {E T : Type 0} → ℕ → Retried E T → Retried E T
after_delay delay r = record r { calls = suc r.calls; delays = delay ∷ r.delays }

-- `fn` gives the outcome of each attempt, and `delay` the pause before the next one.
module _ {E T : Type 0} (is_transient : E → Bool) (delay : ℕ → ℕ) (fn : ℕ → Result E T) where
  abbrev final : Ending E T → Retried E T
  final e = record { ending = e; calls = 1; delays = [] }

  -- The loop, by the attempts that are left after this one's predecessors.
  unfoldable pub retry_from : ℕ → ℕ → Option E → Retried E T
  retry_from zero attempt last_error = record {
    ending = exhausted (attempt - 1) last_error;
    calls = 0;
    delays = [];
  }
  retry_from (suc left) attempt last_error = elim (fn attempt) [
    | ok v ↦ final (value v)
    | err e ↦
        let rest = after_delay (delay attempt) (retry_from left (suc attempt) (some e)) in
        if leb left 0 || not (is_transient e) then final (exhausted attempt (some e)) else rest
  ]

  unfoldable pub retry : ℕ → Retried E T
  unfolding retry_from
  retry max_attempts = retry_from max_attempts 1 none
