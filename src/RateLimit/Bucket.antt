-- ===== src/RateLimit/Bucket.antt =====
-- platform/rate-limit/token-bucket.ts. `refillPerMs` is the fraction `rate.num / rate.den`, and
-- `tokens` counts parts of a token, `rate.den` of them to a token, so that the arithmetic is exact;
-- the code's doubles can be a rounding error short of a token at the instant that a wait names.
-- Each method takes the reading of `this.now()` that its `refill` makes.
use openzigs_social.Prelude.{
  ℕ, ◌+◌, ◌-◌, ◌*◌, ◌/◌, min, Bool, true, false, Option, none, some, get_or, leb, ◌==◌,
  if◌then◌else◌,
}
use openzigs_social.Retry.Backoff.{Fraction}

pub record TokenBucket : Type 0 where
  pub capacity : ℕ
  pub rate : Fraction
  pub tokens : ℕ
  pub last_refill : ℕ

-- The budget in parts of a token.
abbrev pub budget : TokenBucket → ℕ
budget b = b.capacity * b.rate.den

abbrev pub price : ℕ → TokenBucket → ℕ
price cost b = cost * b.rate.den

-- new TokenBucket: `none` is the error for a capacity of 0.
unfoldable pub new_bucket : ℕ → Fraction → Option ℕ → ℕ → Option TokenBucket
new_bucket capacity rate initial_tokens now =
    if capacity == 0
    then none
    else some (record {
      capacity = capacity;
      rate = rate;
      tokens = min (get_or initial_tokens capacity) capacity * rate.den;
      last_refill = now;
    })

unfoldable pub refill : ℕ → TokenBucket → TokenBucket
refill now b = if leb now b.last_refill then b else record b {
  tokens = min (budget b) (b.tokens + (now - b.last_refill) * b.rate.num);
  last_refill = now;
}

unfoldable pub available : ℕ → TokenBucket → ℕ × TokenBucket
unfolding refill
available now b = let b' = refill now b in (b'.tokens, b')

-- The parts that are used, of `budget b`.
unfoldable pub utilization : ℕ → TokenBucket → ℕ × TokenBucket
unfolding available
utilization now b = let (tokens, b') = available now b in (budget b - tokens, b')

unfoldable pub try_consume : ℕ → ℕ → TokenBucket → Bool × TokenBucket
unfolding refill
try_consume now cost b =
    if cost == 0
    then (true, b)
    else let b' = refill now b in
      if leb (price cost b') b'.tokens
      then (true, record b' { tokens = b'.tokens - price cost b' })
      else (false, b')

-- `none` is `Infinity`.
unfoldable pub ms_until_available : ℕ → ℕ → TokenBucket → Option ℕ × TokenBucket
unfolding refill
ms_until_available now cost b =
    let b' = refill now b in
    if leb (price cost b') b'.tokens
    then (some 0, b')
    else if b'.rate.num == 0
    then (none, b')
    else (some ((price cost b' - b'.tokens + (b'.rate.num - 1)) / b'.rate.num), b')
