-- ===== src/RateLimit/Tests.antt =====
-- A bucket of ten tokens that refills one token each 100 ms, and a broker with a quota of three.
use openzigs_social.Prelude.{ℕ, ◌+◌, ◌-◌, ◌*◌, ◌≤◌, none, some, List, [], ◌∷◌, ◌≡◌, refl}
use openzigs_social.Retry.Backoff.{Fraction}
use openzigs_social.RateLimit.Bucket.{TokenBucket, new_bucket, refill, try_consume}
use openzigs_social.RateLimit.Refill.{consume_all, consume_all-le}

abbrev rate : Fraction
rate = record { num = 1; den = 100 }

abbrev bucket : ℕ → TokenBucket
bucket tokens = record { capacity = 10; rate = rate; tokens = tokens; last_refill = 5 }

made : new_bucket 10 rate none 5 ≡ some (bucket 1000)
unfolding new_bucket
made = refl

abbrev calls : List (ℕ × ℕ)
calls = (5, 8) ∷ (105, 3) ∷ (106, 1) ∷ []

granted_eleven : (consume_all calls (bucket 1000)).0 ≡ 11
unfolding consume_all try_consume refill
granted_eleven = refl

consume_all-le_example :
    let (total, b') = consume_all calls (bucket 1000) in
    (total * 100 ≤ 10 * 100 + (b'.last_refill - 5) * 1) × (b'.tokens ≤ 10 * 100)
consume_all-le_example = consume_all-le calls 10 5 rate none (bucket 1000) made
