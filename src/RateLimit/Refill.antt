-- ===== src/RateLimit/Refill.antt =====
-- Lemmas on platform/rate-limit/token-bucket.ts: refills and the tokens that calls take.
use openzigs_social.Prelude.{
  ℕ, ◌+◌, ◌-◌, ◌*◌, ◌≤◌, Option, some, List, [], ◌∷◌, ◌≡◌, refl, ap, ◌∙◌, inl, inr, arith, some_inj,
  leb, ◌==◌, ==_iff, if◌then◌else◌, Bool-cases,
}
use native.Mathlib.Nat.{mul-le-mul_right}
use openzigs_social.Retry.Backoff.{Fraction}
use openzigs_social.RateLimit.Bucket.{TokenBucket, budget, price, new_bucket, refill, try_consume}

-- What a bucket held, and what flowed in since, is enough for what it holds.
pub record IsRefilled (b b' : TokenBucket) (spent : ℕ) : Type 0 where
  pub capacity : b'.capacity ≡ b.capacity
  pub rate : b'.rate ≡ b.rate
  pub time : b.last_refill ≤ b'.last_refill
  pub flow :
      b'.tokens + spent * b.rate.den ≤ b.tokens + (b'.last_refill - b.last_refill) * b.rate.num
  pub bound : b.tokens ≤ budget b → b'.tokens ≤ budget b

pub refill-IsRefilled : (now : ℕ) (b : TokenBucket) → IsRefilled b (refill now b) 0
unfolding refill
refill-IsRefilled now b = elim (Bool-cases (leb now b.last_refill)) [
  | inl old ↦ rw old (record {
    capacity = refl;
    rate = refl;
    time = omega arith;
    flow = omega arith;
    bound = λ h. h;
  })
  | inr new ↦ rw new (record {
    capacity = refl;
    rate = refl;
    time = ground arith;
    flow = omega arith;
    bound = λ h. omega arith;
  })
]

spend-IsRefilled :
    (cost : ℕ) (b b' : TokenBucket)
    → IsRefilled b b' 0
    → price cost b' ≤ b'.tokens
    → IsRefilled b (record b' { tokens = b'.tokens - price cost b' }) cost
spend-IsRefilled cost b b' r enough = record {
  capacity = r.capacity;
  rate = r.rate;
  time = r.time;
  flow = omega (arith, r.flow, enough, ap (λ x. cost * x.den) r.rate);
  bound = λ h. omega (arith, r.bound h);
}

dist : (a b n : ℕ) → (a + b) * n ≡ a * n + b * n
dist a b n = omega arith

spans : (l l' l'' n : ℕ) → l ≤ l' → l' ≤ l'' → (l'' - l) * n ≡ (l' - l) * n + (l'' - l') * n
spans l l' l'' n h h' = ap (λ x. x * n) (omega arith) ∙ dist (l' - l) (l'' - l') n

IsRefilled-trans :
    (b b' b'' : TokenBucket) (s s' : ℕ)
    → IsRefilled b b' s
    → IsRefilled b' b'' s'
    → IsRefilled b b'' (s + s')
IsRefilled-trans b b' b'' s s' r r' = record {
  capacity = r'.capacity ∙ r.capacity;
  rate = r'.rate ∙ r.rate;
  time = omega (arith, r.time, r'.time);
  flow = omega (
    arith,
    r.flow,
    r'.flow,
    r.time,
    r'.time,
    ap (λ x. s' * x.den) r.rate,
    ap (λ x. (b''.last_refill - b'.last_refill) * x.num) r.rate,
    spans b.last_refill b'.last_refill b''.last_refill b.rate.num r.time r'.time,
  );
  bound = λ h.
      let same : budget b' ≡ budget b =
        ap (λ c. c * b'.rate.den) r.capacity ∙ ap (λ x. b.capacity * x.den) r.rate in
      omega (arith, same, r.bound h, r'.bound (omega (arith, same, r.bound h)));
}

-- What a sequence of calls of `tryConsume` granted, and the bucket after them.
unfoldable pub consume_all : List (ℕ × ℕ) → TokenBucket → ℕ × TokenBucket
consume_all [] b = (0, b)
consume_all ((now, cost) ∷ calls) b =
    let (granted, b') = try_consume now cost b in
    let (total, b'') = consume_all calls b' in ((if granted then cost else 0) + total, b'')

pub try_consume-IsRefilled :
    (now cost : ℕ) (b : TokenBucket)
    → let (granted, b') = try_consume now cost b in IsRefilled b b' (if granted then cost else 0)
unfolding try_consume
try_consume-IsRefilled now cost b =
    let b' = refill now b in
    elim (Bool-cases (cost == 0)) [
      | inl free ↦ rw free (record {
        capacity = refl;
        rate = refl;
        time = omega arith;
        flow = omega (arith, ap (λ x. x * b.rate.den) ((==_iff cost 0).0 free));
        bound = λ h. h;
      })
      | inr paid ↦ elim (Bool-cases (leb (price cost b') b'.tokens)) [
        | inl enough ↦
            rw (paid, enough) (spend-IsRefilled cost b b' (refill-IsRefilled now b) (ground arith))
        | inr short ↦ rw (paid, short) (refill-IsRefilled now b)
      ]
    ]

pub consume_all-IsRefilled :
    (calls : List (ℕ × ℕ)) (b : TokenBucket)
    → let (total, b') = consume_all calls b in IsRefilled b b' total
unfolding consume_all
consume_all-IsRefilled [] b = record {
  capacity = refl;
  rate = refl;
  time = omega arith;
  flow = omega arith;
  bound = λ h. h;
}
consume_all-IsRefilled ((now, cost) ∷ calls) b =
    let (granted, b') = try_consume now cost b in
    IsRefilled-trans b b' _ _ _ (try_consume-IsRefilled now cost b)
      (consume_all-IsRefilled calls b')

pub record IsNew (c : ℕ) (f : Fraction) (now : ℕ) (b : TokenBucket) : Type 0 where
  pub capacity : b.capacity ≡ c
  pub rate : b.rate ≡ f
  pub time : b.last_refill ≡ now
  pub tokens : b.tokens ≤ c * f.den

pub new_bucket-IsNew :
    (capacity now : ℕ) (rate : Fraction) (initial : Option ℕ) (b : TokenBucket)
    → new_bucket capacity rate initial now ≡ some b
    → IsNew capacity rate now b
unfolding new_bucket
new_bucket-IsNew capacity now rate initial b new = elim (Bool-cases (capacity == 0)) [
  | inl z ↦ cc (rw z at new)
  | inr s ↦ rw (← some_inj (rw s at new)) (record {
    capacity = refl;
    rate = refl;
    time = refl;
    tokens = mul-le-mul_right rate.den (omega arith);
  })
]

-- For a bucket that was just made, any sequence of calls of `tryConsume`, at times in any order,
-- is granted at most the capacity and what the rate gives for the time from the making to the
-- last refill, and the bucket never holds more than its capacity.
pub consume_all-le :
    (calls : List (ℕ × ℕ)) (capacity now : ℕ) (rate : Fraction) (initial : Option ℕ)
    (b : TokenBucket)
    → new_bucket capacity rate initial now ≡ some b
    → let (total, b') = consume_all calls b in
      (total * rate.den ≤ capacity * rate.den + (b'.last_refill - now) * rate.num)
      × (b'.tokens ≤ capacity * rate.den)
consume_all-le calls capacity now rate initial b new =
    let (total, b') = consume_all calls b in
    let n = new_bucket-IsNew capacity now rate initial b new in
    let r = consume_all-IsRefilled calls b in
    let same : budget b ≡ capacity * rate.den =
      ap (λ c. c * b.rate.den) n.capacity ∙ ap (λ x. capacity * x.den) n.rate in
    (
      omega (
        arith,
        r.flow,
        n.tokens,
        ap (λ x. total * x.den) n.rate,
        ap (λ x. (b'.last_refill - b.last_refill) * x.num) n.rate,
        ap (λ x. (b'.last_refill - x) * rate.num) n.time,
      ),
      omega (arith, same, r.bound (omega (arith, same, n.tokens))),
    )
