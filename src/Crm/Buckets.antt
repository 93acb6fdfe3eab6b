-- ===== src/Crm/Buckets.antt =====
-- Lemmas on crm/lead-score.ts: the bucket of a contact that engages.
use openzigs_social.Prelude.{
  ℕ, ◌+◌, ◌*◌, ◌≤◌, ◌<◌, true, ◌≡◌, refl, inl, inr, arith, ltb, leb_iff, Bool-cases,
}
use native.Mathlib.Nat.{mul-le-mul_left}
use openzigs_social.Retry.Backoff.{Fraction}
use openzigs_social.AutoReply.Decision.{at_least}
use openzigs_social.Crm.LeadScore.{
  LeadScoreInput, Scoring, default_lead_score_weights, ratio, clamp01, top, bucket_for,
  score_sentiment, score_lead, add, times,
}

-- The weighted sum with the default weights, for an engagement of e / e.
enough :
    (e sn sd fn fd : ℕ)
    → sd ≤ 2 * sn
    → 3 * (10 * e * (10 * sd) * (10 * fd))
      ≤ ((7 * e * (10 * sd) + 1 * sn * (10 * e)) * (10 * fd) + 2 * fn * (10 * e * (10 * sd))) * 4
enough e sn sd fn fd h =
    let h' : (e * fd) * sd ≤ (e * fd) * (2 * sn) = mul-le-mul_left (e * fd) h in grind arith

abbrev score_of : Fraction → Fraction → Fraction → Fraction
score_of e s f = add (add (times (ratio 7 10) e) (times (ratio 1 10) s)) (times (ratio 2 10) f)

clamp01-top :
    (f : Fraction) → at_least f (ratio 3 4) ≡ true → at_least (clamp01 f) (ratio 3 4) ≡ true
clamp01-top f h = ground (arith, h)

clamp01-full : (n : ℕ) → 30 ≤ n → (e : ℕ) × (clamp01 (ratio n 30) ≡ ratio e e) × (0 < e)
clamp01-full n h = elim (Bool-cases (ltb 30 n)) [
  | inl more ↦ (1, rw more refl, omega arith)
  | inr same ↦ (30, rw same (let e : n ≡ 30 = ground arith in rw e refl), omega arith)
]

module _ (js : Scoring) (input : LeadScoreInput) (engaged : 30 ≤ input.engagement_count) where
  -- With the default weights, a contact with at least 30 engagements whose sentiment is at least
  -- one half is in the top bucket, whatever its audience.
  pub score_lead-top :
      at_least (score_sentiment js input.recent_messages) (ratio 1 2) ≡ true
      → (score_lead js input default_lead_score_weights).bucket ≡ top
  unfolding score_lead bucket_for
  score_lead-top neutral =
      let (e, full, positive) = clamp01-full input.engagement_count engaged in
      let s = score_sentiment js input.recent_messages in
      let f = clamp01 (js.log_ratio input.follower_count 100000) in
      let half : s.den ≤ 2 * s.num = ground (arith, neutral) in
      let sum : at_least (score_of (ratio e e) s f) (ratio 3 4) ≡ true =
        (leb_iff _ _).1 (enough e s.num s.den f.num f.den half) in
      rw full (rw (clamp01-top (score_of (ratio e e) s f) sum) refl)
