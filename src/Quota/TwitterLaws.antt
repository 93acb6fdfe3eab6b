-- ===== src/Quota/TwitterLaws.antt =====
-- Lemmas on connectors/twitter/credit-tracker.ts and quota-guard.ts.
use openzigs_social.Prelude.{
  ℕ, suc, ◌+◌, ◌≤◌, String, Bool, true, false, ◌&&◌, ◌||◌, get_or, List, [], ◌∷◌, ◌++◌, any, ◌≡◌,
  refl, ap, sym, ◌∙◌, ◌⊎◌, ◌<◌, inl, inr, arith, leb, str_eq, eq_iff, if◌then◌else◌, Bool-cases,
}
use openzigs_social.Sql.{insert}
use openzigs_social.Retry.Backoff.{Fraction}
use openzigs_social.Quota.Twitter.{
  CreditRow, RecordCreditInput, CreditSummary, CreditTable, record_credit, used_this_month,
  summary_of, QuotaLevel, warning, exceeded, TwitterQuotaGuard, has_month, fire, status,
  ensure_within_quota, at_least, react, record_write, Call, ensure_call, write_call, step, run,
}

any-snoc :
    (key : String) (rows : List CreditRow) (r : CreditRow)
    → any (λ x. str_eq x.dedupe_key key) (rows ++ r ∷ [])
      ≡ (any (λ x. str_eq x.dedupe_key key) rows || str_eq r.dedupe_key key)
any-snoc key [] r = ground arith
any-snoc key (x ∷ rows) r = ground (arith, any-snoc key rows r)

-- After a write was recorded or found recorded, recording another with the same key returns
-- false and changes nothing, whatever its month and amount.
record_credit_once :
    (month month' : String) (input input' : RecordCreditInput) (t : CreditTable)
    → input.dedupe_key ≡ input'.dedupe_key
    → let t' = (record_credit month input t).1 in record_credit month' input' t' ≡ (false, t')
unfolding record_credit insert
record_credit_once month month' input input' t same =
    let r : CreditRow = record {
      id = suc t.seq;
      usage_month = get_or input.month month;
      kind = input.kind;
      amount = get_or input.amount 1;
      dedupe_key = input.dedupe_key;
    } in
    let there : any (λ x. str_eq x.dedupe_key input'.dedupe_key) (t.rows ++ r ∷ []) ≡ true =
      any-snoc input'.dedupe_key t.rows r
      ∙ ground (arith, (eq_iff input.dedupe_key input'.dedupe_key).1 same) in
    elim (Bool-cases (any (λ r. str_eq r.dedupe_key input.dedupe_key) t.rows)) [
      | inl old ↦
          rw old (rw (ap (λ k. any (λ r. str_eq r.dedupe_key k) t.rows) (sym same) ∙ old) refl)
      | inr new ↦ rw new (rw there refl)
    ]

abbrev pub same_level : QuotaLevel → QuotaLevel → Bool
same_level warning warning = true
same_level exceeded exceeded = true
same_level _ _ = false

-- How many events of a level were emitted for a month.
abbrev pub told : QuotaLevel → String → List (QuotaLevel × CreditSummary) → ℕ
told l m [] = 0
told l m ((k, s) ∷ es) = (if same_level k l && str_eq s.month m then 1 else 0) + told l m es

abbrev pub seen : QuotaLevel → TwitterQuotaGuard → List String
seen warning g = g.warned
seen exceeded g = g.blocked

abbrev pub IsOnce : TwitterQuotaGuard → Type 0
IsOnce g =
    (l : QuotaLevel) (m : String) → told l m g.emitted ≤ (if has_month m (seen l g) then 1 else 0)

told-snoc :
    (l k : QuotaLevel) (m : String) (s : CreditSummary) (es : List (QuotaLevel × CreditSummary))
    → told l m (es ++ (k, s) ∷ [])
      ≡ told l m es + (if same_level k l && str_eq s.month m then 1 else 0)
told-snoc l k m s [] = omega arith
told-snoc l k m s ((k', s') ∷ es) = omega (arith, told-snoc l k m s es)

-- The count after an event whose month was not seen before.
told_first :
    (l : QuotaLevel) (m : String) (s : CreditSummary) (es : List (QuotaLevel × CreditSummary))
    (ms : List String)
    → told l m es ≤ (if has_month m ms then 1 else 0)
    → has_month s.month ms ≡ false
    → told l m (es ++ (l, s) ∷ []) ≤ (if has_month m (s.month ∷ ms) then 1 else 0)
told_first l m s es ms h fresh = elim (Bool-cases (str_eq s.month m)) [
  | inl hit ↦
      let none' : has_month m ms ≡ false =
        ap (λ x. has_month x ms) (sym ((eq_iff s.month m).0 hit)) ∙ fresh in
      rw hit (ground (arith, told-snoc l l m s es, rw none' at h))
  | inr miss ↦
      let same : told l m (es ++ (l, s) ∷ []) ≡ told l m es =
        told-snoc l l m s es ∙ ground (arith, miss) in
      rw (miss, same) h
]

blocked-IsOnce :
    (s : CreditSummary) (g : TwitterQuotaGuard)
    → IsOnce g
    → has_month s.month g.blocked ≡ false
    → IsOnce (record g { blocked = s.month ∷ g.blocked; emitted = g.emitted ++ (exceeded, s) ∷ [] })
blocked-IsOnce s g h new exceeded m = told_first exceeded m s g.emitted g.blocked (h exceeded m) new
blocked-IsOnce s g h new warning m =
    omega (arith, told-snoc warning exceeded m s g.emitted, h warning m)

warned-IsOnce :
    (s : CreditSummary) (g : TwitterQuotaGuard)
    → IsOnce g
    → has_month s.month g.warned ≡ false
    → IsOnce (record g { warned = s.month ∷ g.warned; emitted = g.emitted ++ (warning, s) ∷ [] })
warned-IsOnce s g h new warning m = told_first warning m s g.emitted g.warned (h warning m) new
warned-IsOnce s g h new exceeded m =
    omega (arith, told-snoc exceeded warning m s g.emitted, h exceeded m)

fire-IsOnce :
    (l : QuotaLevel) (s : CreditSummary) (g : TwitterQuotaGuard) → IsOnce g → IsOnce (fire l s g)
unfolding fire
fire-IsOnce exceeded s g h = elim (Bool-cases (has_month s.month g.blocked)) [
  | inl old ↦ rw old h
  | inr new ↦ rw new (blocked-IsOnce s g h new)
]
fire-IsOnce warning s g h = elim (Bool-cases (has_month s.month g.warned)) [
  | inl old ↦ rw old h
  | inr new ↦ rw new (warned-IsOnce s g h new)
]

react-IsOnce : (s : CreditSummary) (g : TwitterQuotaGuard) → IsOnce g → IsOnce (react s g)
unfolding react
react-IsOnce s g h =
    elim (Bool-cases (at_least s.ratio (record { num = 1; den = 1 }) || leb s.cap s.used)) [
      | inl over ↦ rw over (fire-IsOnce exceeded s g h)
      | inr under ↦ elim (Bool-cases (at_least s.ratio g.warn_threshold)) [
        | inl near ↦ rw (under, near) (fire-IsOnce warning s g h)
        | inr far ↦ rw (under, far) h
      ]
    ]

ensure-IsOnce :
    (month : String) (g : TwitterQuotaGuard) → IsOnce g → IsOnce (ensure_within_quota month g).1
unfolding ensure_within_quota
ensure-IsOnce month g h =
    let s = status month g in
    elim (Bool-cases (leb s.cap s.used)) [
      | inl full ↦ rw full (fire-IsOnce exceeded s g h)
      | inr room ↦ rw room h
    ]

tracked-IsOnce :
    (t : CreditTable) (g : TwitterQuotaGuard) → IsOnce g → IsOnce (record g { tracker = t })
tracked-IsOnce t g h warning m = h warning m
tracked-IsOnce t g h exceeded m = h exceeded m

step-IsOnce : (c : Call) (g : TwitterQuotaGuard) → IsOnce g → IsOnce (step c g)
unfolding step record_write
step-IsOnce (ensure_call month) g h = ensure-IsOnce month g h
step-IsOnce (write_call month input) g h =
    react-IsOnce _ (record g { tracker = (record_credit month input g.tracker).1 })
      (tracked-IsOnce (record_credit month input g.tracker).1 g h)

run-IsOnce : (cs : List Call) (g : TwitterQuotaGuard) → IsOnce g → IsOnce (run cs g)
unfolding run
run-IsOnce [] g h = h
run-IsOnce (c ∷ cs) g h = run-IsOnce cs (step c g) (step-IsOnce c g h)

-- A guard that was just made.
abbrev pub new_guard : CreditTable → ℕ → Fraction → TwitterQuotaGuard
new_guard tracker cap warn_threshold = record {
  tracker = tracker;
  cap = cap;
  warn_threshold = warn_threshold;
  warned = [];
  blocked = [];
  emitted = [];
}

-- After any history of calls on a new guard, at most one event of each level was emitted for
-- each month.
pub told-run :
    (cs : List Call) (tracker : CreditTable) (cap : ℕ) (warn : Fraction) (l : QuotaLevel)
    (m : String)
    → told l m (run cs (new_guard tracker cap warn)).emitted ≤ 1
told-run cs tracker cap warn l m =
    ground (arith, run-IsOnce cs (new_guard tracker cap warn) (λ l' m'. omega arith) l m)

-- When a write is refused, and when the guard says that the pool is used up.
pub ensure_within_quota_lem :
    (month : String) (g : TwitterQuotaGuard)
    → (((ensure_within_quota month g).0 ≡ true) × (g.cap ≤ used_this_month month g.tracker))
      ⊎ (((ensure_within_quota month g) ≡ (false, g)) × (used_this_month month g.tracker < g.cap))
unfolding ensure_within_quota status summary_of
ensure_within_quota_lem month g = elim (Bool-cases (leb g.cap (used_this_month month g.tracker))) [
  | inl full ↦ inl (rw full refl, ground (arith, full))
  | inr room ↦ inr (rw room refl, ground (arith, room))
]
