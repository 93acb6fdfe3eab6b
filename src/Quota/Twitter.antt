-- ===== src/Quota/Twitter.antt =====
-- connectors/twitter/{credit-tracker,quota-guard,tiers}.ts. The current month `utcMonth(now())` is an
-- argument, and a ratio is a fraction. The alert sink gets a text for each event that is emitted, and
-- is left out, as is a write's metadata, which is never read.
use openzigs_social.Prelude.{
  ℕ, ◌+◌, ◌-◌, ◌*◌, String, Bool, true, false, ◌&&◌, ◌||◌, Option, get_or, List, [], ◌∷◌, ◌++◌, any,
  leb, ◌==◌, str_eq, if◌then◌else◌,
}
use openzigs_social.Sql.{Table, insert}
use openzigs_social.Retry.Backoff.{Fraction}

pub data TwitterTier : Type 0 where
  free basic pro : TwitterTier

abbrev pub default_tier_write_quota : TwitterTier → ℕ
default_tier_write_quota free = 1500
default_tier_write_quota basic = 50000
default_tier_write_quota pro = 1000000

abbrev pub tier_dm_permitted : TwitterTier → Bool
tier_dm_permitted free = false
tier_dm_permitted basic = true
tier_dm_permitted pro = true

unfoldable pub tier_write_quota : TwitterTier → (TwitterTier → Option ℕ) → ℕ
tier_write_quota tier overrides = get_or (overrides tier) (default_tier_write_quota tier)

unfoldable pub is_dm_enabled_for_tier : TwitterTier → Bool → Bool
is_dm_enabled_for_tier tier dm_enabled_flag = dm_enabled_flag && tier_dm_permitted tier

pub data TwitterCreditKind : Type 0 where
  tweet reply dm : TwitterCreditKind

pub record CreditRow : Type 0 where
  pub id : ℕ
  pub usage_month : String
  pub kind : TwitterCreditKind
  pub amount : ℕ
  pub dedupe_key : String

pub record RecordCreditInput : Type 0 where
  pub kind : TwitterCreditKind
  pub dedupe_key : String
  pub amount : Option ℕ
  pub month : Option String

pub record CreditSummary : Type 0 where
  pub month : String
  pub used : ℕ
  pub cap : ℕ
  pub remaining : ℕ
  pub ratio : Fraction

abbrev pub CreditTable : Type 0
CreditTable = Table CreditRow

-- INSERT OR IGNORE, with UNIQUE (dedupe_key); `true` for `changes > 0`.
unfoldable pub record_credit : String → RecordCreditInput → CreditTable → Bool × CreditTable
record_credit this_month input t =
    if any (λ r. str_eq r.dedupe_key input.dedupe_key) t.rows then (false, t) else (
      true,
      insert
          (λ id. record {
            id = id;
            usage_month = get_or input.month this_month;
            kind = input.kind;
            amount = get_or input.amount 1;
            dedupe_key = input.dedupe_key;
          })
          t,
    )

-- COALESCE(SUM(amount), 0) … WHERE usage_month = ?
unfoldable pub sum_month : String → List CreditRow → ℕ
sum_month month [] = 0
sum_month month (r ∷ rows) =
    (if str_eq r.usage_month month then r.amount else 0) + sum_month month rows

unfoldable pub used_this_month : String → CreditTable → ℕ
used_this_month month t = sum_month month t.rows

-- `cap > 0 ? Math.min(1, used / cap) : 1`
abbrev pub ratio_of : ℕ → ℕ → Fraction
ratio_of used cap =
    if cap == 0 || leb cap used
    then record { num = 1; den = 1 }
    else record { num = used; den = cap }

unfoldable pub summary_of : ℕ → String → CreditTable → CreditSummary
summary_of cap month t =
    let used = used_this_month month t in
    record {
      month = month;
      used = used;
      cap = cap;
      remaining = cap - used;
      ratio = ratio_of used cap;
    }

pub data QuotaLevel : Type 0 where
  warning exceeded : QuotaLevel

pub record TwitterQuotaGuard : Type 0 where
  pub tracker : CreditTable
  pub cap : ℕ
  pub warn_threshold : Fraction
  pub warned : List String
  pub blocked : List String
  pub emitted : List (QuotaLevel × CreditSummary)

abbrev pub has_month : String → List String → Bool
has_month m ms = any (λ x. str_eq x m) ms

unfoldable pub fire : QuotaLevel → CreditSummary → TwitterQuotaGuard → TwitterQuotaGuard
fire exceeded s g =
    if has_month s.month g.blocked
    then g
    else record g { blocked = s.month ∷ g.blocked; emitted = g.emitted ++ (exceeded, s) ∷ [] }
fire warning s g =
    if has_month s.month g.warned
    then g
    else record g { warned = s.month ∷ g.warned; emitted = g.emitted ++ (warning, s) ∷ [] }

unfoldable pub status : String → TwitterQuotaGuard → CreditSummary
status this_month g = summary_of g.cap this_month g.tracker

-- `true` is the throw of TwitterQuotaExceededError.
unfoldable pub ensure_within_quota : String → TwitterQuotaGuard → Bool × TwitterQuotaGuard
ensure_within_quota this_month g =
    let s = status this_month g in
    if leb s.cap s.used then (true, fire exceeded s g) else (false, g)

-- `a >= b` on fractions.
abbrev pub at_least : Fraction → Fraction → Bool
at_least a b = leb (b.num * a.den) (a.num * b.den)

unfoldable pub react : CreditSummary → TwitterQuotaGuard → TwitterQuotaGuard
react s g =
    if at_least s.ratio (record { num = 1; den = 1 }) || leb s.cap s.used
    then fire exceeded s g
    else if at_least s.ratio g.warn_threshold
    then fire warning s g
    else g

unfoldable pub record_write :
    String → RecordCreditInput → TwitterQuotaGuard → CreditSummary × TwitterQuotaGuard
record_write this_month input g =
    let g' : TwitterQuotaGuard = record g {
      tracker = (record_credit this_month input g.tracker).1;
    } in
    let s = status this_month g' in (s, react s g')

pub data Call : Type 0 where
  ensure_call : (month : String) → Call
  write_call : (month : String) (input : RecordCreditInput) → Call

unfoldable pub step : Call → TwitterQuotaGuard → TwitterQuotaGuard
step (ensure_call month) g = (ensure_within_quota month g).1
step (write_call month input) g = (record_write month input g).1

unfoldable pub run : List Call → TwitterQuotaGuard → TwitterQuotaGuard
run [] g = g
run (c ∷ cs) g = run cs (step c g)
