-- ===== src/Quota/Youtube.antt =====
-- connectors/youtube/quota.ts. A call of the alert is two halves around its await of the notifier. The table has a row for each day, by the UNIQUE index on `day_utc`; the
-- day is an argument.
use openzigs_social.Prelude.{
  ℕ, ◌+◌, ◌*◌, String, Bool, true, false, ◌&&◌, not, any, Option, none, some, List, [], ◌∷◌, ltb,
  str_eq, if◌then◌else◌,
}
use openzigs_social.Prelude.Maps.{get, set}

abbrev pub read_cost : ℕ
read_cost = 1

abbrev pub write_cost : ℕ
write_cost = 50

abbrev pub youtube_daily_quota : ℕ
youtube_daily_quota = 10000

pub record DayUsage : Type 0 where
  pub quota_units : ℕ
  pub alert_sent : Bool

-- The database, the days that `notify` was called for, and those of the calls that await it.
pub record Youtube : Type 0 where
  pub days : List (String × DayUsage)
  pub notified : List String
  pub awaiting : List String

abbrev pub units_of : Option DayUsage → ℕ
units_of none = 0
units_of (some u) = u.quota_units

abbrev pub sent_of : Option DayUsage → Bool
sent_of none = false
sent_of (some u) = u.alert_sent

-- INSERT … ON CONFLICT(day_utc) DO UPDATE SET quota_units = quota_units + excluded.quota_units
unfoldable pub record_quota_usage : ℕ → String → Youtube → Youtube
record_quota_usage units day y =
    let old = get day y.days in
    record y {
      days =
          set day (record { quota_units = units_of old + units; alert_sent = sent_of old }) y.days;
    }

unfoldable pub get_quota_usage : String → Youtube → ℕ
get_quota_usage day y = units_of (get day y.days)

unfoldable pub is_quota_exhausted : ℕ → String → Youtube → Bool
is_quota_exhausted cost day y = ltb youtube_daily_quota (get_quota_usage day y + cost)

-- UPDATE youtube_quota_usage SET alert_sent = 1 WHERE day_utc = ?
unfoldable pub mark_sent : String → List (String × DayUsage) → List (String × DayUsage)
mark_sent day days = elim (get day days) [
  | none ↦ days
  | some u ↦ set day (record u { alert_sent = true }) days
]

-- A call of `maybeSendQuotaAlert`, with a notifier that is there, up to its await of `notify`; whether
-- it gets there is what `passes` says.
unfoldable pub passes : String → Youtube → Bool
passes day y =
    not (ltb (10 * get_quota_usage day y) (8 * youtube_daily_quota))
    && not (sent_of (get day y.days))

unfoldable pub start_alert : String → Youtube → Youtube
start_alert day y =
    if passes day y
    then record y { notified = day ∷ y.notified; awaiting = day ∷ y.awaiting }
    else y

abbrev pub drop_one : String → List String → List String
drop_one day [] = []
drop_one day (d ∷ ds) = let rest = drop_one day ds in if str_eq d day then ds else d ∷ rest

-- The rest of a call that awaits its `notify`: the UPDATE, or the rejection of `notify`.
unfoldable pub end_alert : Bool → String → Youtube → Youtube
unfolding mark_sent
end_alert resolved day y =
    if any (λ d. str_eq d day) y.awaiting
    then record y {
      days = if resolved then mark_sent day y.days else y.days;
      awaiting = drop_one day y.awaiting;
    }
    else y

pub data Call : Type 0 where
  record_call : (units : ℕ) (day : String) → Call
  alert_starts : (day : String) → Call
  alert_ends : (resolved : Bool) (day : String) → Call

unfoldable pub step : Call → Youtube → Youtube
step (record_call units day) y = record_quota_usage units day y
step (alert_starts day) y = start_alert day y
step (alert_ends resolved day) y = end_alert resolved day y

unfoldable pub run : List Call → Youtube → Youtube
run [] y = y
run (c ∷ cs) y = run cs (step c y)

abbrev pub no_usage : Youtube
no_usage = record { days = []; notified = []; awaiting = [] }

-- How many notifications a day got.
abbrev pub times : String → List String → ℕ
times day [] = 0
times day (d ∷ ds) = (if str_eq d day then 1 else 0) + times day ds
