-- ===== src/Quota/Tests.antt =====
-- Writes on X and calls of YouTube.
use openzigs_social.Prelude.{◌+◌, ◌≤◌, String, true, false, none, some, [], ◌∷◌, ◌≡◌, refl, arith}
use openzigs_social.Prelude.Maps.{get}
use openzigs_social.Retry.Backoff.{Fraction}
use openzigs_social.Quota.Twitter
use openzigs_social.Quota.Twitter.{
  tweet, RecordCreditInput, CreditTable, record_credit, used_this_month, warning, ensure_call,
  write_call,
}
use openzigs_social.Quota.TwitterLaws.{told, new_guard, told-run}
use openzigs_social.Quota.Youtube
use openzigs_social.Quota.Youtube.{sent_of, end_alert, record_call, alert_starts, alert_ends, times}
use openzigs_social.Quota.YoutubeLaws.{run-end_alert, start_alert-overlapping}

abbrev input : String → RecordCreditInput
input key = record { kind = tweet; dedupe_key = key; amount = none; month = none }

abbrev no_credits : CreditTable
no_credits = record { rows = []; seq = 0 }

abbrev eighty : Fraction
eighty = record { num = 4; den = 5 }

told-run_example :
    told warning "2026-01"
      (Twitter.run
        (write_call "2026-01" (input "k1")
          ∷ ensure_call "2026-01"
          ∷ write_call "2026-01" (input "k2")
          ∷ [])
        (new_guard no_credits 2 eighty)).emitted
    ≤ 1
told-run_example =
    told-run
      (write_call "2026-01" (input "k1")
        ∷ ensure_call "2026-01"
        ∷ write_call "2026-01" (input "k2")
        ∷ [])
      no_credits 2 eighty warning "2026-01"

abbrev waiting : Youtube.Youtube
waiting = record {
  days = ("2026-01-02", record { quota_units = 9000; alert_sent = false }) ∷ [];
  notified = "2026-01-02" ∷ [];
  awaiting = "2026-01-02" ∷ [];
}

waiting_row :
    get "2026-01-02" waiting.days ≡ some (record { quota_units = 9000; alert_sent = false })
unfolding get
waiting_row = refl

run-end_alert_example :
    times "2026-01-02"
      (Youtube.run
        (alert_starts "2026-01-02" ∷ record_call 100 "2026-01-02" ∷ alert_starts "2026-01-02" ∷ [])
        (end_alert true "2026-01-02" waiting)).notified
    ≡ times "2026-01-02" waiting.notified
run-end_alert_example =
    run-end_alert
      (alert_starts "2026-01-02" ∷ record_call 100 "2026-01-02" ∷ alert_starts "2026-01-02" ∷ [])
      "2026-01-02" waiting (record { quota_units = 9000; alert_sent = false }) refl waiting_row

start_alert-overlapping_example :
    let day : String = "2026-01-02" in
    let y' = Youtube.run (alert_starts day ∷ alert_starts day ∷ []) waiting in
    let y'' = Youtube.run (alert_ends true day ∷ alert_ends true day ∷ []) y' in
    (times day y''.notified ≡ times day waiting.notified + 2) × (sent_of (get day y''.days) ≡ true)
start_alert-overlapping_example =
    start_alert-overlapping "2026-01-02" waiting (record { quota_units = 9000; alert_sent = false })
      waiting_row refl (omega arith)
