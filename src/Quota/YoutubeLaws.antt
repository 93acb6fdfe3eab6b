-- ===== src/Quota/YoutubeLaws.antt =====
-- Lemmas on connectors/youtube/quota.ts: alerts of a day, one after another and overlapping.
use openzigs_social.Prelude.{
  ℕ, ◌+◌, ◌≤◌, String, Bool, true, false, any, some, List, [], ◌∷◌, ◌≡◌, refl, ap, ◌∙◌, inl, inr,
  arith, str_eq, eq_iff, Bool-cases, Option-cases,
}
use mathlib.Core.Bool.{and-false}
use openzigs_social.Prelude.Maps.{get, get-set}
use openzigs_social.Quota.Youtube.{
  DayUsage, Youtube, sent_of, get_quota_usage, record_quota_usage, mark_sent, passes, start_alert,
  end_alert, Call, record_call, alert_starts, alert_ends, step, run, times,
}

sent_of-mark_sent :
    (day other : String) (days : List (String × DayUsage))
    → sent_of (get other days) ≡ true
    → sent_of (get other (mark_sent day days)) ≡ true
unfolding mark_sent
sent_of-mark_sent day other days h = elim (Option-cases (get day days)) [
  | inl none' ↦ rw (none', mark_sent) h
  | inr (u, here) ↦ elim (Bool-cases (str_eq day other)) [
    | inl hit ↦ rw (here, mark_sent) (rw (get-set, hit) refl)
    | inr miss ↦ rw (here, mark_sent) (rw (get-set, miss) h)
  ]
]

record-sent :
    (units : ℕ) (day other : String) (y : Youtube)
    → sent_of (get other y.days) ≡ true
    → sent_of (get other (record_quota_usage units day y).days) ≡ true
unfolding record_quota_usage
record-sent units day other y h = elim (Bool-cases (str_eq day other)) [
  | inl hit ↦ rw (get-set, hit) (rw (ap (λ d. get d y.days) ((eq_iff day other).0 hit)) h)
  | inr miss ↦ rw (get-set, miss) h
]

end-sent :
    (resolved : Bool) (day other : String) (y : Youtube)
    → sent_of (get other y.days) ≡ true
    → sent_of (get other (end_alert resolved day y).days) ≡ true
unfolding end_alert
end-sent resolved day other y h = elim (Bool-cases (any (λ d. str_eq d day) y.awaiting)) [
  | inr idle ↦ rw idle h
  | inl waits ↦ rw waits (elim (Bool-cases resolved) [
    | inl yes' ↦ rw yes' (sent_of-mark_sent day other y.days h)
    | inr no' ↦ rw no' h
  ])
]

end-notified :
    (resolved : Bool) (day : String) (y : Youtube)
    → (end_alert resolved day y).notified ≡ y.notified
unfolding end_alert
end-notified resolved day y = elim (Bool-cases (any (λ d. str_eq d day) y.awaiting)) [
  | inl waits ↦ rw waits refl
  | inr idle ↦ rw idle refl
]

start-days : (day : String) (y : Youtube) → (start_alert day y).days ≡ y.days
unfolding start_alert
start-days day y = elim (Bool-cases (passes day y)) [ inl on ↦ rw on refl | inr off ↦ rw off refl ]

passes-sent : (day : String) (y : Youtube) → sent_of (get day y.days) ≡ true → passes day y ≡ false
unfolding passes
passes-sent day y h = rw h (and-false _)

start-times :
    (day other : String) (y : Youtube)
    → sent_of (get other y.days) ≡ true
    → times other (start_alert day y).notified ≡ times other y.notified
unfolding start_alert
start-times day other y h = elim (Bool-cases (passes day y)) [
  | inr off ↦ rw off refl
  | inl on ↦ elim (Bool-cases (str_eq day other)) [
    | inl hit ↦
        let sent : sent_of (get day y.days) ≡ true =
          ap (λ d. sent_of (get d y.days)) ((eq_iff day other).0 hit) ∙ h in
        cc (on, passes-sent day y sent)
    | inr miss ↦ rw on (rw miss (omega arith))
  ]
]

run-sent :
    (cs : List Call) (day : String) (y : Youtube)
    → sent_of (get day y.days) ≡ true
    → times day (run cs y).notified ≡ times day y.notified
unfolding run step record_quota_usage
run-sent [] day y h = refl
run-sent (record_call units d ∷ cs) day y h =
    run-sent cs day (record_quota_usage units d y) (record-sent units d day y h)
run-sent (alert_starts d ∷ cs) day y h =
    run-sent cs day (start_alert d y) (ap (λ ds. sent_of (get day ds)) (start-days d y) ∙ h)
    ∙ start-times d day y h
run-sent (alert_ends resolved d ∷ cs) day y h =
    run-sent cs day (end_alert resolved d y) (end-sent resolved d day y h)
    ∙ ap (times day) (end-notified resolved d y)

end-marks :
    (day : String) (y : Youtube) (u : DayUsage)
    → any (λ d. str_eq d day) y.awaiting ≡ true
    → get day y.days ≡ some u
    → sent_of (get day (end_alert true day y).days) ≡ true
unfolding end_alert mark_sent
end-marks day y u waits here =
    rw waits
      (rw (here, mark_sent) (rw (get-set day day _ y.days) (rw ((eq_iff day day).1 refl) refl)))

-- If a call of the alert awaits its notifier for a day that has a row, and the notifier
-- resolves, then no later history of usage records, alerts and resolved or rejected notifiers,
-- overlapping ones included, notifies for that day again.
pub run-end_alert :
    (cs : List Call) (day : String) (y : Youtube) (u : DayUsage)
    → any (λ d. str_eq d day) y.awaiting ≡ true
    → get day y.days ≡ some u
    → times day (run cs (end_alert true day y)).notified ≡ times day y.notified
run-end_alert cs day y u waits here =
    run-sent cs day (end_alert true day y) (end-marks day y u waits here)
    ∙ ap (times day) (end-notified true day y)

start-passes :
    (day : String) (y : Youtube) (u : DayUsage)
    → get day y.days ≡ some u
    → u.alert_sent ≡ false
    → 8000 ≤ u.quota_units
    → passes day y ≡ true
unfolding passes get_quota_usage
start-passes day y u here unsent high = rw here (rw unsent (ground arith))

start-both :
    (day : String) (y : Youtube)
    → passes day y ≡ true
    → let y' = run (alert_starts day ∷ alert_starts day ∷ []) y in
      (y'.notified ≡ day ∷ day ∷ y.notified)
      × (get day y'.days ≡ get day y.days)
      × (any (λ d. str_eq d day) y'.awaiting ≡ any (λ d. str_eq d day) (day ∷ day ∷ y.awaiting))
unfolding run step start_alert passes get_quota_usage
start-both day y on = rw on (rw on (refl, refl, refl))

-- If a day has used at least 8000 units and no alert of it was delivered, two calls of the alert
-- that start before either notifier resolves notify twice, and the day is marked as alerted only
-- when they end.
pub start_alert-overlapping :
    (day : String) (y : Youtube) (u : DayUsage)
    → get day y.days ≡ some u
    → u.alert_sent ≡ false
    → 8000 ≤ u.quota_units
    → let y' = run (alert_starts day ∷ alert_starts day ∷ []) y in
      let y'' = run (alert_ends true day ∷ alert_ends true day ∷ []) y' in
      (times day y''.notified ≡ times day y.notified + 2) × (sent_of (get day y''.days) ≡ true)
unfolding run step start_alert
start_alert-overlapping day y u here unsent high =
    let on : passes day y ≡ true = start-passes day y u here unsent high in
    let y' = run (alert_starts day ∷ alert_starts day ∷ []) y in
    let own : str_eq day day ≡ true = (eq_iff day day).1 refl in
    let started = start-both day y on in
    (
      ap (times day)
            (end-notified true day (end_alert true day y') ∙ end-notified true day y' ∙ started.0)
          ∙ rw own (omega arith),
      end-sent true day day (end_alert true day y')
          (end-marks day y' u (started.2 ∙ rw own refl) (started.1 ∙ here)),
    )
