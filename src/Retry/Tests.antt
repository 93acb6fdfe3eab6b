-- ===== src/Retry/Tests.antt =====
-- Retries of an operation that fails twice.
use openzigs_social.Prelude.{ℕ, zero, suc, ◌*◌, String, true, Option, [], ◌∷◌, ◌≡◌, refl, arith}
use openzigs_social.Effects.{Result, ok, err}
use openzigs_social.Sql.{Table}
use openzigs_social.Sql.Laws.{IsTable}
use openzigs_social.Retry.Backoff.{
  default_params, raw_delay, jitter, compute_backoff_ms, value, retry, retry_from,
}
use openzigs_social.Retry.Dlq.{DlqEntry, entry_id, DispatchOp, dispatch_with_dlq}
use openzigs_social.Retry.Landing.{IsDispatched, dispatch_with_dlq_lem}
use openzigs_social.Retry.Laws.{IsRun, retry-IsRun}

abbrev third_time : ℕ → Result ℕ String
third_time zero = err 0
third_time (suc zero) = err 1
third_time (suc (suc zero)) = err 2
third_time (suc (suc (suc n))) = ok "sent"

abbrev pause : ℕ → ℕ
pause attempt = 100 * attempt

third_time_sends :
    retry (λ e. true) pause third_time 5
    ≡ record { ending = value "sent"; calls = 3; delays = 100 ∷ 200 ∷ [] }
unfolding retry retry_from
third_time_sends = refl

retry-IsRun_example : IsRun (λ e. true) pause third_time 1 5 (retry (λ e. true) pause third_time 5)
retry-IsRun_example = retry-IsRun (λ e. true) pause third_time 5 (omega arith)

third_delay : compute_backoff_ms 3 default_params (record { num = 1; den = 2 }) ≡ 4000
unfolding compute_backoff_ms raw_delay jitter
third_delay = refl

abbrev no_letters : Table (DlqEntry String)
no_letters = record { rows = []; seq = 4 }

no_letters-IsTable : IsTable entry_id no_letters
no_letters-IsTable = omega arith

abbrev op : DispatchOp String
op = record { platform = "twitter"; op_kind = "reply"; payload = "hi" }

abbrev message : Option ℕ → String
message e = "failed"

dispatch_with_dlq_lem_example :
    let r = retry (λ e. true) pause third_time 2 in
    let (o, t') = dispatch_with_dlq message (λ e. true) pause third_time 100 op 2 no_letters in
    IsDispatched message (λ e. true) pause third_time 100 op r.calls r.ending no_letters o t'
dispatch_with_dlq_lem_example =
    dispatch_with_dlq_lem message (λ e. true) pause third_time 100 op 2 no_letters
      no_letters-IsTable
