-- ===== src/AutoReply/Retention.antt =====
-- routing/retention-scheduler.ts: the cron driver of the prune. The prune is synchronous, so that a tick
-- is one step. A cutoff before the epoch stands for 0, which no row is before either.
use openzigs_social.Prelude.{
  ℕ, ◌+◌, ◌*◌, ◌-◌, ◌≤◌, ◌<◌, Bool, true, false, none, some, ltb, ◌≡◌, ◌⊎◌, if◌then◌else◌, length,
}
use openzigs_social.Sql.{find}
use openzigs_social.Sql.Laws.{IsTable}
use openzigs_social.AutoReply.Audit.{AuditRow, AuditTable, AuditPruneInput, row_id, prune}

abbrev pub day_ms : ℕ
day_ms = 24 * 60 * 60 * 1000

unfoldable pub retention_bounds : (now max_age_days max_rows : ℕ) → AuditPruneInput
retention_bounds now max_age_days max_rows = record {
  older_than = if ltb 0 max_age_days then some (now - max_age_days * day_ms) else none;
  max_rows = if ltb 0 max_rows then some max_rows else none;
}

pub record RetentionScheduler : Type 0 where
  pub audit : AuditTable
  pub max_age_days : ℕ
  pub max_rows : ℕ
  pub task : Bool
  pub running : Bool

unfoldable pub start : RetentionScheduler → RetentionScheduler
start s = if s.task then s else record s { task = true }

unfoldable pub stop : RetentionScheduler → RetentionScheduler
stop s = record s { task = false }

unfoldable pub run_tick : ℕ → RetentionScheduler → RetentionScheduler
unfolding retention_bounds prune
run_tick now s = if s.running then s else record s {
  running = false;
  audit = (prune (retention_bounds now s.max_age_days s.max_rows) s.audit).1;
}

-- What a tick leaves of a table, by the days and the number of rows to keep; 0 stands for no bound.
pub record IsKept (now days most : ℕ) (t t' : AuditTable) : Type 0 where
  pub table : IsTable row_id t'
  pub capped : 0 < most → length t'.rows ≤ most
  pub fresh :
      (j : ℕ) (r : AuditRow)
      → find row_id j t'.rows ≡ some r
      → 0 < days
      → now ≤ r.created_at + days * 86400000
  pub old : (j : ℕ) (r : AuditRow) → find row_id j t'.rows ≡ some r → find row_id j t.rows ≡ some r
  pub kept :
      (j : ℕ) (r : AuditRow)
      → find row_id j t.rows ≡ some r
      → (find row_id j t'.rows ≡ some r)
        ⊎ (((0 < days) × (r.created_at + days * 86400000 < now))
            ⊎ ((0 < most)
                × ((i : ℕ) (s : AuditRow)
                    → find row_id i t'.rows ≡ some s
                    → r.created_at ≤ s.created_at)))
