-- ===== src/Retry/Landing.antt =====
-- Lemmas on platform/retry/dlq.ts and `dispatchWithDlq` of platform/retry/backoff.ts.
use openzigs_social.Prelude.{ℕ, suc, String, Bool, Option, some, ◌≡◌, refl, arith, ◌≢◌}
use openzigs_social.Effects.{Result}
use openzigs_social.Sql.{Table, insert, find}
use openzigs_social.Sql.Laws.{IsTable, insert-IsTable, find-insert_new, find-insert_old}
use openzigs_social.Retry.Backoff.{Ending, value, exhausted, retry}
use openzigs_social.Retry.Dlq.{
  DlqInput, DlqEntry, entry_id, to_entry, land, DispatchOp, DispatchOutcome, done, dead, bury,
  conclude, dispatch_with_dlq,
}

abbrev pub Dlq : Type 0 → Type 0
Dlq P = Table (DlqEntry P)

to_entry-id :
    {P : Type 0} (now : ℕ) (input : DlqInput P) {k : ℕ} → entry_id (to_entry now input k) ≡ k
unfolding to_entry
to_entry-id now input = refl

-- On a well-formed dead-letter table, the row that `land` writes comes back under the next key,
-- the table stays well-formed, and what any other key finds is unchanged.
pub land_lem :
    {P : Type 0} (now : ℕ) (input : DlqInput P) (t : Dlq P)
    → IsTable entry_id t
    → (land now input t ≡ (some (to_entry now input (suc t.seq)), insert (to_entry now input) t))
      × IsTable entry_id (insert (to_entry now input) t)
      × ((k : ℕ)
          → k ≢ suc t.seq
          → find entry_id k (insert (to_entry now input) t).rows ≡ find entry_id k t.rows)
unfolding land insert
land_lem now input t w = (
  rw (find-insert_new entry_id (to_entry now input) 0 t.seq t.rows (to_entry-id now input) w),
  insert-IsTable entry_id (to_entry now input) t (to_entry-id now input) w,
  λ k ne.
      find-insert_old entry_id k t.rows (to_entry now input (suc t.seq))
        (rw (to_entry-id now input {k = suc t.seq}) (ground arith)),
)

new_letter :
    {P : Type 0} (now : ℕ) (input : DlqInput P) (t : Dlq P)
    → IsTable entry_id t
    → (entry : DlqEntry P) × (find entry_id (suc t.seq) (insert (to_entry now input) t).rows
        ≡ some entry)
      × (entry.platform ≡ input.platform)
      × (entry.op_kind ≡ input.op_kind)
      × (entry.payload_json ≡ input.payload)
      × (entry.last_error ≡ input.last_error)
      × (entry.attempts ≡ input.attempts)
      × (entry.created_at ≡ now)
unfolding insert to_entry
new_letter now input t w = (
  to_entry now input (suc t.seq),
  find-insert_new entry_id (to_entry now input) 0 t.seq t.rows (to_entry-id now input) w,
  refl,
  refl,
  refl,
  refl,
  refl,
  refl,
)

module _ {P E T : Type 0} (message : Option E → String) (is_transient : E → Bool) (delay : ℕ → ℕ)
    (run : ℕ → Result E T) where
  -- The dead letter that an ending leaves.
  abbrev pub letter : DispatchOp P → ℕ → Option E → DlqInput P
  letter op calls e = record {
    platform = op.platform;
    op_kind = op.op_kind;
    payload = op.payload;
    last_error = message e;
    attempts = calls;
  }

  -- What the outcome and the table must be, by the ending of `retry` and its number of calls.
  abbrev pub expected : ℕ → DispatchOp P → ℕ → Ending E T → Dlq P → DispatchOutcome E T × Dlq P
  expected now op calls (value v) t = (done v calls, t)
  expected now op calls (exhausted n e) t =
      (dead calls e (some (suc t.seq)), insert (to_entry now (letter op calls e)) t)

  conclude_lem :
      (now : ℕ) (op : DispatchOp P) (calls : ℕ) (e : Ending E T) (t : Dlq P)
      → IsTable entry_id t
      → conclude message is_transient delay run now op calls e t ≡ expected now op calls e t
  unfolding conclude bury
  conclude_lem now op calls (value v) t w = refl
  conclude_lem now op calls (exhausted n e) t w =
      rw ((land_lem now (letter op calls e) t w).0, to_entry-id now (letter op calls e))

  pub dispatch_with_dlq-expected :
      (now : ℕ) (op : DispatchOp P) (most : ℕ) (t : Dlq P)
      → IsTable entry_id t
      → dispatch_with_dlq message is_transient delay run now op most t
        ≡ (let r = retry is_transient delay run most in expected now op r.calls r.ending t)
  unfolding dispatch_with_dlq
  dispatch_with_dlq-expected now op most t w =
      let r = retry is_transient delay run most in conclude_lem now op r.calls r.ending t w

  -- The outcome and the table by their columns, for an ending of the retries and a number of calls.
  abbrev pub IsDispatched :
      ℕ → DispatchOp P → ℕ → Ending E T → Dlq P → DispatchOutcome E T → Dlq P → Type 0
  IsDispatched now op calls (value v) t o t' = (o ≡ done v calls) × (t' ≡ t)
  IsDispatched now op calls (exhausted n e) t o t' =
      (o ≡ dead calls e (some (suc t.seq)))
      × IsTable entry_id t'
      × ((entry : DlqEntry P) × (find entry_id (suc t.seq) t'.rows ≡ some entry)
          × (entry.platform ≡ op.platform)
          × (entry.op_kind ≡ op.op_kind)
          × (entry.payload_json ≡ op.payload)
          × (entry.last_error ≡ message e)
          × (entry.attempts ≡ calls)
          × (entry.created_at ≡ now))
      × ((k : ℕ) → k ≢ suc t.seq → find entry_id k t'.rows ≡ find entry_id k t.rows)

  expected-IsDispatched :
      (now : ℕ) (op : DispatchOp P) (calls : ℕ) (e : Ending E T) (t : Dlq P)
      → IsTable entry_id t
      → let (o, t') = expected now op calls e t in IsDispatched now op calls e t o t'
  expected-IsDispatched now op calls (value v) t w = (refl, refl)
  expected-IsDispatched now op calls (exhausted n e) t w =
      let (landed, table, others) = land_lem now (letter op calls e) t w in
      (refl, table, new_letter now (letter op calls e) t w, others)

  -- On a well-formed dead-letter table, `dispatchWithDlq` returns what its retries end in: on a
  -- value the table is left alone; on a terminal failure a row with a new id is found, which
  -- holds the operation's platform, kind and payload, the text of the last error, the number of
  -- calls and the time, its id is returned, every other row is as it was, and the table stays
  -- well-formed.
  pub dispatch_with_dlq_lem :
      (now : ℕ) (op : DispatchOp P) (most : ℕ) (t : Dlq P)
      → IsTable entry_id t
      → let r = retry is_transient delay run most in
        let (o, t') = dispatch_with_dlq message is_transient delay run now op most t in
        IsDispatched now op r.calls r.ending t o t'
  dispatch_with_dlq_lem now op most t w =
      let r = retry is_transient delay run most in
      rw (dispatch_with_dlq-expected now op most t w)
        (expected-IsDispatched now op r.calls r.ending t w)
