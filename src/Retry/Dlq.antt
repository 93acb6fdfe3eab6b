-- ===== src/Retry/Dlq.antt =====
-- platform/retry/dlq.ts and `dispatchWithDlq`: the dead-letter table. A payload stands for its JSON
-- text, and the time of a row is the reading that SQLite makes.
use openzigs_social.Prelude.{
  ℕ, String, Bool, Option, none, some, get_or, List, str_eq, keep, take, drop,
}
use mathlib.Core.List.{reverse}
use mathlib.Core.Option
use openzigs_social.Effects.{Result}
use openzigs_social.Sql.{Table, insert, find}
use openzigs_social.Retry.Backoff.{Ending, value, exhausted, retry}

pub record DlqInput (P : Type 0) : Type 0 where
  pub platform : String
  pub op_kind : String
  pub payload : P
  pub last_error : String
  pub attempts : ℕ

pub record DlqEntry (P : Type 0) : Type 0 where
  pub id : ℕ
  pub platform : String
  pub op_kind : String
  pub payload_json : P
  pub last_error : String
  pub attempts : ℕ
  pub created_at : ℕ

module _ {P : Type 0} where
  abbrev pub entry_id : DlqEntry P → ℕ
  entry_id e = e.id

  unfoldable pub to_entry : ℕ → DlqInput P → ℕ → DlqEntry P
  to_entry now input k = record {
    id = k;
    platform = input.platform;
    op_kind = input.op_kind;
    payload_json = input.payload;
    last_error = input.last_error;
    attempts = input.attempts;
    created_at = now;
  }

  unfoldable pub land :
      ℕ → DlqInput P → Table (DlqEntry P) → Option (DlqEntry P) × Table (DlqEntry P)
  unfolding insert to_entry
  land now input t = let t' = insert (to_entry now input) t in (find entry_id t'.seq t'.rows, t')

  unfoldable pub get : ℕ → Table (DlqEntry P) → Option (DlqEntry P)
  get k t = find entry_id k t.rows

  -- ORDER BY id DESC, of one platform or of all
  unfoldable pub list : Option String → Option ℕ → Option ℕ → Table (DlqEntry P) → List (DlqEntry P)
  list platform limit offset t = take (get_or limit 100) (
      drop (get_or offset 0) (
        reverse
          (elim platform [ none ↦ t.rows | some p ↦ keep (λ e. str_eq e.platform p) t.rows ])))

pub record DispatchOp (P : Type 0) : Type 0 where
  pub platform : String
  pub op_kind : String
  pub payload : P

-- `dlq_id` is the id of the row that `land` read back.
pub data DispatchOutcome (E T : Type 0) : Type 0 where
  done : (v : T) (attempts : ℕ) → DispatchOutcome E T
  dead : (attempts : ℕ) (error : Option E) (dlq_id : Option ℕ) → DispatchOutcome E T

-- `run` is the operation, by the number of the attempt, and `message` gives the text of an error.
module _ {P E T : Type 0} (message : Option E → String) (is_transient : E → Bool) (delay : ℕ → ℕ)
    (run : ℕ → Result E T) where
  -- The handler of the `catch`.
  unfoldable pub bury :
      ℕ
      → DispatchOp P
      → ℕ
      → Option E
      → Table (DlqEntry P)
      → DispatchOutcome E T × Table (DlqEntry P)
  bury now op calls e t =
      let (entry, t') =
        land now
          (record {
            platform = op.platform;
            op_kind = op.op_kind;
            payload = op.payload;
            last_error = message e;
            attempts = calls;
          })
          t in
      (dead calls e (Option.map entry_id entry), t')

  -- What follows the `retry`: its value, or the handler with its last error.
  unfoldable pub conclude :
      ℕ
      → DispatchOp P
      → ℕ
      → Ending E T
      → Table (DlqEntry P)
      → DispatchOutcome E T × Table (DlqEntry P)
  conclude now op calls (value v) t = (done v calls, t)
  conclude now op calls (exhausted attempts e) t = bury now op calls e t

  unfoldable pub dispatch_with_dlq :
      ℕ → DispatchOp P → ℕ → Table (DlqEntry P) → DispatchOutcome E T × Table (DlqEntry P)
  unfolding retry conclude
  dispatch_with_dlq now op max_attempts t =
      let r = retry is_transient delay run max_attempts in conclude now op r.calls r.ending t
