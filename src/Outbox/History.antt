-- ===== src/Outbox/History.antt =====
-- Lemmas on outbox/repository.ts: histories of calls.
use openzigs_social.Prelude.{
  ℕ, suc, ◌≤◌, Bool, true, false, none, some, List, [], ◌∷◌, ◌≡◌, refl, ap, sym, ◌∙◌, ◌⊎◌, inl, inr,
  arith, ◌==◌, Option-cases,
}
use mathlib.Core.Option.{some-injective}
use openzigs_social.Sql.{find, insert, delete_where, update_where}
use openzigs_social.Sql.Laws.{
  IsTable, insert-IsTable, delete-IsTable, find-insert_old, find-delete_none, find-le,
}
use openzigs_social.Outbox.Types.{
  OutboxStatus, draft, scheduled, published, OutboxRow, OutboxPost, OutboxCreateInput,
  can_transition, OutboxError, illegal_transition,
}
use openzigs_social.Outbox.Repository.{
  Outbox, row_id, create, update, transition, TransitionOptions, schedule, unschedule, reschedule,
  claim_due, mark_published, mark_failed, retry, delete, new_row, content_row, is_editable,
  moved_row, rescheduled_row, is_movable, published_row, failed_row,
}
use openzigs_social.Outbox.Edit.{
  guarded, guarded_lem, KeepsId, find-edit, edit-IsTable, seq-edit, transition-guarded,
}
use openzigs_social.Outbox.Claim.{find-claim_due}
use openzigs_social.Outbox.Exclusive.{claim_due-IsTable}
use openzigs_social.Outbox.Machine.{
  Call, creates, updates, schedules, unschedules, reschedules, claims, publishes, fails, retries,
  transitions_to, deletes, step, run,
}
use openzigs_social.Outbox.Moves.{IsMove, IsMoved, step-IsMoved}
use openzigs_social.Outbox.Lawful.{IsLawful, step-IsLawful, content_row-KeepsId}

-- What a call does to the table as a whole, on the key `j`.
pub record IsSteady (j : ℕ) (t t' : Outbox) : Type 0 where
  pub table : IsTable row_id t'
  pub seq_grows : t.seq ≤ t'.seq
  pub gone : j ≤ t.seq → find row_id j t.rows ≡ none → find row_id j t'.rows ≡ none

pub create-state :
    (now : ℕ) (input : OutboxCreateInput) (t : Outbox)
    → (create now input t).1 ≡ insert (new_row now input) t
unfolding create
create-state now input t = ground arith

module _ (j : ℕ) (t : Outbox) (w : IsTable row_id t) where
  guarded-IsSteady :
      (k : ℕ) (test : OutboxStatus → Bool) (e : OutboxStatus → OutboxError)
      (f : OutboxPost → OutboxRow → OutboxRow)
      → KeepsId f
      → IsSteady j t (guarded k test e f t).1
  guarded-IsSteady k test e f same = rw (guarded_lem k test e f same t) (record {
    table = edit-IsTable k test f t same w;
    seq_grows = omega (arith, seq-edit k test f t);
    gone = λ _ h. rw (find-edit k j test f t same, h);
  })

  transition-IsSteady :
      (now k : ℕ) (to : OutboxStatus) (opts : TransitionOptions)
      → IsSteady j t (transition now k to opts t).1
  transition-IsSteady now k to opts = rw transition-guarded (
      guarded-IsSteady k (λ s. can_transition s to) (λ s. illegal_transition s to)
        (λ _. moved_row now to opts) (λ p r. refl))

  create-IsSteady : (now : ℕ) (input : OutboxCreateInput) → IsSteady j t (create now input t).1
  unfolding insert new_row
  create-IsSteady now input = rw (create-state now input t) (record {
    table = insert-IsTable row_id (new_row now input) t refl w;
    seq_grows = omega arith;
    gone =
        λ le h. find-insert_old row_id j t.rows (new_row now input (suc t.seq)) (ground arith) ∙ h;
  })

  claim_due-IsSteady : (now limit : ℕ) → IsSteady j t (claim_due now limit t).1
  unfolding claim_due update_where
  claim_due-IsSteady now limit = record {
    table = claim_due-IsTable now limit t w;
    seq_grows = omega arith;
    gone = λ _ h. find-claim_due now limit j t ∙ rw h;
  }

  delete-IsSteady : (k : ℕ) → IsSteady j t (delete k t).1
  unfolding delete delete_where
  delete-IsSteady k = record {
    table = delete-IsTable row_id (λ r. r.id == k) t w;
    seq_grows = omega arith;
    gone = λ _ h. find-delete_none row_id (λ r. r.id == k) j t.rows h;
  }

  step-IsSteady : (now : ℕ) (c : Call) → IsSteady j t (step now c t)
  unfolding step schedule unschedule retry update reschedule mark_published mark_failed
  step-IsSteady now (creates input) = create-IsSteady now input
  step-IsSteady now (updates k patch) =
      guarded-IsSteady k is_editable _ (content_row now patch) (content_row-KeepsId now patch)
  step-IsSteady now (schedules k at) =
      transition-IsSteady now k scheduled
        (record { publish_at = some (some at); clear_error = false })
  step-IsSteady now (unschedules k) =
      transition-IsSteady now k draft (record { publish_at = some none; clear_error = false })
  step-IsSteady now (reschedules k at) =
      guarded-IsSteady k is_movable _ (λ _. rescheduled_row now at) (λ p r. refl)
  step-IsSteady now (claims limit) = claim_due-IsSteady now limit
  step-IsSteady now (publishes k external_id) =
      guarded-IsSteady k _ _ (λ _. published_row now external_id) (λ p r. refl)
  step-IsSteady now (fails k error attempts) =
      guarded-IsSteady k _ _ (λ _. failed_row now error attempts) (λ p r. refl)
  step-IsSteady now (retries k at) =
      transition-IsSteady now k scheduled
        (record { publish_at = some (some at); clear_error = true })
  step-IsSteady now (transitions_to k to opts) = transition-IsSteady now k to opts
  step-IsSteady now (deletes k) = delete-IsSteady k

pub step-IsTable :
    (now : ℕ) (c : Call) (t : Outbox) → IsTable row_id t → IsTable row_id (step now c t)
step-IsTable now c t w = (step-IsSteady 0 t w now c).table

-- Over any history of calls a well-formed table stays well-formed: keys rise along the rows and
-- stay within the sequence.
run-IsTable : (cs : List (ℕ × Call)) (t : Outbox) → IsTable row_id t → IsTable row_id (run cs t)
unfolding run
run-IsTable [] t w = w
run-IsTable ((now, c) ∷ cs) t w = run-IsTable cs (step now c t) (step-IsSteady 0 t w now c).table

run-gone :
    (cs : List (ℕ × Call)) (t : Outbox) (j : ℕ)
    → IsTable row_id t
    → j ≤ t.seq
    → find row_id j t.rows ≡ none
    → find row_id j (run cs t).rows ≡ none
unfolding run
run-gone [] t j w le h = h
run-gone ((now, c) ∷ cs) t j w le h =
    let s = step-IsSteady j t w now c in
    run-gone cs (step now c t) j s.table (omega (arith, s.seq_grows)) (s.gone le h)

-- The statuses of the row `j` under a history: each call leaves its status or makes its own move.
abbrev pub Walk : ℕ → List (ℕ × Call) → OutboxStatus → OutboxStatus → Type 0
Walk j [] from to = to ≡ from
Walk j ((now, c) ∷ cs) from to =
    (s : OutboxStatus) × ((s ≡ from) ⊎ IsMove j c from s) × Walk j cs s to

-- A row before and after a history.
pub record IsLawfulHistory (j : ℕ) (cs : List (ℕ × Call)) (r r' : OutboxRow) : Type 0 where
  pub same_id : r'.id ≡ r.id
  pub same_platform : r'.platform ≡ r.platform
  pub same_created_at : r'.created_at ≡ r.created_at
  pub walked : Walk j cs r.status r'.status
  pub terminal : r.status ≡ published → r' ≡ r

IsLawfulHistory-refl : (j : ℕ) (r : OutboxRow) → IsLawfulHistory j [] r r
IsLawfulHistory-refl j r = record {
  same_id = refl;
  same_platform = refl;
  same_created_at = refl;
  walked = refl;
  terminal = λ _. refl;
}

IsLawfulHistory-cons :
    (j now : ℕ) (c : Call) (cs : List (ℕ × Call)) {r s u : OutboxRow}
    → IsLawful r s
    → IsMoved j c r s
    → IsLawfulHistory j cs s u
    → IsLawfulHistory j ((now, c) ∷ cs) r u
IsLawfulHistory-cons j now c cs {s = s} a m b = record {
  same_id = b.same_id ∙ a.same_id;
  same_platform = b.same_platform ∙ a.same_platform;
  same_created_at = b.same_created_at ∙ a.same_created_at;
  walked = (s.status, m, b.walked);
  terminal = λ p. let e = a.terminal p in b.terminal (ap (λ x. x.status) e ∙ p) ∙ e;
}

-- Over any history of calls of the repository on a well-formed table, a row that is there before
-- and after has its id, platform and creation time of before, each call leaves its status or
-- makes the one move that is the call's (a draft or a failed post is scheduled by `schedule` and
-- `retry`, a failed one by `reschedule`, a scheduled one is taken back by `unschedule` and
-- claimed by `claimDue`, a post that is publishing is published by `markPublished` and failed by
-- `markFailed`, `transition` takes an edge of the lifecycle to its target, and no other call
-- moves a post), and if it was published it is unchanged.
pub run-IsLawfulHistory :
    (cs : List (ℕ × Call)) (t : Outbox) (j : ℕ) (r r' : OutboxRow)
    → IsTable row_id t
    → find row_id j t.rows ≡ some r
    → find row_id j (run cs t).rows ≡ some r'
    → IsLawfulHistory j cs r r'
unfolding run
run-IsLawfulHistory [] t j r r' w h h' =
    rw (some-injective _ _ (sym h' ∙ h)) (IsLawfulHistory-refl j r)
run-IsLawfulHistory ((now, c) ∷ cs) t j r r' w h h' =
    let s = step-IsSteady j t w now c in
    elim (Option-cases (find row_id j (step now c t).rows)) [
      | inl missing ↦
          let le = find-le row_id j t.seq t.rows r w h in
          cc (h', run-gone cs (step now c t) j s.table (omega (arith, s.seq_grows)) missing)
      | inr (x, found) ↦
          IsLawfulHistory-cons j now c cs (step-IsLawful now c t j r x w h found)
            (step-IsMoved now t j r x w h c found)
            (run-IsLawfulHistory cs (step now c t) j x r' s.table found h')
    ]
