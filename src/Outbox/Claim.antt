-- ===== src/Outbox/Claim.antt =====
-- Lemmas on outbox/repository.ts: the rows that `claimDue` takes.
use openzigs_social.Prelude.{
  ℕ, ◌≤◌, true, false, some, List, ◌≡◌, refl, ap, sym, ◌∙◌, ◌⊎◌, inl, inr, arith, if◌then◌else◌,
  Memᴰ, All, All-of_mem, All-take, All-mem, keep, mem_of_mem-keep, mem-keep, take, drop,
  take-append-drop, includes, includes-map, includes-map_of_mem, length, length-take, length-map,
  map_same,
}
use mathlib.Core.List.Memᴰ
use mathlib.Core.Option
use mathlib.Core.Option.{some-injective}
use openzigs_social.Sql.{update_where, find}
use openzigs_social.Sql.Laws.{IsTable, find-update_rows, find-key, find-mem, find_of_mem}
use openzigs_social.Sql.Order.{sort_by, sort_by-IsSorted, mem-sort_by, All-sort_by, take-le-drop}
use openzigs_social.Outbox.Types.{OutboxRow}
use openzigs_social.Outbox.Repository.{
  Outbox, row_id, is_due, due_time, due_ids, claim_row, claim_due,
}

module _ (now limit : ℕ) (t : Outbox) (w : IsTable row_id t) where
  candidates : List OutboxRow
  candidates = sort_by due_time (keep (is_due now) t.rows)

  -- What is known of each candidate.
  abbrev IsCandidate : OutboxRow → Type 0
  IsCandidate r = (find row_id r.id t.rows ≡ some r) × (is_due now r ≡ true)

  candidates-All : All IsCandidate candidates
  unfolding candidates
  candidates-All = All-sort_by due_time IsCandidate (keep (is_due now) t.rows) (
      All-of_mem IsCandidate _ λ r m.
        let (m', due) = mem_of_mem-keep (is_due now) r t.rows m in
        (find_of_mem row_id 0 t.seq t.rows r w m', due))

  claimed-mem :
      (j : ℕ) (r : OutboxRow)
      → find row_id j t.rows ≡ some r
      → includes j (due_ids now limit t) ≡ true
      → Memᴰ r (take limit candidates) × (is_due now r ≡ true)
  unfolding due_ids candidates
  claimed-mem j r found claimed =
      let (x, m, e) = includes-map row_id j (take limit candidates) claimed in
      let (here, due) =
        All-mem IsCandidate m (All-take IsCandidate limit candidates candidates-All) in
      let same : x ≡ r = some-injective x r (sym here ∙ rw e found) in rw (← same) (m, due)

  -- A claimed row was due.
  pub due_ids-due :
      (j : ℕ) (r : OutboxRow)
      → find row_id j t.rows ≡ some r
      → includes j (due_ids now limit t) ≡ true
      → is_due now r ≡ true
  due_ids-due j r found claimed = (claimed-mem j r found claimed).1

  unclaimed-mem :
      (j : ℕ) (r : OutboxRow)
      → find row_id j t.rows ≡ some r
      → is_due now r ≡ true
      → includes j (due_ids now limit t) ≡ false
      → Memᴰ r (drop limit candidates)
  unfolding due_ids candidates
  unclaimed-mem j r found due left = elim split [
    | inl m ↦
        let h = includes-map_of_mem row_id (take limit candidates) m in
        ground (arith, find-key row_id j t.rows r found)
    | inr m ↦ m
  ]
    where
      listed : Memᴰ r candidates
      listed =
          mem-sort_by due_time r (keep (is_due now) t.rows)
            (mem-keep (is_due now) r t.rows due (find-mem row_id j t.rows r found))

      split : Memᴰ r (take limit candidates) ⊎ Memᴰ r (drop limit candidates)
      split =
          Memᴰ.append_cases (take limit candidates) (rw (take-append-drop limit candidates) listed)

  -- On a well-formed table, a due row that the limit leaves behind is due no earlier than any
  -- row that is chosen.
  due_ids-earliest :
      (j k : ℕ) (r s : OutboxRow)
      → find row_id j t.rows ≡ some r
      → find row_id k t.rows ≡ some s
      → includes j (due_ids now limit t) ≡ true
      → is_due now s ≡ true
      → includes k (due_ids now limit t) ≡ false
      → due_time r ≤ due_time s
  unfolding candidates
  due_ids-earliest j k r s found_r found_s claimed due left =
      take-le-drop due_time limit candidates r s (sort_by-IsSorted due_time _)
        (claimed-mem j r found_r claimed).0 (unclaimed-mem k s found_s due left)

pub length-due_ids : (now limit : ℕ) (t : Outbox) → length (due_ids now limit t) ≤ limit
unfolding due_ids
length-due_ids now limit t = omega (
  arith,
  length-map row_id (take limit (sort_by due_time (keep (is_due now) t.rows))),
  length-take limit (sort_by due_time (keep (is_due now) t.rows)),
)

-- A row after the claim.
pub find-claim_due :
    (now limit j : ℕ) (t : Outbox)
    → find row_id j (claim_due now limit t).1.rows
      ≡ Option.map
          (λ r. if includes j (due_ids now limit t) then claim_row now r else r)
          (find row_id j t.rows)
unfolding claim_due update_where
find-claim_due now limit j t =
    find-update_rows row_id (λ r. includes r.id (due_ids now limit t)) (claim_row now) (λ r. refl) j
      t.rows
    ∙ map_same _ _ (find row_id j t.rows) λ r here.
      ap (λ k. if includes k (due_ids now limit t) then claim_row now r else r)
        (find-key row_id j t.rows r here)

-- A row that was claimed, as the claim leaves it.
pub find-claimed :
    (now limit j : ℕ) (t : Outbox) (x : OutboxRow)
    → includes j (due_ids now limit t) ≡ true
    → find row_id j (claim_due now limit t).1.rows ≡ some x
    → (r : OutboxRow) × (find row_id j t.rows ≡ some r) × (x ≡ claim_row now r)
find-claimed now limit j t x h found =
    let (r, here, e) =
      (Option.map-eq-some_iff (claim_row now) _).0
        (rw h at (sym (find-claim_due now limit j t) ∙ found)) in
    (r, here, sym e)
