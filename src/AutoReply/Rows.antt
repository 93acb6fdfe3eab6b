-- ===== src/AutoReply/Rows.antt =====
-- Lemmas on routing/audit-repository.ts: what `record` and `finalize` do to the rows.
use openzigs_social.Prelude.{
  ℕ, suc, false, none, some, ◌≡◌, refl, ap, sym, ◌∙◌, inl, inr, arith, ◌==◌, ==_iff, if◌then◌else◌,
  Bool-cases, Option-cases, some_inj,
}
use openzigs_social.Effects.{ok}
use openzigs_social.Sql.{insert, update_where, find}
use openzigs_social.Sql.Laws.{
  IsTable, find-update_rows, find-key, find-le, find-insert_new, find-insert_old,
}
use openzigs_social.AutoReply.Audit.{
  AuditRow, AuditTable, AuditRecordInput, AuditFinalizeInput, row_id, new_row, add, finalized_row,
  finalize,
}

module _ (now : ℕ) (input : AuditRecordInput) (t : AuditTable) (w : IsTable row_id t) where
  pub find-new :
      find row_id (suc t.seq) (insert (new_row now input) t).rows
      ≡ some (new_row now input (suc t.seq))
  unfolding insert
  find-new = find-insert_new row_id (new_row now input) 0 t.seq t.rows refl w

  pub add-returns : (add now input t).0 ≡ ok (new_row now input (suc t.seq))
  unfolding add insert
  add-returns = rw (find-insert_new row_id (new_row now input) 0 t.seq t.rows refl w) refl

  pub add-table : (add now input t).1 ≡ insert (new_row now input) t
  unfolding add insert
  add-table = rw (find-insert_new row_id (new_row now input) 0 t.seq t.rows refl w) refl

  pub find-seq : find row_id (suc t.seq) t.rows ≡ none
  find-seq = elim (Option-cases (find row_id (suc t.seq) t.rows)) [
    | inl none' ↦ none'
    | inr (r, here) ↦ absurd (omega (arith, find-le row_id (suc t.seq) t.seq t.rows r w here))
  ]

  pub find-add :
      (j : ℕ)
      → find row_id j (insert (new_row now input) t).rows
        ≡ (if suc t.seq == j then some (new_row now input (suc t.seq)) else find row_id j t.rows)
  unfolding insert
  find-add j = elim (Bool-cases (suc t.seq == j)) [
    | inl hit ↦ rw hit (
        ap (λ k. find row_id k (insert (new_row now input) t).rows)
          (sym ((==_iff (suc t.seq) j).0 hit))
        ∙ find-new)
    | inr miss ↦ rw miss (find-insert_old row_id j t.rows (new_row now input (suc t.seq)) miss)
  ]

abbrev pub final_table : ℕ → ℕ → AuditFinalizeInput → AuditTable → AuditRow → AuditTable
final_table now k input t r = update_where (λ x. x.id == k) (finalized_row now input r) t

module _ (now k : ℕ) (input : AuditFinalizeInput) (t : AuditTable) (r : AuditRow)
    (here : find row_id k t.rows ≡ some r) where
  pub find-final :
      (j : ℕ)
      → find row_id j (final_table now k input t r).rows
        ≡ (if k == j then some (finalized_row now input r r) else find row_id j t.rows)
  unfolding update_where
  find-final j =
      find-update_rows row_id (λ x. x.id == k) (finalized_row now input r) (λ x. refl) j t.rows
      ∙ elim (Option-cases (find row_id j t.rows)) [
        | inl none' ↦ rw none' (elim (Bool-cases (k == j)) [
          | inl hit ↦ cc (none', here, ap (λ i. find row_id i t.rows) ((==_iff k j).0 hit))
          | inr miss ↦ rw miss refl
        ])
        | inr (x, there) ↦ rw there (elim (Bool-cases (k == j)) [
          | inl hit ↦
              let same : x ≡ r =
                some_inj
                  (sym there ∙ ap (λ i. find row_id i t.rows) (sym ((==_iff k j).0 hit)) ∙ here) in
              rw (hit, same) (rw ((==_iff r.id k).1 (find-key row_id k t.rows r here)) refl)
          | inr miss ↦
              let other : (x.id == k) ≡ false =
                ground (arith, find-key row_id j t.rows x there, miss) in
              rw (miss, other) refl
        ])
      ]

  pub finalize-returns : (finalize now k input t).0 ≡ ok (finalized_row now input r r)
  unfolding finalize
  finalize-returns = rw here (rw (find-final k) (rw ((==_iff k k).1 refl) refl))

  pub finalize-table : (finalize now k input t).1 ≡ final_table now k input t r
  unfolding finalize
  finalize-table = rw here (rw (find-final k) (rw ((==_iff k k).1 refl) refl))
