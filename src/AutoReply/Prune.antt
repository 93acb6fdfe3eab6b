-- ===== src/AutoReply/Prune.antt =====
-- Lemmas on routing/audit-repository.ts: what the retention keeps, and what it deletes.
use openzigs_social.Prelude.{
  ℕ, ◌+◌, ◌≤◌, ◌<◌, Bool, true, false, not, Option, none, some, ◌≡◌, refl, ap, sym, ◌∙◌, ◌⊎◌, inl,
  inr, arith, ltb, Bool-cases, Option-cases, All, All-of_mem, All-mem, All-take, take,
  mem_of_mem-keep, length, length-take, length-map, includes, includes-map, includes-map_of_mem,
  some_inj,
}
use openzigs_social.Sql.{delete_where, find}
use openzigs_social.Sql.Laws.{
  IsTable, delete-IsTable, find-delete, find-delete_none, find-key, find-mem, find_of_mem,
}
use openzigs_social.Sql.Newest.{
  sort_newest, sort_newest-IsNewestFirst, mem-sort_newest, take-ge-drop, mem-split, All-sort_newest,
  length-keep-includes, length-keep_le, length-keep-not-not,
}
use openzigs_social.AutoReply.Audit.{
  AuditRow, AuditTable, AuditPruneInput, row_id, newest_first, newest_ids, prune_older, prune_cap,
  prune,
}

-- The rows are among those of before, and each is one of them or has a reason to be gone.
record IsPruned (Gone : AuditRow → Type 0) (t t' : AuditTable) : Type 0 where
  table : IsTable row_id t'
  fewer : length t'.rows ≤ length t.rows
  old : (j : ℕ) (r : AuditRow) → find row_id j t'.rows ≡ some r → find row_id j t.rows ≡ some r
  kept :
      (j : ℕ) (r : AuditRow)
      → find row_id j t.rows ≡ some r
      → (find row_id j t'.rows ≡ some r) ⊎ Gone r

delete-IsPruned :
    (test : AuditRow → Bool) (t : AuditTable)
    → IsTable row_id t
    → IsPruned (λ r. test r ≡ true) t (delete_where test t)
unfolding delete_where
delete-IsPruned test t w = record {
  table = delete-IsTable row_id test t w;
  fewer = length-keep_le row_id (λ r. not (test r)) t.rows;
  old = λ j r h. elim (Option-cases (find row_id j t.rows)) [
    | inl none' ↦ cc (h, find-delete_none row_id test j t.rows none')
    | inr (x, here) ↦
        let at = sym (find-delete row_id test j 0 t.seq t.rows x w here) ∙ h in
        elim (Bool-cases (test x)) [
          | inl gone ↦ cc (rw gone at at)
          | inr stays ↦ here ∙ rw stays at at
        ]
  ];
  kept = λ j r here. elim (Bool-cases (test r)) [
    | inl gone ↦ inr gone
    | inr stays ↦ inl (find-delete row_id test j 0 t.seq t.rows r w here ∙ rw stays refl)
  ];
}

-- The row is before the cutoff, where there is one.
abbrev pub IsExpired : Option ℕ → AuditRow → Type 0
IsExpired none r = ⊥
IsExpired (some cutoff) r = r.created_at < cutoff

-- No row that is left is earlier than the row, and there is a cap.
abbrev pub IsOldest : Option ℕ → AuditTable → AuditRow → Type 0
IsOldest none t r = ⊥
IsOldest (some cap') t r =
    (j : ℕ) (s : AuditRow) → find row_id j t.rows ≡ some s → r.created_at ≤ s.created_at

abbrev pub IsCapped : Option ℕ → AuditTable → Type 0
IsCapped none t = Unit
IsCapped (some cap') t = length t.rows ≤ cap'

prune_older-IsPruned :
    (older : Option ℕ) (t : AuditTable)
    → IsTable row_id t
    → IsPruned (IsExpired older) t (prune_older older t)
unfolding prune_older
prune_older-IsPruned none t w = record {
  table = w;
  fewer = omega arith;
  old = λ j r h. h;
  kept = λ j r h. inl h;
}
prune_older-IsPruned (some cutoff) t w =
    let p = delete-IsPruned (λ r. ltb r.created_at cutoff) t w in
    record {
      table = p.table;
      fewer = p.fewer;
      old = p.old;
      kept = λ j r h. elim (p.kept j r h) [
        | inl here ↦ inl here
        | inr gone ↦ inr (ground (arith, gone))
      ];
    }

prune_older-fresh :
    (older : Option ℕ) (t : AuditTable) (j : ℕ) (r : AuditRow)
    → IsTable row_id t
    → find row_id j (prune_older older t).rows ≡ some r
    → ¬ (IsExpired older r)
unfolding prune_older delete_where
prune_older-fresh none t j r w h late = late
prune_older-fresh (some cutoff) t j r w h late =
    let (m, fresh) =
      mem_of_mem-keep (λ x. not (ltb x.created_at cutoff)) r t.rows (find-mem row_id j _ r h) in
    ground (arith, fresh, late)

-- A row whose id is not among the newest is no later than one whose id is.
newest_ids-oldest :
    (cap' : ℕ) (t : AuditTable) (i j : ℕ) (r s : AuditRow)
    → IsTable row_id t
    → find row_id i t.rows ≡ some r
    → find row_id j t.rows ≡ some s
    → includes r.id (newest_ids cap' t) ≡ false
    → includes s.id (newest_ids cap' t) ≡ true
    → r.created_at ≤ s.created_at
unfolding newest_ids
newest_ids-oldest cap' t i j r s w here there out in' =
    let sorted = sort_newest (λ (x : AuditRow). x.created_at) t.rows in
    let (x, mx, same) = includes-map row_id s.id (take cap' sorted) in' in
    let found : All (λ y. find row_id y.id t.rows ≡ some y) sorted =
      All-sort_newest (λ (y : AuditRow). y.created_at) (λ y. find row_id y.id t.rows ≡ some y)
        t.rows (All-of_mem _ t.rows (λ y m. find_of_mem row_id 0 t.seq t.rows y w m)) in
    let x-is : x ≡ s = some_inj (
      sym (All-mem (λ y. find row_id y.id t.rows ≡ some y) mx (All-take _ cap' sorted found))
      ∙ ap (λ k. find row_id k t.rows) (same ∙ find-key row_id j t.rows s there)
      ∙ there) in
    let listed =
      mem-sort_newest (λ (y : AuditRow). y.created_at) r t.rows (find-mem row_id i t.rows r here) in
    elim (mem-split (λ (y : AuditRow). y.created_at) cap' sorted r listed) [
      | inl m ↦ cc (out, includes-map_of_mem row_id (take cap' sorted) m)
      | inr d ↦ rw x-is at (
          take-ge-drop (λ (y : AuditRow). y.created_at) cap' sorted x r
            (sort_newest-IsNewestFirst (λ (y : AuditRow). y.created_at) t.rows) mx d)
    ]

prune_cap-IsPruned :
    (max_rows : Option ℕ) (t : AuditTable)
    → IsTable row_id t
    → IsPruned (IsOldest max_rows (prune_cap max_rows t)) t (prune_cap max_rows t)
unfolding prune_cap
prune_cap-IsPruned none t w = record {
  table = w;
  fewer = omega arith;
  old = λ j r h. h;
  kept = λ j r h. inl h;
}
prune_cap-IsPruned (some cap') t w =
    let ids = newest_ids cap' t in
    let test = λ (r : AuditRow). not (includes r.id ids) in
    let p = delete-IsPruned test t w in
    record {
      table = p.table;
      fewer = p.fewer;
      old = p.old;
      kept = λ i r here. elim (p.kept i r here) [
        | inl stays ↦ inl stays
        | inr gone ↦ inr (λ j s there.
            let in' =
              (mem_of_mem-keep (λ x. not (test x)) s t.rows (find-mem row_id j _ s there)).1 in
            newest_ids-oldest cap' t i j r s w here (p.old j s there) (ground (arith, gone))
              (ground (arith, in')))
      ];
    }

prune_cap-IsCapped :
    (max_rows : Option ℕ) (t : AuditTable)
    → IsTable row_id t
    → IsCapped max_rows (prune_cap max_rows t)
unfolding prune_cap newest_ids
prune_cap-IsCapped none t w = tt
prune_cap-IsCapped (some cap') t w =
    let ids = newest_ids cap' t in
    omega (
      arith,
      length-keep-not-not row_id (λ r. includes r.id ids) t.rows,
      length-keep-includes row_id ids 0 t.seq t.rows w,
      length-map row_id (take cap' (newest_first t.rows)),
      length-take cap' (newest_first t.rows),
    )

-- The outcome of a prune.
pub record IsRetained (input : AuditPruneInput) (t : AuditTable) (deleted : ℕ) (t' : AuditTable)
    : Type 0 where
  pub table : IsTable row_id t'
  pub counted : length t'.rows + deleted ≡ length t.rows
  pub capped : IsCapped input.max_rows t'
  pub fresh :
      (j : ℕ) (r : AuditRow) → find row_id j t'.rows ≡ some r → ¬ (IsExpired input.older_than r)
  pub old : (j : ℕ) (r : AuditRow) → find row_id j t'.rows ≡ some r → find row_id j t.rows ≡ some r
  pub kept :
      (j : ℕ) (r : AuditRow)
      → find row_id j t.rows ≡ some r
      → (find row_id j t'.rows ≡ some r)
        ⊎ (IsExpired input.older_than r ⊎ IsOldest input.max_rows t' r)

pub prune-IsRetained :
    (input : AuditPruneInput) (t : AuditTable)
    → IsTable row_id t
    → let (deleted, t') = prune input t in IsRetained input t deleted t'
unfolding prune
prune-IsRetained input t w =
    let t1 = prune_older input.older_than t in
    let p = prune_older-IsPruned input.older_than t w in
    let q = prune_cap-IsPruned input.max_rows t1 p.table in
    record {
      table = q.table;
      counted = omega (arith, p.fewer, q.fewer);
      capped = prune_cap-IsCapped input.max_rows t1 p.table;
      fresh = λ j r h. prune_older-fresh input.older_than t j r w (q.old j r h);
      old = λ j r h. p.old j r (q.old j r h);
      kept = λ j r h. elim (p.kept j r h) [
        | inr late ↦ inr (inl late)
        | inl here ↦ elim (q.kept j r here) [
          | inl there ↦ inl there
          | inr oldest ↦ inr (inr oldest)
        ]
      ];
    }
