-- ===== src/Sql/Every.antt =====
-- Predicates that hold of every row of a table, and what the statements do to them.
use openzigs_social.Prelude.{
  ℕ, suc, Bool, some, ◌≡◌, sym, ◌∙◌, ap, inl, inr, arith, ◌==◌, Bool-cases, Option-cases,
}
use mathlib.Core.Option
use mathlib.Core.Option.{some-injective, none-ne-some}
use mathlib.Core.Path.{subst}
use openzigs_social.Sql.{Table, insert, delete_where, find}
use openzigs_social.Sql.Laws.{
  IsTable, find-insert_new, find-insert_old, find-delete, find-delete_none,
}

module _ {Row : Type 0} (key : Row → ℕ) where
  -- A predicate on every row that a key finds.
  abbrev pub Every : (Row → Type 0) → Table Row → Type 0
  Every P t = (j : ℕ) (r : Row) → find key j t.rows ≡ some r → P r

  pub Every-map :
      (P : Row → Type 0) (t t' : Table Row) (g : ℕ → Row → Row)
      → ((j : ℕ) → find key j t'.rows ≡ Option.map (g j) (find key j t.rows))
      → ((j : ℕ) (r : Row) → find key j t.rows ≡ some r → P r → P (g j r))
      → Every P t
      → Every P t'
  Every-map P t t' g e step all j r' h =
      let (r, here, same) = (Option.map-eq-some_iff (g j) (find key j t.rows)).0 (rw e at h) in
      subst P same (step j r here (all j r here))

  pub Every-insert :
      (P : Row → Type 0) (make : ℕ → Row) (t : Table Row)
      → key (make (suc t.seq)) ≡ suc t.seq
      → IsTable key t
      → P (make (suc t.seq))
      → Every P t
      → Every P (insert make t)
  unfolding insert
  Every-insert P make t e w new all j r h = elim (Bool-cases (key (make (suc t.seq)) == j)) [
    | inl hit ↦
        let at : suc t.seq ≡ j = ground arith in
        subst P
          (some-injective _ _ (
            sym (find-insert_new key make 0 t.seq t.rows e w)
            ∙ ap (λ k. find key k (insert make t).rows) at
            ∙ h))
          new
    | inr miss ↦ all j r (sym (find-insert_old key j t.rows (make (suc t.seq)) miss) ∙ h)
  ]

  pub Every-delete :
      (P : Row → Type 0) (test : Row → Bool) (t : Table Row)
      → IsTable key t
      → Every P t
      → Every P (delete_where test t)
  unfolding delete_where
  Every-delete P test t w all j r h = elim (Option-cases (find key j t.rows)) [
    | inl missing ↦ cc (h, find-delete_none key test j t.rows missing)
    | inr (x, here) ↦
        let e = sym (find-delete key test j 0 t.seq t.rows x w here) ∙ h in
        elim (Bool-cases (test x)) [
          | inl gone ↦ absurd (none-ne-some r (rw gone at e))
          | inr kept ↦ subst P (some-injective _ _ (rw kept at e)) (all j x here)
        ]
  ]
