-- ===== src/Sql/Upsert.antt =====
-- `INSERT … ON CONFLICT(key) DO UPDATE` on a table with a UNIQUE key of two texts. An insert that
-- conflicts takes no id.
use openzigs_social.Prelude.{
  ℕ, suc, String, Bool, true, false, ◌&&◌, Option, none, some, or_else, or_else-none, List, [], ◌∷◌,
  ◌++◌, ◌≡◌, refl, ap, sym, ◌∙◌, inl, inr, arith, any, str_eq, eq_iff, if◌then◌else◌, Bool-cases,
  Option-cases, is_some, some_inj,
}
use mathlib.Core.Option
use openzigs_social.Sql.{Table, insert, update_rows, update_where}

module _ {Row : Type 0} (fst snd : Row → String) where
  abbrev pub has_key : String → String → Row → Bool
  has_key p i r = str_eq (fst r) p && str_eq (snd r) i

  -- SELECT … WHERE fst = p AND snd = i
  unfoldable pub find_by : String → String → List Row → Option Row
  find_by p i [] = none
  find_by p i (r ∷ rs) = if has_key p i r then some r else find_by p i rs

  unfoldable pub upsert : String → String → (Row → Row) → (ℕ → Row) → Table Row → Table Row
  unfolding insert update_where
  upsert p i merge make t =
      if any (has_key p i) t.rows then update_where (has_key p i) merge t else insert make t

  -- What an upsert makes of the row that was there, or of none.
  abbrev pub merged : (Row → Row) → (ℕ → Row) → ℕ → Option Row → Row
  merged merge make k none = make k
  merged merge make k (some r) = merge r

  any-find_by : (p i : String) (rs : List Row) → any (has_key p i) rs ≡ is_some (find_by p i rs)
  unfolding find_by
  any-find_by p i [] = refl
  any-find_by p i (r ∷ rs) = ground (arith, any-find_by p i rs)

  find_by-append :
      (q j : String) (rs : List Row) (x : Row)
      → find_by q j (rs ++ x ∷ [])
        ≡ or_else (find_by q j rs) (if has_key q j x then some x else none)
  unfolding find_by
  find_by-append q j [] x = refl
  find_by-append q j (r ∷ rs) x = ground (arith, find_by-append q j rs x)

  find_by-key :
      (p i : String) (rs : List Row) (r : Row) → find_by p i rs ≡ some r → has_key p i r ≡ true
  unfolding find_by
  find_by-key p i [] r e = cc
  find_by-key p i (x ∷ rs) r e = elim (Bool-cases (has_key p i x)) [
    | inl hit ↦ let same : x ≡ r = some_inj (rw hit at e) in rw (← same) hit
    | inr miss ↦ find_by-key p i rs r (rw miss at e)
  ]

  module _ (merge : Row → Row) (fst' : (r : Row) → fst (merge r) ≡ fst r)
      (snd' : (r : Row) → snd (merge r) ≡ snd r) where
    has_key-if :
        (b : Bool) (q j : String) (r : Row) → has_key q j (if b then merge r else r) ≡ has_key q j r
    has_key-if true q j r = rw (fst' r, snd' r) refl
    has_key-if false q j r = refl

    find_by-update_rows :
        (test : Row → Bool) (q j : String) (rs : List Row)
        → find_by q j (update_rows test merge rs)
          ≡ Option.map (λ r. if test r then merge r else r) (find_by q j rs)
    unfolding find_by update_rows
    find_by-update_rows test q j [] = refl
    find_by-update_rows test q j (r ∷ rs) = elim (Bool-cases (has_key q j r)) [
      | inl hit ↦ rw (has_key-if (test r) q j r, hit) refl
      | inr miss ↦ rw (has_key-if (test r) q j r, miss) (find_by-update_rows test q j rs)
    ]

    module _ (p i : String) (make : ℕ → Row) (first : (k : ℕ) → fst (make k) ≡ p)
        (second : (k : ℕ) → snd (make k) ≡ i) where
      same_key : (q j : String) → (str_eq p q && str_eq i j) ≡ true → (p ≡ q) × (i ≡ j)
      same_key q j h = ((eq_iff p q).0 (ground (arith, h)), (eq_iff i j).0 (ground (arith, h)))

      moved :
          (q j : String)
          → (str_eq p q && str_eq i j) ≡ true
          → (rs : List Row) → find_by q j rs ≡ find_by p i rs
      moved q j h rs =
          let (e, e') = same_key q j h in
          ap (λ x. find_by x j rs) (sym e) ∙ ap (λ x. find_by p x rs) (sym e')

      other_key :
          (q j : String) (x : Row)
          → (str_eq p q && str_eq i j) ≡ false
          → has_key q j x ≡ true
          → has_key p i x ≡ false
      other_key q j x miss there = ground (
        arith,
        miss,
        there,
        eq_iff (fst x) p,
        eq_iff (fst x) q,
        eq_iff (snd x) i,
        eq_iff (snd x) j,
        eq_iff p q,
        eq_iff i j,
      )

      find_by-upsert_at :
          (q j : String) (t : Table Row)
          → find_by q j (upsert p i merge make t).rows ≡ (
              if str_eq p q && str_eq i j
              then some (merged merge make (suc t.seq) (find_by p i t.rows))
              else find_by q j t.rows)
      unfolding upsert update_where insert
      find_by-upsert_at q j t = elim (Option-cases (find_by p i t.rows)) [
        | inr (r, here) ↦
            let hit : any (has_key p i) t.rows ≡ true = any-find_by p i t.rows ∙ rw here refl in
            rw (hit, here, find_by-update_rows (has_key p i) q j t.rows) (old r here)
        | inl none' ↦
            let miss : any (has_key p i) t.rows ≡ false = any-find_by p i t.rows ∙ rw none' refl in
            rw
              (
                miss,
                none',
                find_by-append q j t.rows (make (suc t.seq)),
                first (suc t.seq),
                second (suc t.seq),
              )
              (new none')
      ]
        where
          old :
              (r : Row)
              → find_by p i t.rows ≡ some r
              → Option.map (λ x. if has_key p i x then merge x else x) (find_by q j t.rows)
                ≡ (if str_eq p q && str_eq i j then some (merge r) else find_by q j t.rows)
          old r here = elim (Bool-cases (str_eq p q && str_eq i j)) [
            | inl hit ↦
                rw (hit, moved q j hit t.rows ∙ here) (rw (find_by-key p i t.rows r here) refl)
            | inr miss ↦ rw miss (elim (Option-cases (find_by q j t.rows)) [
              | inl absent ↦ rw absent refl
              | inr (x, there) ↦
                  rw there (rw (other_key q j x miss (find_by-key q j t.rows x there)) refl)
            ])
          ]

          new :
              find_by p i t.rows ≡ none
              → or_else
                  (find_by q j t.rows)
                  (if str_eq p q && str_eq i j then some (make (suc t.seq)) else none)
                ≡ (if str_eq p q && str_eq i j then some (make (suc t.seq)) else find_by q j t.rows)
          new none' = elim (Bool-cases (str_eq p q && str_eq i j)) [
            | inl hit ↦ rw (hit, moved q j hit t.rows ∙ none') refl
            | inr miss ↦ rw miss (or_else-none (find_by q j t.rows))
          ]

      pub find_by-upsert :
          (q j : String) (t : Table Row)
          → find_by q j (upsert p i merge make t).rows ≡ (
              if str_eq p q && str_eq i j
              then some (merged merge make (suc t.seq) (find_by q j t.rows))
              else find_by q j t.rows)
      find_by-upsert q j t =
          find_by-upsert_at q j t ∙ elim (Bool-cases (str_eq p q && str_eq i j)) [
            | inl hit ↦
                rw hit
                  (ap (λ o. some (merged merge make (suc t.seq) o)) (sym (moved q j hit t.rows)))
            | inr miss ↦ rw miss refl
          ]
