-- ===== src/Sql/Laws.antt =====
-- What the statements of a table do to its keys and to the row that a key finds.
use openzigs_social.Prelude.{
  ℕ, suc, ◌≤◌, ◌<◌, Bool, false, not, none, some, List, [], ◌∷◌, ◌++◌, ◌≡◌, refl, inl, inr, arith,
  keep, ◌==◌, if◌then◌else◌, Bool-cases, Memᴰ,
}
use mathlib.Core.Option
use openzigs_social.Sql.{Table, insert, update_rows, update_where, delete_where, find}

module _ {Row : Type 0} (key : Row → ℕ) where
  -- The keys rise along the list, above `lo` and up to `hi`.
  abbrev pub Rising : ℕ → ℕ → List Row → Type 0
  Rising lo hi [] = lo ≤ hi
  Rising lo hi (r ∷ rs) = (lo < key r) × Rising (key r) hi rs

  -- Every key is in use once, and below the sequence.
  abbrev pub IsTable : Table Row → Type 0
  IsTable t = Rising 0 t.seq t.rows

  Rising-lower : (lo lo' hi : ℕ) (rs : List Row) → lo' ≤ lo → Rising lo hi rs → Rising lo' hi rs
  Rising-lower lo lo' hi [] h w = omega arith
  Rising-lower lo lo' hi (r ∷ rs) h w = (omega arith, w.1)

  Rising-le : (lo hi : ℕ) (rs : List Row) → Rising lo hi rs → lo ≤ hi
  Rising-le lo hi [] w = w
  Rising-le lo hi (r ∷ rs) w = omega (arith, Rising-le (key r) hi rs w.1)

  Rising-insert :
      (lo hi : ℕ) (rs : List Row) (r : Row)
      → key r ≡ suc hi
      → Rising lo hi rs
      → Rising lo (suc hi) (rs ++ r ∷ [])
  Rising-insert lo hi [] r e w = (omega arith, omega arith)
  Rising-insert lo hi (x ∷ rs) r e w = (w.0, Rising-insert (key x) hi rs r e w.1)

  pub insert-IsTable :
      (make : ℕ → Row) (t : Table Row)
      → key (make (suc t.seq)) ≡ suc t.seq
      → IsTable t
      → IsTable (insert make t)
  unfolding insert
  insert-IsTable make t e w = Rising-insert 0 t.seq t.rows _ e w

  module _ (test : Row → Bool) (f : Row → Row) (same : (r : Row) → key (f r) ≡ key r) where
    key-if : (r : Row) → key (if test r then f r else r) ≡ key r
    key-if r = ground (arith, same r)

    Rising-update :
        (lo hi : ℕ) (rs : List Row) → Rising lo hi rs → Rising lo hi (update_rows test f rs)
    unfolding update_rows
    Rising-update lo hi [] w = w
    Rising-update lo hi (r ∷ rs) w = rw (key-if r) (w.0, Rising-update (key r) hi rs w.1)

    pub update-IsTable : (t : Table Row) → IsTable t → IsTable (update_where test f t)
    unfolding update_where
    update-IsTable t w = Rising-update 0 t.seq t.rows w

    pub find-update_rows :
        (k : ℕ) (rs : List Row)
        → find key k (update_rows test f rs)
          ≡ Option.map (λ r. if test r then f r else r) (find key k rs)
    unfolding update_rows find
    find-update_rows k [] = refl
    find-update_rows k (r ∷ rs) = ground (arith, key-if r, find-update_rows k rs)

  Rising-delete :
      (test : Row → Bool) (lo hi : ℕ) (rs : List Row)
      → Rising lo hi rs
      → Rising lo hi (keep (λ r. not (test r)) rs)
  Rising-delete test lo hi [] w = w
  Rising-delete test lo hi (r ∷ rs) w =
      let rest = Rising-delete test (key r) hi rs w.1 in
      ground (arith, rest, Rising-lower (key r) lo hi (keep (λ r. not (test r)) rs))

  pub delete-IsTable :
      (test : Row → Bool) (t : Table Row) → IsTable t → IsTable (delete_where test t)
  unfolding delete_where
  delete-IsTable test t w = Rising-delete test 0 t.seq t.rows w

  pub find-key : (k : ℕ) (rs : List Row) (r : Row) → find key k rs ≡ some r → key r ≡ k
  unfolding find
  find-key k [] r e = cc
  find-key k (x ∷ rs) r e = ground (arith, find-key k rs r)

  pub find-mem : (k : ℕ) (rs : List Row) (r : Row) → find key k rs ≡ some r → Memᴰ r rs
  unfolding find
  find-mem k [] r e = cc
  find-mem k (x ∷ rs) r e = elim (Bool-cases (key x == k)) [
    | inl hit ↦ Memᴰ.head (ground arith)
    | inr miss ↦ Memᴰ.tail (find-mem k rs r (ground arith))
  ]

  find-none_above : (k lo hi : ℕ) (rs : List Row) → k ≤ lo → Rising lo hi rs → find key k rs ≡ none
  unfolding find
  find-none_above k lo hi [] h w = refl
  find-none_above k lo hi (r ∷ rs) h w = ground (arith, find-none_above k (key r) hi rs)

  Rising-mem :
      (lo hi : ℕ) (rs : List Row) (r : Row)
      → Rising lo hi rs
      → Memᴰ r rs
      → (lo < key r) × (key r ≤ hi)
  Rising-mem lo hi [] r w m = elim m [ ]
  Rising-mem lo hi (x ∷ rs) r w (Memᴰ.head e) = rw e (w.0, Rising-le (key x) hi rs w.1)
  Rising-mem lo hi (x ∷ rs) r w (Memᴰ.tail m) = omega (arith, Rising-mem (key x) hi rs r w.1 m)

  pub find-le :
      (k hi : ℕ) (rs : List Row) (r : Row) → Rising 0 hi rs → find key k rs ≡ some r → k ≤ hi
  find-le k hi rs r w e =
      omega (arith, Rising-mem 0 hi rs r w (find-mem k rs r e), find-key k rs r e)

  -- In a table a row is found under its own key.
  pub find_of_mem :
      (lo hi : ℕ) (rs : List Row) (r : Row)
      → Rising lo hi rs
      → Memᴰ r rs
      → find key (key r) rs ≡ some r
  unfolding find
  find_of_mem lo hi [] r w m = elim m [ ]
  find_of_mem lo hi (x ∷ rs) r w (Memᴰ.head e) = rw (← e) (ground (arith))
  find_of_mem lo hi (x ∷ rs) r w (Memᴰ.tail m) =
      ground (arith, find_of_mem (key x) hi rs r w.1 m, Rising-mem (key x) hi rs r w.1 m)

  pub find-insert_new :
      (make : ℕ → Row) (lo hi : ℕ) (rs : List Row)
      → key (make (suc hi)) ≡ suc hi
      → Rising lo hi rs
      → find key (suc hi) (rs ++ make (suc hi) ∷ []) ≡ some (make (suc hi))
  unfolding find
  find-insert_new make lo hi [] e w = ground arith
  find-insert_new make lo hi (x ∷ rs) e w =
      ground (arith, find-insert_new make (key x) hi rs e w.1, Rising-le (key x) hi rs w.1)

  pub find-insert_old :
      (k : ℕ) (rs : List Row) (r : Row)
      → (key r == k) ≡ false
      → find key k (rs ++ r ∷ []) ≡ find key k rs
  unfolding find
  find-insert_old k [] r e = ground arith
  find-insert_old k (x ∷ rs) r e = ground (arith, find-insert_old k rs r e)

  pub find-delete :
      (test : Row → Bool) (k lo hi : ℕ) (rs : List Row) (r : Row)
      → Rising lo hi rs
      → find key k rs ≡ some r
      → find key k (keep (λ x. not (test x)) rs) ≡ (if test r then none else some r)
  unfolding find
  find-delete test k lo hi [] r w e = cc
  find-delete test k lo hi (x ∷ rs) r w e = ground (
    arith,
    find-delete test k (key x) hi rs r w.1,
    find-none_above k (key x) hi (keep (λ y. not (test y)) rs),
    Rising-delete test (key x) hi rs w.1,
  )

  pub find-delete_none :
      (test : Row → Bool) (k : ℕ) (rs : List Row)
      → find key k rs ≡ none
      → find key k (keep (λ x. not (test x)) rs) ≡ none
  unfolding find
  find-delete_none test k [] e = refl
  find-delete_none test k (x ∷ rs) e = ground (arith, find-delete_none test k rs)
