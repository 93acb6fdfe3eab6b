-- ===== src/Sql.antt =====
-- A SQLite table as the repositories use it: rows in the order of their INTEGER PRIMARY KEY, and
-- the AUTOINCREMENT sequence. `INSERT`, `SELECT … WHERE id = ?`, `UPDATE … WHERE` and
-- `DELETE … WHERE` are the functions below; each runs as one atomic step, since better-sqlite3 is
-- synchronous.
pub mod Laws
pub mod Every
pub mod Order
pub mod Newest
pub mod Upsert
pub mod Stable
use openzigs_social.Prelude.{
  ℕ, suc, Bool, Option, none, some, List, [], ◌∷◌, ◌++◌, not, ◌==◌, if◌then◌else◌, keep, length,
}

pub record Table (Row : Type 0) : Type 0 where
  pub rows : List Row
  pub seq : ℕ

module _ {Row : Type 0} where
  abbrev pub empty_table : Table Row
  empty_table = record { rows = []; seq = 0 }

  -- The new row is built from its key, which is one above every key that was ever given out.
  unfoldable pub insert : (ℕ → Row) → Table Row → Table Row
  insert make t = record { rows = t.rows ++ make (suc t.seq) ∷ []; seq = suc t.seq }

  unfoldable pub update_rows : (Row → Bool) → (Row → Row) → List Row → List Row
  update_rows test f [] = []
  update_rows test f (r ∷ rs) = (if test r then f r else r) ∷ update_rows test f rs

  -- UPDATE … SET f WHERE test
  unfoldable pub update_where : (Row → Bool) → (Row → Row) → Table Row → Table Row
  unfolding update_rows
  update_where test f t = record t { rows = update_rows test f t.rows }

  -- DELETE … WHERE test
  unfoldable pub delete_where : (Row → Bool) → Table Row → Table Row
  delete_where test t = record t { rows = keep (λ r. not (test r)) t.rows }

module _ {Row : Type 0} (key : Row → ℕ) where
  -- SELECT * … WHERE id = k
  unfoldable pub find : ℕ → List Row → Option Row
  find k [] = none
  find k (r ∷ rs) = if key r == k then some r else find k rs
