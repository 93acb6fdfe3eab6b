-- ===== src/Sql/Newest.antt =====
-- `ORDER BY … DESC, id DESC` on rows that stand by their ids: an insertion sort that puts a row
-- behind those that are as late as it is, since they have the higher ids. And what a LIMIT leaves.
use openzigs_social.Prelude.{
  ℕ, zero, suc, ◌+◌, ◌≤◌, Bool, false, ◌||◌, not, List, [], ◌∷◌, ◌≡◌, refl, ◌⊎◌, inl, inr, arith,
  ltb, ◌==◌, if◌then◌else◌, Bool-cases, Memᴰ, All, All-mem, mem_of_mem-drop, take, drop, keep,
  length, includes,
}
use openzigs_social.Sql.Laws.{Rising}

module _ {A : Type 0} (key : A → ℕ) where
  unfoldable pub insert_newest : A → List A → List A
  insert_newest x [] = x ∷ []
  insert_newest x (y ∷ ys) = if ltb (key y) (key x) then x ∷ y ∷ ys else y ∷ insert_newest x ys

  unfoldable pub sort_newest : List A → List A
  unfolding insert_newest
  sort_newest [] = []
  sort_newest (x ∷ xs) = insert_newest x (sort_newest xs)

  abbrev pub IsNewestFirst : List A → Type 0
  IsNewestFirst [] = Unit
  IsNewestFirst (x ∷ xs) = All (λ y. key y ≤ key x) xs × IsNewestFirst xs

  All-insert_newest :
      (P : A → Type 0) (x : A) (ys : List A) → P x → All P ys → All P (insert_newest x ys)
  unfolding insert_newest
  All-insert_newest P x [] p h = (p, tt)
  All-insert_newest P x (y ∷ ys) p h = elim (Bool-cases (ltb (key y) (key x))) [
    | inl lt ↦ rw lt (p, h)
    | inr ge ↦ rw ge (h.0, All-insert_newest P x ys p h.1)
  ]

  pub All-sort_newest : (P : A → Type 0) (xs : List A) → All P xs → All P (sort_newest xs)
  unfolding sort_newest
  All-sort_newest P [] h = tt
  All-sort_newest P (x ∷ xs) h = All-insert_newest P x _ h.0 (All-sort_newest P xs h.1)

  All-ge_trans : (m n : ℕ) (ys : List A) → m ≤ n → All (λ y. key y ≤ m) ys → All (λ y. key y ≤ n) ys
  All-ge_trans m n [] h k = tt
  All-ge_trans m n (y ∷ ys) h k = (omega arith, All-ge_trans m n ys h k.1)

  insert_newest-IsNewestFirst :
      (x : A) (ys : List A) → IsNewestFirst ys → IsNewestFirst (insert_newest x ys)
  unfolding insert_newest
  insert_newest-IsNewestFirst x [] h = (tt, tt)
  insert_newest-IsNewestFirst x (y ∷ ys) h = elim (Bool-cases (ltb (key y) (key x))) [
    | inl lt ↦
        let le : key y ≤ key x = ground arith in
        rw lt ((le, All-ge_trans (key y) (key x) ys le h.0), h)
    | inr ge ↦
        let le : key x ≤ key y = ground arith in
        rw ge
          (All-insert_newest (λ z. key z ≤ key y) x ys le h.0, insert_newest-IsNewestFirst x ys h.1)
  ]

  pub sort_newest-IsNewestFirst : (xs : List A) → IsNewestFirst (sort_newest xs)
  unfolding sort_newest
  sort_newest-IsNewestFirst [] = tt
  sort_newest-IsNewestFirst (x ∷ xs) =
      insert_newest-IsNewestFirst x (sort_newest xs) (sort_newest-IsNewestFirst xs)

  mem-insert_newest-head : (x : A) (ys : List A) → Memᴰ x (insert_newest x ys)
  unfolding insert_newest
  mem-insert_newest-head x [] = Memᴰ.head refl
  mem-insert_newest-head x (y ∷ ys) = elim (Bool-cases (ltb (key y) (key x))) [
    | inl lt ↦ rw lt (Memᴰ.head refl)
    | inr ge ↦ rw ge (Memᴰ.tail (mem-insert_newest-head x ys))
  ]

  mem-insert_newest-tail : (a x : A) (ys : List A) → Memᴰ a ys → Memᴰ a (insert_newest x ys)
  unfolding insert_newest
  mem-insert_newest-tail a x [] m = elim m [ ]
  mem-insert_newest-tail a x (y ∷ ys) (Memᴰ.head e) = elim (Bool-cases (ltb (key y) (key x))) [
    | inl lt ↦ rw lt (Memᴰ.tail (Memᴰ.head e))
    | inr ge ↦ rw ge (Memᴰ.head e)
  ]
  mem-insert_newest-tail a x (y ∷ ys) (Memᴰ.tail m) = elim (Bool-cases (ltb (key y) (key x))) [
    | inl lt ↦ rw lt (Memᴰ.tail (Memᴰ.tail m))
    | inr ge ↦ rw ge (Memᴰ.tail (mem-insert_newest-tail a x ys m))
  ]

  pub mem-sort_newest : (a : A) (xs : List A) → Memᴰ a xs → Memᴰ a (sort_newest xs)
  unfolding sort_newest
  mem-sort_newest a [] m = elim m [ ]
  mem-sort_newest a (x ∷ xs) (Memᴰ.head e) = rw e (mem-insert_newest-head x (sort_newest xs))
  mem-sort_newest a (x ∷ xs) (Memᴰ.tail m) =
      mem-insert_newest-tail a x (sort_newest xs) (mem-sort_newest a xs m)

  -- What a LIMIT cuts off is no later than what it keeps.
  pub take-ge-drop :
      (n : ℕ) (xs : List A) (a b : A)
      → IsNewestFirst xs
      → Memᴰ a (take n xs)
      → Memᴰ b (drop n xs)
      → key b ≤ key a
  take-ge-drop zero xs a b s m d = elim m [ ]
  take-ge-drop (suc n) [] a b s m d = elim m [ ]
  take-ge-drop (suc n) (x ∷ xs) a b s (Memᴰ.head e) d =
      rw e (All-mem (λ y. key y ≤ key x) (mem_of_mem-drop n xs b d) s.0)
  take-ge-drop (suc n) (x ∷ xs) a b s (Memᴰ.tail m) d = take-ge-drop n xs a b s.1 m d

  pub mem-split :
      (n : ℕ) (xs : List A) (a : A) → Memᴰ a xs → Memᴰ a (take n xs) ⊎ Memᴰ a (drop n xs)
  mem-split zero xs a m = inr m
  mem-split (suc n) [] a m = elim m [ ]
  mem-split (suc n) (x ∷ xs) a (Memᴰ.head e) = inl (Memᴰ.head e)
  mem-split (suc n) (x ∷ xs) a (Memᴰ.tail m) = elim (mem-split n xs a m) [
    | inl here ↦ inl (Memᴰ.tail here)
    | inr later ↦ inr later
  ]

module _ {Row : Type 0} (key : Row → ℕ) where
  length-keep_or :
      (p q : Row → Bool) (rs : List Row)
      → length (keep (λ r. p r || q r) rs) ≤ length (keep p rs) + length (keep q rs)
  length-keep_or p q [] = omega arith
  length-keep_or p q (r ∷ rs) = ground (arith, length-keep_or p q rs)

  keep_key-above :
      (i lo hi : ℕ) (rs : List Row)
      → i ≤ lo
      → Rising key lo hi rs
      → length (keep (λ r. i == key r) rs) ≡ 0
  keep_key-above i lo hi [] h w = refl
  keep_key-above i lo hi (r ∷ rs) h w = ground (arith, keep_key-above i (key r) hi rs)

  length-keep_key :
      (i lo hi : ℕ) (rs : List Row) → Rising key lo hi rs → length (keep (λ r. i == key r) rs) ≤ 1
  length-keep_key i lo hi [] w = omega arith
  length-keep_key i lo hi (r ∷ rs) w =
      ground (arith, length-keep_key i (key r) hi rs, keep_key-above i (key r) hi rs)

  length-keep-false : (rs : List Row) → length (keep (λ r. false) rs) ≡ 0
  length-keep-false [] = refl
  length-keep-false (r ∷ rs) = length-keep-false rs

  -- A table has at most as many rows with keys of a list as the list is long.
  pub length-keep-includes :
      (ids : List ℕ) (lo hi : ℕ) (rs : List Row)
      → Rising key lo hi rs
      → length (keep (λ r. includes (key r) ids) rs) ≤ length ids
  length-keep-includes [] lo hi rs w = omega (arith, length-keep-false rs)
  length-keep-includes (i ∷ ids) lo hi rs w = omega (
    arith,
    length-keep_or (λ r. i == key r) (λ r. includes (key r) ids) rs,
    length-keep_key i lo hi rs w,
    length-keep-includes ids lo hi rs w,
  )

  pub length-keep_le : (p : Row → Bool) (rs : List Row) → length (keep p rs) ≤ length rs
  length-keep_le p [] = omega arith
  length-keep_le p (r ∷ rs) = ground (arith, length-keep_le p rs)

  pub length-keep-not-not :
      (p : Row → Bool) (rs : List Row)
      → length (keep (λ r. not (not (p r))) rs) ≡ length (keep p rs)
  length-keep-not-not p [] = refl
  length-keep-not-not p (r ∷ rs) = ground (arith, length-keep-not-not p rs)
