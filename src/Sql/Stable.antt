-- ===== src/Sql/Stable.antt =====
-- A stable sort and a filter: `WHERE` before or after `ORDER BY`.
use openzigs_social.Prelude.{
  ℕ, ◌≤◌, ◌<◌, Bool, true, List, [], ◌∷◌, ◌≡◌, refl, ap, sym, ◌∙◌, inl, inr, arith, leb, ltb, ◌==◌,
  ==_iff, if◌then◌else◌, Bool-cases, All, keep,
}
use openzigs_social.Sql.Order.{insert_by, sort_by, IsSorted, sort_by-IsSorted}
use openzigs_social.Sql.Newest.{
  insert_newest, sort_newest, IsNewestFirst, sort_newest-IsNewestFirst,
}

module _ {A : Type 0} (p : A → Bool) where
  All-keep : (P : A → Type 0) (xs : List A) → All P xs → All P (keep p xs)
  All-keep P [] h = tt
  All-keep P (x ∷ xs) h = elim (Bool-cases (p x)) [
    | inl hit ↦ rw hit (h.0, All-keep P xs h.1)
    | inr miss ↦ rw miss (All-keep P xs h.1)
  ]

module _ {A : Type 0} (key : A → ℕ) (p : A → Bool) where
  insert_by-first :
      (x : A) (ys : List A) → All (λ y. key x ≤ key y) ys → insert_by key x ys ≡ x ∷ ys
  unfolding insert_by
  insert_by-first x [] h = refl
  insert_by-first x (y ∷ ys) h = ground (arith, h)

  All-below : (m n : ℕ) (ys : List A) → m ≤ n → All (λ y. n ≤ key y) ys → All (λ y. m ≤ key y) ys
  All-below m n [] h k = tt
  All-below m n (y ∷ ys) h k = (omega arith, All-below m n ys h k.1)

  keep-insert_by :
      (x : A) (ys : List A)
      → IsSorted key ys
      → keep p (insert_by key x ys) ≡ (if p x then insert_by key x (keep p ys) else keep p ys)
  unfolding insert_by
  keep-insert_by x [] h = refl
  keep-insert_by x (y ∷ ys) h = elim (Bool-cases (leb (key x) (key y))) [
    | inl le ↦ rw le (elim (Bool-cases (p x)) [
      | inr out ↦ rw out refl
      | inl in' ↦ rw in' (
          sym (
            insert_by-first x (keep p (y ∷ ys)) (
              All-keep p _ (y ∷ ys)
                (ground arith, All-below (key x) (key y) ys (ground arith) h.0))))
    ])
    | inr gt ↦ rw gt (elim (Bool-cases (p y)) [
      | inl in' ↦ rw in' (elim (Bool-cases (p x)) [
        | inl yes' ↦ rw (yes', gt) (ap (λ zs. y ∷ zs) (keep-insert_by x ys h.1 ∙ rw yes' refl))
        | inr no' ↦ rw no' (ap (λ zs. y ∷ zs) (keep-insert_by x ys h.1 ∙ rw no' refl))
      ])
      | inr out ↦ rw out (keep-insert_by x ys h.1)
    ])
  ]

  pub keep-sort_by : (xs : List A) → keep p (sort_by key xs) ≡ sort_by key (keep p xs)
  unfolding sort_by
  keep-sort_by [] = refl
  keep-sort_by (x ∷ xs) =
      keep-insert_by x (sort_by key xs) (sort_by-IsSorted key xs) ∙ elim (Bool-cases (p x)) [
        | inl in' ↦ rw in' (ap (insert_by key x) (keep-sort_by xs))
        | inr out ↦ rw out (keep-sort_by xs)
      ]

  insert_newest-first :
      (x : A) (ys : List A) → All (λ y. key y < key x) ys → insert_newest key x ys ≡ x ∷ ys
  unfolding insert_newest
  insert_newest-first x [] h = refl
  insert_newest-first x (y ∷ ys) h = ground (arith, h)

  All-above : (m n : ℕ) (ys : List A) → m < n → All (λ y. key y ≤ m) ys → All (λ y. key y < n) ys
  All-above m n [] h k = tt
  All-above m n (y ∷ ys) h k = (omega arith, All-above m n ys h k.1)

  keep-insert_newest :
      (x : A) (ys : List A)
      → IsNewestFirst key ys
      → keep p (insert_newest key x ys)
        ≡ (if p x then insert_newest key x (keep p ys) else keep p ys)
  unfolding insert_newest
  keep-insert_newest x [] h = refl
  keep-insert_newest x (y ∷ ys) h = elim (Bool-cases (ltb (key y) (key x))) [
    | inl lt ↦ rw lt (elim (Bool-cases (p x)) [
      | inr out ↦ rw out refl
      | inl in' ↦
          let lt' : key y < key x = ground arith in
          rw in' (
            sym (
              insert_newest-first x (keep p (y ∷ ys))
                (All-keep p _ (y ∷ ys) (lt', All-above (key y) (key x) ys lt' h.0))))
    ])
    | inr ge ↦ rw ge (elim (Bool-cases (p y)) [
      | inl in' ↦ rw in' (elim (Bool-cases (p x)) [
        | inl yes' ↦ rw (yes', ge) (ap (λ zs. y ∷ zs) (keep-insert_newest x ys h.1 ∙ rw yes' refl))
        | inr no' ↦ rw no' (ap (λ zs. y ∷ zs) (keep-insert_newest x ys h.1 ∙ rw no' refl))
      ])
      | inr out ↦ rw out (keep-insert_newest x ys h.1)
    ])
  ]

  pub keep-sort_newest : (xs : List A) → keep p (sort_newest key xs) ≡ sort_newest key (keep p xs)
  unfolding sort_newest
  keep-sort_newest [] = refl
  keep-sort_newest (x ∷ xs) =
      keep-insert_newest x (sort_newest key xs) (sort_newest-IsNewestFirst key xs)
      ∙ elim (Bool-cases (p x)) [
        | inl in' ↦ rw in' (ap (insert_newest key x) (keep-sort_newest xs))
        | inr out ↦ rw out (keep-sort_newest xs)
      ]

module _ {A : Type 0} (key : A → ℕ) where
  -- Rows in order stay as they are.
  pub sort_by-sorted : (xs : List A) → IsSorted key xs → sort_by key xs ≡ xs
  unfolding sort_by
  sort_by-sorted [] h = refl
  sort_by-sorted (x ∷ xs) h = rw (sort_by-sorted xs h.1) (insert_by-first key (λ y. true) x xs h.0)

  All-equal_le : (m k : ℕ) (ys : List A) → m ≡ k → All (λ y. key y ≡ k) ys → All (λ y. m ≤ key y) ys
  All-equal_le m k [] e h = tt
  All-equal_le m k (y ∷ ys) e h = (omega arith, All-equal_le m k ys e h.1)

  equal-IsSorted : (k : ℕ) (ys : List A) → All (λ y. key y ≡ k) ys → IsSorted key ys
  equal-IsSorted k [] h = tt
  equal-IsSorted k (y ∷ ys) h = (All-equal_le (key y) k ys h.0 h.1, equal-IsSorted k ys h.1)

  keep-equal : (k : ℕ) (xs : List A) → All (λ x. key x ≡ k) (keep (λ x. key x == k) xs)
  keep-equal k [] = tt
  keep-equal k (x ∷ xs) = elim (Bool-cases (key x == k)) [
    | inl hit ↦ rw hit ((==_iff (key x) k).0 hit, keep-equal k xs)
    | inr miss ↦ rw miss (keep-equal k xs)
  ]

  -- `ORDER BY` a key does nothing to the rows of one value of it.
  pub keep-sort_by_own :
      (k : ℕ) (xs : List A) → keep (λ x. key x == k) (sort_by key xs) ≡ keep (λ x. key x == k) xs
  keep-sort_by_own k xs =
      keep-sort_by key (λ x. key x == k) xs
      ∙ sort_by-sorted _ (equal-IsSorted k _ (keep-equal k xs))
