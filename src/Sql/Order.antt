-- ===== src/Sql/Order.antt =====
-- `ORDER BY` on a numeric key: a stable insertion sort, so rows with one key stay in the order of
-- their ids.
use openzigs_social.Prelude.{
  ℕ, zero, suc, ◌≤◌, List, [], ◌∷◌, ◌≡◌, ◌⊎◌, inl, inr, arith, leb, if◌then◌else◌, Bool-cases, Memᴰ,
  All, take, drop, All-mem, mem_of_mem-drop,
}

module _ {A : Type 0} (key : A → ℕ) where
  unfoldable pub insert_by : A → List A → List A
  insert_by x [] = x ∷ []
  insert_by x (y ∷ ys) = if leb (key x) (key y) then x ∷ y ∷ ys else y ∷ insert_by x ys

  unfoldable pub sort_by : List A → List A
  unfolding insert_by
  sort_by [] = []
  sort_by (x ∷ xs) = insert_by x (sort_by xs)

  abbrev pub IsSorted : List A → Type 0
  IsSorted [] = Unit
  IsSorted (x ∷ xs) = All (λ y. key x ≤ key y) xs × IsSorted xs

  All-insert_by : (P : A → Type 0) (x : A) (ys : List A) → P x → All P ys → All P (insert_by x ys)
  unfolding insert_by
  All-insert_by P x [] p h = (p, tt)
  All-insert_by P x (y ∷ ys) p h = elim (Bool-cases (leb (key x) (key y))) [
    | inl le ↦ rw le (p, h)
    | inr gt ↦ rw gt (h.0, All-insert_by P x ys p h.1)
  ]

  All-le_trans : (m n : ℕ) (ys : List A) → m ≤ n → All (λ y. n ≤ key y) ys → All (λ y. m ≤ key y) ys
  All-le_trans m n [] h k = tt
  All-le_trans m n (y ∷ ys) h k = (omega arith, All-le_trans m n ys h k.1)

  insert_by-IsSorted : (x : A) (ys : List A) → IsSorted ys → IsSorted (insert_by x ys)
  unfolding insert_by
  insert_by-IsSorted x [] h = (tt, tt)
  insert_by-IsSorted x (y ∷ ys) h = elim (Bool-cases (leb (key x) (key y))) [
    | inl le ↦
        let le' : key x ≤ key y = ground arith in
        rw le ((le', All-le_trans (key x) (key y) ys le' h.0), h)
    | inr gt ↦
        let ge : key y ≤ key x = ground arith in
        rw gt (All-insert_by (λ z. key y ≤ key z) x ys ge h.0, insert_by-IsSorted x ys h.1)
  ]

  pub sort_by-IsSorted : (xs : List A) → IsSorted (sort_by xs)
  unfolding sort_by
  sort_by-IsSorted [] = tt
  sort_by-IsSorted (x ∷ xs) = insert_by-IsSorted x (sort_by xs) (sort_by-IsSorted xs)

  mem-insert_by : (a x : A) (ys : List A) → (a ≡ x) ⊎ Memᴰ a ys → Memᴰ a (insert_by x ys)
  unfolding insert_by
  mem-insert_by a x [] (inl e) = Memᴰ.head e
  mem-insert_by a x [] (inr m) = elim m [ ]
  mem-insert_by a x (y ∷ ys) c = elim (Bool-cases (leb (key x) (key y))) [
    | inl le ↦ rw le (first c)
    | inr gt ↦ rw gt (later c (λ d. mem-insert_by a x ys d))
  ]
    where
      first : (a ≡ x) ⊎ Memᴰ a (y ∷ ys) → Memᴰ a (x ∷ y ∷ ys)
      first (inl e) = Memᴰ.head e
      first (inr m) = Memᴰ.tail m

      later :
          (a ≡ x) ⊎ Memᴰ a (y ∷ ys)
          → ((a ≡ x) ⊎ Memᴰ a ys → Memᴰ a (insert_by x ys))
          → Memᴰ a (y ∷ insert_by x ys)
      later (inl e) ih = Memᴰ.tail (ih (inl e))
      later (inr (Memᴰ.head e)) ih = Memᴰ.head e
      later (inr (Memᴰ.tail m)) ih = Memᴰ.tail (ih (inr m))

  pub mem-sort_by : (a : A) (xs : List A) → Memᴰ a xs → Memᴰ a (sort_by xs)
  unfolding sort_by
  mem-sort_by a [] m = elim m [ ]
  mem-sort_by a (x ∷ xs) (Memᴰ.head e) = mem-insert_by a x (sort_by xs) (inl e)
  mem-sort_by a (x ∷ xs) (Memᴰ.tail m) = mem-insert_by a x (sort_by xs) (inr (mem-sort_by a xs m))

  pub All-sort_by : (P : A → Type 0) (xs : List A) → All P xs → All P (sort_by xs)
  unfolding sort_by
  All-sort_by P [] h = tt
  All-sort_by P (x ∷ xs) h = All-insert_by P x (sort_by xs) h.0 (All-sort_by P xs h.1)

  -- What a LIMIT cuts off lies behind all that it keeps.
  pub take-le-drop :
      (n : ℕ) (xs : List A) (a b : A)
      → IsSorted xs
      → Memᴰ a (take n xs)
      → Memᴰ b (drop n xs)
      → key a ≤ key b
  take-le-drop zero xs a b s m d = elim m [ ]
  take-le-drop (suc n) [] a b s m d = elim m [ ]
  take-le-drop (suc n) (x ∷ xs) a b s (Memᴰ.head e) d =
      rw e (All-mem (λ y. key x ≤ key y) (mem_of_mem-drop n xs b d) s.0)
  take-le-drop (suc n) (x ∷ xs) a b s (Memᴰ.tail m) d = take-le-drop n xs a b s.1 m d
