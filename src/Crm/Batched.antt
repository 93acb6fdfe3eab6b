-- ===== src/Crm/Batched.antt =====
-- Lemmas on the Maps of listContacts of crm/repository.ts: what one identity finds in them.
use openzigs_social.Prelude.{
  ℕ, zero, suc, ◌+◌, ◌-◌, true, ◌&&◌, Option, none, some, get_or, or_else, List, [], ◌∷◌, ◌++◌, ◌≡◌,
  refl, ap, sym, ◌∙◌, inl, inr, arith, map, keep, take, leb, ltb, ◌==◌, ==_iff, if◌then◌else◌,
  Bool-cases, Option-cases, length, includes,
}
use mathlib.Core.List.{append_assoc, append-nil}
use openzigs_social.Sql.{find}
use openzigs_social.Sql.Newest.{insert_newest, sort_newest}
use openzigs_social.SocialBrain.Types.{MessageRow}
use openzigs_social.SocialBrain.Repository as Brain
use openzigs_social.Crm.Types.{LinkRow, Crm}
use openzigs_social.Crm.Repository.{by_crm, owner_of, is_owned, is_recent, accounts, to_account}
use openzigs_social.Crm.Listing.{
  map_get, map_set, push_all, set_all, count_groups, row_number, top_rows, joined, batch_accounts,
}

module _ {A : Type 0} where
  map_get-map_set :
      (j k : ℕ) (a : A) (m : List (ℕ × A))
      → map_get j (map_set k a m) ≡ (if k == j then some a else map_get j m)
  unfolding map_get map_set
  map_get-map_set j k a [] = refl
  map_get-map_set j k a (e ∷ es) = ground (arith, map_get-map_set j k a es)

module _ {A : Type 0} where
  -- The rows of one key.
  abbrev pub of_key : ℕ → List (ℕ × A) → List (ℕ × A)
  of_key k = keep (λ r. r.0 == k)

  push_all-from :
      (k : ℕ) (rs : List (ℕ × A)) (m : List (ℕ × List A))
      → get_or (map_get k (push_all rs m)) []
        ≡ get_or (map_get k m) [] ++ map (λ r. r.1) (of_key k rs)
  unfolding push_all
  push_all-from k [] m = sym (append-nil _)
  push_all-from k (r ∷ rs) m =
      push_all-from k rs _
      ∙ rw (map_get-map_set k (r.0) (get_or (map_get (r.0) m) [] ++ r.1 ∷ []) m)
          (elim (Bool-cases (r.0 == k)) [
            | inl hit ↦
                rw hit (rw ((==_iff (r.0) k).0 hit) (append_assoc (get_or (map_get k m) []) _ _))
            | inr miss ↦ rw miss refl
          ])

  pub push_all_lem :
      (k : ℕ) (rs : List (ℕ × A))
      → get_or (map_get k (push_all rs [])) [] ≡ map (λ r. r.1) (of_key k rs)
  unfolding map_get
  push_all_lem k rs = push_all-from k rs []

  -- A result of GROUP BY has each key once.
  IsGrouped : List (ℕ × A) → Type 0
  IsGrouped [] = Unit
  IsGrouped (e ∷ es) = (map_get (e.0) es ≡ none) × IsGrouped es

  map_set-IsGrouped : (k : ℕ) (a : A) (m : List (ℕ × A)) → IsGrouped m → IsGrouped (map_set k a m)
  unfolding IsGrouped map_get map_set
  map_set-IsGrouped k a [] h = (refl, tt)
  map_set-IsGrouped k a (e ∷ es) h = elim (Bool-cases (e.0 == k)) [
    | inl hit ↦ rw hit (rw (← (==_iff (e.0) k).0 hit) (h.0), h.1)
    | inr miss ↦
        rw miss
          (map_get-map_set (e.0) k a es ∙ ground (arith, h.0, miss), map_set-IsGrouped k a es h.1)
  ]

  map_get-set_all :
      (k : ℕ) (rs m : List (ℕ × A))
      → IsGrouped rs
      → map_get k (set_all rs m) ≡ or_else (map_get k rs) (map_get k m)
  unfolding IsGrouped set_all map_get
  map_get-set_all k [] m h = refl
  map_get-set_all k (r ∷ rs) m h =
      map_get-set_all k rs _ h.1
      ∙ rw (map_get-map_set k (r.0) (r.1) m) (elim (Bool-cases (r.0 == k)) [
        | inl hit ↦
            rw hit (
              let fresh : map_get k rs ≡ none = rw (← (==_iff (r.0) k).0 hit) (h.0) in
              rw fresh refl)
        | inr miss ↦ rw miss refl
      ])

count_groups-IsGrouped :
    (rs : List (ℕ × MessageRow)) (groups : List (ℕ × ℕ))
    → IsGrouped groups
    → IsGrouped (count_groups rs groups)
unfolding count_groups
count_groups-IsGrouped [] groups h = h
count_groups-IsGrouped (r ∷ rs) groups h =
    count_groups-IsGrouped rs _ (map_set-IsGrouped (r.0) _ groups h)

count_groups-from :
    (k : ℕ) (rs : List (ℕ × MessageRow)) (groups : List (ℕ × ℕ))
    → get_or (map_get k (count_groups rs groups)) 0
      ≡ get_or (map_get k groups) 0 + length (of_key k rs)
unfolding count_groups
count_groups-from k [] groups = ground arith
count_groups-from k (r ∷ rs) groups =
    count_groups-from k rs _
    ∙ rw (map_get-map_set k (r.0) (suc (get_or (map_get (r.0) groups) 0)) groups)
        (elim (Bool-cases (r.0 == k)) [
          | inl hit ↦ rw hit (rw ((==_iff (r.0) k).0 hit) (omega arith))
          | inr miss ↦ rw miss refl
        ])

pub count_groups_lem :
    (k : ℕ) (rs : List (ℕ × MessageRow))
    → get_or (map_get k (set_all (count_groups rs []) [])) 0 ≡ length (of_key k rs)
unfolding map_get IsGrouped
count_groups_lem k rs =
    rw (map_get-set_all k (count_groups rs []) [] (count_groups-IsGrouped rs [] tt))
      (or_else-default (map_get k (count_groups rs [])) ∙ count_groups-from k rs [] ∙ ground arith)
  where
    or_else-default : (o : Option ℕ) → get_or (or_else o none) 0 ≡ get_or o 0
    or_else-default none = refl
    or_else-default (some n) = refl

module _ (db : Crm) (k : ℕ) where
  pub batch_accounts-own :
      (ls : List LinkRow)
      → map (λ r. r.1) (of_key k (batch_accounts db ls))
        ≡ accounts db (keep (λ l. by_crm l == k) ls)
  batch_accounts-own [] = refl
  batch_accounts-own (l ∷ ls) = elim (Bool-cases (by_crm l == k)) [
    | inl hit ↦
        rw hit
          (elim (Option-cases (find Brain.contact_id l.social_contact_id db.brain.contacts.rows)) [
            | inl e ↦ rw (e, batch_accounts, accounts) (batch_accounts-own ls)
            | inr (c, e) ↦
                rw (e, batch_accounts, accounts)
                  (rw hit (ap (λ rest. to_account l c ∷ rest) (batch_accounts-own ls)))
          ])
    | inr miss ↦
        rw miss
          (elim (Option-cases (find Brain.contact_id l.social_contact_id db.brain.contacts.rows)) [
            | inl e ↦ rw (e, batch_accounts, accounts) (batch_accounts-own ls)
            | inr (c, e) ↦ rw (e, batch_accounts, accounts) (rw miss (batch_accounts-own ls))
          ])
  ]

module _ (ids : List ℕ) (k : ℕ) (on_page : includes k ids ≡ true) where
  self : (k == k) ≡ true
  self = (==_iff k k).1 refl

  -- The rows of an identity of the page are its messages of the window.
  pub joined-own :
      (ls : List LinkRow) (start : ℕ) (ms : List MessageRow)
      → of_key k (joined ids ls start ms)
        ≡ map (λ m. (k, m)) (keep (λ m. is_owned k ls m && is_recent start m) ms)
  joined-own ls start [] = refl
  joined-own ls start (m ∷ ms) = elim (Option-cases (owner_of ls m.contact_id)) [
    | inl e ↦ rw (e, joined) (joined-own ls start ms)
    | inr (o, e) ↦
        rw (e, joined)
          (elim (Bool-cases (o == k)) [
            | inl hit ↦ rw ((==_iff o k).0 hit) (elim (Bool-cases (is_recent start m)) [
              | inl yes' ↦
                  rw (on_page, self, yes')
                    (rw self (ap (λ rest. (k, m) ∷ rest) (joined-own ls start ms)))
              | inr no' ↦ rw (on_page, self, no') (joined-own ls start ms)
            ])
            | inr miss ↦ elim (Bool-cases (includes o ids && is_recent start m)) [
              | inl yes' ↦ rw (yes', miss) (joined-own ls start ms)
              | inr no' ↦ rw (no', miss) (joined-own ls start ms)
            ]
          ])
  ]

  pub keep-includes :
      (ls : List LinkRow)
      → keep (λ l. by_crm l == k) (keep (λ l. includes (by_crm l) ids) ls)
        ≡ keep (λ l. by_crm l == k) ls
  keep-includes [] = refl
  keep-includes (l ∷ ls) = elim (Bool-cases (by_crm l == k)) [
    | inl hit ↦
        let here : includes (by_crm l) ids ≡ true = rw ((==_iff (by_crm l) k).0 hit) on_page in
        rw (here, hit) (ap (λ rest. l ∷ rest) (keep-includes ls))
    | inr miss ↦ rw miss (elim (Bool-cases (includes (by_crm l) ids)) [
      | inl in' ↦ rw (in', miss) (keep-includes ls)
      | inr out ↦ rw out (keep-includes ls)
    ])
  ]

module _ (limit k : ℕ) where
  top_rows-from :
      (c : ℕ) (seen : List ℕ) (rs : List (ℕ × MessageRow))
      → length (keep (λ j. j == k) seen) ≡ c
      → of_key k (top_rows limit seen rs) ≡ take (limit - c) (of_key k rs)
  unfolding top_rows
  top_rows-from c seen [] h = take-nil (limit - c)
    where
      take-nil : (n : ℕ) → [] ≡ take {A = ℕ × MessageRow} n []
      take-nil zero = refl
      take-nil (suc n) = refl
  top_rows-from c seen (r ∷ rs) h = elim (Bool-cases (r.0 == k)) [
    | inl hit ↦
        let number : row_number (r.0) seen ≡ suc c = rw ((==_iff (r.0) k).0 hit) (ap suc h) in
        let next : length (keep (λ j. j == k) (r.0 ∷ seen)) ≡ suc c = rw hit (ap suc h) in
        let ih = top_rows-from (suc c) (r.0 ∷ seen) rs next in
        elim (Bool-cases (leb (row_number (r.0) seen) limit)) [
          | inl yes' ↦
              let one_more : limit - c ≡ suc (limit - suc c) =
                ground (arith, (rw number at yes')) in
              rw yes' (rw (hit, one_more) (ap (λ rest. r ∷ rest) ih))
          | inr no' ↦
              let none_left : limit - c ≡ 0 = ground (arith, (rw number at no')) in
              let none_after : limit - suc c ≡ 0 = omega (arith, none_left) in
              rw no' (rw (hit, none_left) (ih ∙ rw none_after refl))
        ]
    | inr miss ↦ rw miss (elim (Bool-cases (leb (row_number (r.0) seen) limit)) [
      | inl yes' ↦ rw yes' (rw miss (top_rows-from c (r.0 ∷ seen) rs (rw miss h)))
      | inr no' ↦ rw no' (top_rows-from c (r.0 ∷ seen) rs (rw miss h))
    ])
  ]

  -- What ROW_NUMBER leaves of a partition is what LIMIT leaves of its rows.
  pub top_rows-own :
      (rs : List (ℕ × MessageRow)) → of_key k (top_rows limit [] rs) ≡ take limit (of_key k rs)
  top_rows-own rs = top_rows-from 0 [] rs refl ∙ rw (sub_zero limit) refl
    where
      sub_zero : (n : ℕ) → n - 0 ≡ n
      sub_zero n = omega arith

module _ {A B : Type 0} (f : A → B) (key : B → ℕ) where
  insert_newest-map :
      (x : A) (xs : List A)
      → insert_newest key (f x) (map f xs) ≡ map f (insert_newest (λ a. key (f a)) x xs)
  unfolding insert_newest
  insert_newest-map x [] = refl
  insert_newest-map x (y ∷ ys) = elim (Bool-cases (ltb (key (f y)) (key (f x)))) [
    | inl lt ↦ rw lt refl
    | inr ge ↦ rw ge (ap (λ l. f y ∷ l) (insert_newest-map x ys))
  ]

  pub sort_newest-map :
      (xs : List A) → sort_newest key (map f xs) ≡ map f (sort_newest (λ a. key (f a)) xs)
  unfolding sort_newest
  sort_newest-map [] = refl
  sort_newest-map (x ∷ xs) = rw (sort_newest-map xs) (insert_newest-map x _)
