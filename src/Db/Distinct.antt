-- ===== src/Db/Distinct.antt =====
-- Lemmas on db/migrator.ts: the loaded migrations have each version once.
use openzigs_social.Prelude.{
  ℕ, String, false, ◌||◌, Option, List, [], ◌∷◌, ◌++◌, ◌≡◌, refl, ap, ◌∙◌, inl, inr, arith, map,
  ◌==◌, leb, Bool-cases, Option-cases, includes,
}
use openzigs_social.Effects.{Result, ok, err, Result-cases}
use openzigs_social.Sql.Order.{insert_by, sort_by, IsSorted, sort_by-IsSorted}
use openzigs_social.Db.Migrator.{Migration, version, File, MigrateError, load_from, load_migrations}

-- No version twice.
unfoldable pub IsDistinct : List Migration → Type 0
IsDistinct [] = Unit
IsDistinct (m ∷ ms) = (includes (version m) (map version ms) ≡ false) × IsDistinct ms

module _ {A : Type 0} (key : A → ℕ) where
  pub includes-insert_by :
      (v : ℕ) (x : A) (xs : List A)
      → includes v (map key (insert_by key x xs)) ≡ (key x == v || includes v (map key xs))
  unfolding insert_by
  includes-insert_by v x [] = refl
  includes-insert_by v x (y ∷ ys) = ground (arith, includes-insert_by v x ys)

  includes-sort_by :
      (v : ℕ) (xs : List A) → includes v (map key (sort_by key xs)) ≡ includes v (map key xs)
  unfolding sort_by
  includes-sort_by v [] = refl
  includes-sort_by v (x ∷ xs) =
      includes-insert_by v x (sort_by key xs) ∙ ap (λ b. key x == v || b) (includes-sort_by v xs)

insert_by-IsDistinct :
    (m : Migration) (ms : List Migration)
    → includes (version m) (map version ms) ≡ false
    → IsDistinct ms
    → IsDistinct (insert_by version m ms)
unfolding insert_by IsDistinct
insert_by-IsDistinct m [] h d = (refl, tt)
insert_by-IsDistinct m (x ∷ xs) h d = elim (Bool-cases (leb (version m) (version x))) [
  | inl le ↦ rw le (h, d)
  | inr gt ↦ rw gt (
    includes-insert_by version (version x) m xs ∙ ground (arith, h, d.0),
    insert_by-IsDistinct m xs (ground (arith, h)) d.1,
  )
]

sort_by-IsDistinct : (ms : List Migration) → IsDistinct ms → IsDistinct (sort_by version ms)
unfolding sort_by IsDistinct
sort_by-IsDistinct [] d = tt
sort_by-IsDistinct (m ∷ ms) d =
    insert_by-IsDistinct m (sort_by version ms) (includes-sort_by version (version m) ms ∙ d.0)
      (sort_by-IsDistinct ms d.1)

abbrev migrations_of : Result MigrateError (List Migration) → List Migration
migrations_of (ok ms) = ms
migrations_of (err e) = []

ok_inj :
    (xs ys : List Migration)
    → ◌≡◌ {A = Result MigrateError (List Migration)} (ok xs) (ok ys)
    → xs ≡ ys
ok_inj xs ys h = ap migrations_of h

includes-snoc :
    (v : ℕ) (ms : List Migration) (m : Migration)
    → includes v (map version (ms ++ m ∷ [])) ≡ (includes v (map version ms) || version m == v)
includes-snoc v [] m = ground arith
includes-snoc v (x ∷ ms) m = ground (arith, includes-snoc v ms m)

snoc-IsDistinct :
    (ms : List Migration) (m : Migration)
    → includes (version m) (map version ms) ≡ false
    → IsDistinct ms
    → IsDistinct (ms ++ m ∷ [])
unfolding IsDistinct
snoc-IsDistinct [] m h d = (refl, tt)
snoc-IsDistinct (x ∷ ms) m h d = (
  includes-snoc (version x) ms m ∙ ground (arith, h, d.0),
  snoc-IsDistinct ms m (ground (arith, h)) d.1,
)

module _ (parse_name : String → Option (ℕ × String)) where
  abbrev Loaded : Result MigrateError (List Migration) → Type 0
  Loaded (ok ms) = IsDistinct ms
  Loaded (err e) = Unit

  load_from-Loaded :
      (fs : List File) (acc : List Migration)
      → IsDistinct acc
      → Loaded (load_from parse_name fs acc)
  load_from-Loaded [] acc d = d
  load_from-Loaded (f ∷ fs) acc d = elim (Option-cases (parse_name f.file_name)) [
    | inl e ↦ rw (e, load_from) (load_from-Loaded fs acc d)
    | inr (p, e) ↦
        rw (e, load_from)
          (elim (Bool-cases (includes (p.0) (map version acc))) [
            | inl twice ↦ rw twice tt
            | inr once ↦ rw once (load_from-Loaded fs _ (snoc-IsDistinct acc _ once d))
          ])
  ]

  pub load_migrations-IsSorted :
      (dir : List File) (ms : List Migration)
      → load_migrations parse_name dir ≡ ok ms
      → IsSorted version ms
  unfolding load_migrations
  load_migrations-IsSorted dir ms h = elim (Result-cases (load_from parse_name dir [])) [
    | inr (e, r) ↦ cc (rw (r, load_migrations) at h)
    | inl (xs, r) ↦
        let same : sort_by version xs ≡ ms =
          ok_inj (sort_by version xs) ms (rw (r, load_migrations) at h) in
        rw (← same) (sort_by-IsSorted version xs)
  ]

  pub load_migrations-IsDistinct :
      (dir : List File) (ms : List Migration)
      → load_migrations parse_name dir ≡ ok ms
      → IsDistinct ms
  unfolding load_migrations IsDistinct
  load_migrations-IsDistinct dir ms h = elim (Result-cases (load_from parse_name dir [])) [
    | inr (e, r) ↦ cc (rw (r, load_migrations) at h)
    | inl (xs, r) ↦
        let d : IsDistinct xs = rw r at (load_from-Loaded dir [] tt) in
        let same : sort_by version xs ≡ ms =
          ok_inj (sort_by version xs) ms (rw (r, load_migrations) at h) in
        rw (← same) (sort_by-IsDistinct xs d)
  ]
