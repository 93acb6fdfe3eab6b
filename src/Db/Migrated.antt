-- ===== src/Db/Migrated.antt =====
-- Lemmas on db/migrator.ts: what a run applies, and where the next run goes on.
use openzigs_social.Prelude.{
  ℕ, zero, suc, String, Bool, false, not, ◌||◌, Option, List, [], ◌∷◌, ◌≡◌, refl, ap, sym, ◌∙◌, inl,
  inr, arith, map, keep, take, drop, ◌==◌, ==_iff, Bool-cases, All, includes,
}
use mathlib.Core.Path.{subst}
use openzigs_social.Effects.{Result, ok}
use openzigs_social.Db.Migrator.{
  Migration, version, File, MigrateError, report, Database, load_migrations, apply_each,
  applied_versions, migrate,
}
use openzigs_social.Db.Distinct.{IsDistinct, load_migrations-IsDistinct, load_migrations-IsSorted}
use openzigs_social.Sql.Order.{IsSorted}
use openzigs_social.Db.Pending.{pending, IsMigrated, apply_each-pending, apply_each-IsMigrated}

keep-IsDistinct :
    (done : List ℕ) (ms : List Migration) → IsDistinct ms → IsDistinct (pending done ms)
unfolding IsDistinct
keep-IsDistinct done [] d = tt
keep-IsDistinct done (m ∷ ms) d = elim (Bool-cases (includes (version m) done)) [
  | inl hit ↦ rw hit (keep-IsDistinct done ms d.1)
  | inr miss ↦ rw miss (includes-pending (version m) ms d.0, keep-IsDistinct done ms d.1)
]
  where
    includes-pending :
        (v : ℕ) (xs : List Migration)
        → includes v (map version xs) ≡ false
        → includes v (map version (pending done xs)) ≡ false
    includes-pending v [] h = refl
    includes-pending v (x ∷ xs) h = ground (arith, h, includes-pending v xs)

not_done :
    (done : List ℕ) (ms : List Migration)
    → All (λ m. includes (version m) done ≡ false) (pending done ms)
not_done done [] = tt
not_done done (m ∷ ms) = elim (Bool-cases (includes (version m) done)) [
  | inl hit ↦ rw hit (not_done done ms)
  | inr miss ↦ rw miss (miss, not_done done ms)
]

keep-agree :
    {A : Type 0} (p q : A → Bool) (xs : List A) → All (λ x. p x ≡ q x) xs → keep p xs ≡ keep q xs
keep-agree p q [] h = refl
keep-agree p q (x ∷ xs) h = rw (h.0, keep-agree p q xs h.1) refl

pending_twice :
    (done vs : List ℕ) (ms : List Migration)
    → keep (λ m. not (includes (version m) done || includes (version m) vs)) ms
      ≡ pending vs (pending done ms)
pending_twice done vs [] = refl
pending_twice done vs (m ∷ ms) = elim (Bool-cases (includes (version m) done)) [
  | inl hit ↦ rw hit (pending_twice done vs ms)
  | inr miss ↦ rw miss (elim (Bool-cases (includes (version m) vs)) [
    | inl hit' ↦ rw hit' (pending_twice done vs ms)
    | inr miss' ↦ rw miss' (ap (λ rest. m ∷ rest) (pending_twice done vs ms))
  ])
]

-- A migration that comes before is none of those behind it.
apart :
    (v : ℕ) (vs : List ℕ) (ms : List Migration)
    → includes v (map version ms) ≡ false
    → All (λ m. not (v == version m || includes (version m) vs) ≡ not (includes (version m) vs)) ms
apart v vs [] h = tt
apart v vs (m ∷ ms) h = (ground (arith, h), apart v vs ms (ground (arith, h)))

pending-take :
    (n : ℕ) (ms : List Migration) → IsDistinct ms → pending (map version (take n ms)) ms ≡ drop n ms
unfolding IsDistinct
pending-take zero [] d = refl
pending-take zero (m ∷ ms) d = ap (λ rest. m ∷ rest) (pending-take zero ms d.1)
pending-take (suc n) [] d = refl
pending-take (suc n) (m ∷ ms) d =
    rw ((==_iff (version m) (version m)).1 refl) (
      keep-agree _ _ ms (apart (version m) (map version (take n ms)) ms d.0)
      ∙ pending-take n ms d.1)

module _ {S : Type 0} (exec : String → S → Result String S)
    (parse_name : String → Option (ℕ × String)) (now : ℕ) where
  migrate_lem :
      (dir : List File) (ms : List Migration) (db : Database S)
      → load_migrations parse_name dir ≡ ok ms
      → migrate exec parse_name now dir db ≡ (
          let out = apply_each exec now [] (pending (applied_versions db) ms) [] db in
          (report (applied_versions db) out.0, out.1))
  unfolding migrate
  migrate_lem dir ms db loaded =
      rw (loaded, migrate)
        (ap
          (λ (out : Result MigrateError (List ℕ) × Database S).
            (report (applied_versions db) out.0, out.1))
          (apply_each-pending exec now (applied_versions db) ms [] db))

  module _ (ms : List Migration) (db db' : Database S) (result : Result MigrateError (List ℕ)) where
    pending-after :
        IsDistinct ms
        → (run : IsMigrated exec (pending (applied_versions db) ms) [] db result db')
        → pending (applied_versions db') ms ≡ drop run.count (pending (applied_versions db) ms)
    pending-after d run =
        let vs = map version (take run.count (pending (applied_versions db) ms)) in
        (λ i. keep (λ m. not (run.recorded (version m) i)) ms)
        ∙ pending_twice (applied_versions db) vs ms
        ∙ pending-take run.count (pending (applied_versions db) ms)
            (keep-IsDistinct (applied_versions db) ms d)

  -- If the files of the directory load, a run of `migrate` on any database runs some first part
  -- of the migrations that are not recorded, each once and in the order of the loaded ones,
  -- whose versions rise, and records exactly these; it either ran them all and returns their
  -- versions, or it throws what the next one throws, of which nothing is left; and what the next
  -- run finds pending is exactly the rest.
  pub migrate-IsMigrated :
      (dir : List File) (ms : List Migration) (db : Database S)
      → load_migrations parse_name dir ≡ ok ms
      → let done = applied_versions db in
        let out = migrate exec parse_name now dir db in
        IsSorted version ms
        × (result : Result MigrateError (List ℕ)) × (run : IsMigrated exec
            (pending done ms)
            []
            db
            result
            out.1)
        × (out.0 ≡ report done result)
        × (pending (applied_versions out.1) ms ≡ drop run.count (pending done ms))
  migrate-IsMigrated dir ms db loaded =
      let done = applied_versions db in
      let d = load_migrations-IsDistinct parse_name dir ms loaded in
      let p = pending done ms in
      let run =
        apply_each-IsMigrated exec now p [] db (keep-IsDistinct done ms d) (not_done done ms) in
      let end = apply_each exec now [] p [] db in
      subst
        (λ out.
          IsSorted version ms
          × (result : Result MigrateError (List ℕ)) × (run : IsMigrated exec (pending done ms) [] db
              result out.1)
          × (out.0 ≡ report done result)
          × (pending (applied_versions out.1) ms ≡ drop run.count (pending done ms)))
        (sym (migrate_lem dir ms db loaded))
        (
          load_migrations-IsSorted parse_name dir ms loaded,
          end.0,
          run,
          refl,
          pending-after ms db end.1 end.0 d run,
        )
