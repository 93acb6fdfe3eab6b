-- ===== src/Crm/Synced.antt =====
-- Lemmas on sync of crm/repository.ts: every contact of a platform has an identity afterwards.
use openzigs_social.Prelude.{
  ℕ, suc, ◌+◌, Bool, true, false, not, ◌&&◌, ◌||◌, Option, none, some, or_else, or_else-none, List,
  [], ◌∷◌, ◌++◌, ◌≡◌, refl, sym, ◌∙◌, inl, inr, arith, keep, any, ◌==◌, ==_iff, if◌then◌else◌,
  Bool-cases, Option-cases, Memᴰ, All, All-of_mem, length-append, length, is_some,
}
use mathlib.Core.Bool.{or-false, or_assoc, and-false, or-not_self}
use mathlib.Core.Option
use openzigs_social.Sql.{Table, insert, update_rows}
use openzigs_social.SocialBrain.Types as Social
use openzigs_social.SocialBrain.Types.{parse_metadata}
use openzigs_social.Crm.Email.{Runtime}
use openzigs_social.Crm.Types.{LinkRow, Crm}
use openzigs_social.Crm.Repository.{owner, by_social, by_crm}
use openzigs_social.Crm.Sync.{insert_link, unlinked, create_identity, create_all, sync}

keep-out : {A : Type 0} (p : A → Bool) (xs : List A) → All (λ x. p x ≡ false) xs → keep p xs ≡ []
keep-out p [] h = refl
keep-out p (x ∷ xs) h = rw (h.0) (keep-out p xs h.1)

is_some-or_else : (o p : Option ℕ) → is_some (or_else o p) ≡ (is_some o || is_some p)
is_some-or_else none p = refl
is_some-or_else (some n) p = refl

module _ (k d : ℕ) where
  is_some-map : (o : Option ℕ) → is_some (Option.map (λ n. k) o) ≡ is_some o
  is_some-map none = refl
  is_some-map (some n) = refl

  any-owner : (ls : List LinkRow) → any (λ l. by_social l == d) ls ≡ is_some (owner d ls)
  unfolding owner
  any-owner [] = refl
  any-owner (l ∷ ls) = ground (arith, any-owner ls)

  owner-snoc :
      (c : ℕ) (ls : List LinkRow) (l : LinkRow)
      → owner c (ls ++ l ∷ [])
        ≡ or_else (owner c ls) (if by_social l == c then some (by_crm l) else none)
  unfolding owner
  owner-snoc c [] l = refl
  owner-snoc c (x ∷ ls) l = ground (arith, owner-snoc c ls l)

  owner-update :
      (c : ℕ) (ls : List LinkRow)
      → owner c (update_rows (λ l. by_social l == d) (λ l. record l { crm_contact_id = k }) ls)
        ≡ (if d == c then Option.map (λ o. k) (owner c ls) else owner c ls)
  unfolding owner update_rows
  owner-update c [] = ground arith
  owner-update c (l ∷ ls) = ground (arith, owner-update c ls)

  is_some-insert_link :
      (c : ℕ) (links : Table LinkRow)
      → is_some (owner c (insert_link k d links).rows) ≡ (is_some (owner c links.rows) || d == c)
  unfolding insert_link
  is_some-insert_link c links = elim (Bool-cases (any (λ l. by_social l == d) links.rows)) [
    | inl hit ↦
        rw (hit, owner-update c links.rows)
          (elim (Bool-cases (d == c)) [
            | inl same ↦
                let there : is_some (owner c links.rows) ≡ true =
                  rw (← (==_iff d c).0 same) (sym (any-owner links.rows) ∙ hit) in
                rw same (is_some-map (owner c links.rows) ∙ rw there refl)
            | inr other ↦ rw other (sym (or-false _))
          ])
    | inr miss ↦
        rw (miss, owner-snoc c links.rows _)
          (elim (Bool-cases (d == c)) [
            | inl same ↦ rw same (is_some-or_else (owner c links.rows) (some k))
            | inr other ↦ rw other (is_some-or_else (owner c links.rows) none)
          ])
  ]

  owner-insert_link :
      (c : ℕ) (links : Table LinkRow)
      → (d == c) ≡ false
      → owner c (insert_link k d links).rows ≡ owner c links.rows
  unfolding insert_link
  owner-insert_link c links other = elim (Bool-cases (any (λ l. by_social l == d) links.rows)) [
    | inl hit ↦ rw (hit, owner-update c links.rows) (rw other refl)
    | inr miss ↦ rw (miss, owner-snoc c links.rows _) (rw other (or_else-none (owner c links.rows)))
  ]

abbrev any_id : ℕ → List Social.ContactRow → Bool
any_id c = any (λ r. r.id == c)

any_id-unlinked :
    (c : ℕ) (ls : List LinkRow) (rs : List Social.ContactRow)
    → any_id c (keep (λ r. not (is_some (owner r.id ls))) rs)
      ≡ (any_id c rs && not (is_some (owner c ls)))
any_id-unlinked c ls [] = refl
any_id-unlinked c ls (r ∷ rs) = elim (Bool-cases (is_some (owner r.id ls))) [
  | inl old ↦ rw old (elim (Bool-cases (r.id == c)) [
    | inl same ↦
        let old' : is_some (owner c ls) ≡ true = rw (← (==_iff r.id c).0 same) old in
        rw (any_id-unlinked c ls rs, old') (ground arith)
    | inr other ↦ rw other (any_id-unlinked c ls rs)
  ])
  | inr new ↦ rw new (elim (Bool-cases (r.id == c)) [
    | inl same ↦
        let new' : is_some (owner c ls) ≡ false = rw (← (==_iff r.id c).0 same) new in
        rw (same, new') refl
    | inr other ↦ rw other (any_id-unlinked c ls rs)
  ])
]

module _ (js : Runtime) (now : ℕ) where
  brain-create_all :
      (rs : List Social.ContactRow) (db : Crm) → (create_all js now rs db).brain ≡ db.brain
  unfolding create_identity
  brain-create_all [] db = refl
  brain-create_all (r ∷ rs) db =
      brain-create_all rs (create_identity js now r.id (parse_metadata r.metadata_json) db)

  is_some-create_all :
      (c : ℕ) (rs : List Social.ContactRow) (db : Crm)
      → is_some (owner c (create_all js now rs db).links.rows)
        ≡ (is_some (owner c db.links.rows) || any_id c rs)
  unfolding create_identity
  is_some-create_all c [] db = sym (or-false _)
  is_some-create_all c (r ∷ rs) db =
      is_some-create_all c rs (create_identity js now r.id (parse_metadata r.metadata_json) db)
      ∙ rw (is_some-insert_link (suc db.crm_contacts.seq) r.id c db.links)
          (or_assoc (is_some (owner c db.links.rows)) (r.id == c) (any_id c rs))

  owner-create_all :
      (c : ℕ) (rs : List Social.ContactRow) (db : Crm)
      → any_id c rs ≡ false
      → owner c (create_all js now rs db).links.rows ≡ owner c db.links.rows
  unfolding create_identity
  owner-create_all c [] db h = refl
  owner-create_all c (r ∷ rs) db h =
      owner-create_all c rs (create_identity js now r.id (parse_metadata r.metadata_json) db)
        (ground (arith, h))
      ∙ owner-insert_link (suc db.crm_contacts.seq) r.id c db.links (ground (arith, h))

  length-create_all :
      (rs : List Social.ContactRow) (db : Crm)
      → length (create_all js now rs db).crm_contacts.rows ≡ length db.crm_contacts.rows + length rs
  unfolding create_identity insert
  length-create_all [] db = ground arith
  length-create_all (r ∷ rs) db =
      length-create_all rs (create_identity js now r.id (parse_metadata r.metadata_json) db)
      ∙ rw (length-append db.crm_contacts.rows _) (omega arith)

  owner-sync :
      (c : ℕ) (db : Crm)
      → or_else (owner c db.links.rows) (owner c (sync js now db).links.rows)
        ≡ owner c (sync js now db).links.rows
  unfolding sync unlinked
  owner-sync c db = elim (Option-cases (owner c db.links.rows)) [
    | inl e ↦ rw e refl
    | inr (k, e) ↦ rw e (
        sym (
          owner-create_all c (unlinked db) db
            (any_id-unlinked c db.links.rows db.brain.contacts.rows ∙ rw e (and-false _))
          ∙ e))
  ]

  covered :
      (db : Crm) (rs : List Social.ContactRow)
      → All (λ r. any_id r.id db.brain.contacts.rows ≡ true) rs
      → All (λ r. is_some (owner r.id (sync js now db).links.rows) ≡ true) rs
  unfolding sync unlinked
  covered db [] h = tt
  covered db (r ∷ rs) h = (
    is_some-create_all r.id (unlinked db) db
        ∙ rw (any_id-unlinked r.id db.links.rows db.brain.contacts.rows, h.0)
            (or-not_self (is_some (owner r.id db.links.rows))),
    covered db rs h.1,
  )

any_id-mem :
    (r : Social.ContactRow) (rs : List Social.ContactRow) → Memᴰ r rs → any_id r.id rs ≡ true
any_id-mem r [] m = elim m [ ]
any_id-mem r (x ∷ rs) (Memᴰ.head e) = rw (← e) (rw ((==_iff r.id r.id).1 refl) refl)
any_id-mem r (x ∷ rs) (Memᴰ.tail m) = ground (arith, any_id-mem r rs m)

not-All :
    {A : Type 0} (p : A → Bool) (xs : List A)
    → All (λ x. p x ≡ true) xs
    → All (λ x. not (p x) ≡ false) xs
not-All p [] h = tt
not-All p (x ∷ xs) h = (rw (h.0) refl, not-All p xs h.1)

module _ (js : Runtime) (now : ℕ) (db : Crm) where
  pub sync-covers :
      All (λ r. is_some (owner r.id (sync js now db).links.rows) ≡ true) db.brain.contacts.rows
  sync-covers =
      covered js now db db.brain.contacts.rows
        (All-of_mem _ db.brain.contacts.rows (λ r m. any_id-mem r db.brain.contacts.rows m))

  brain-sync : (sync js now db).brain ≡ db.brain
  unfolding sync
  brain-sync = brain-create_all js now (unlinked db) db

  nothing_unlinked : unlinked (sync js now db) ≡ []
  unfolding unlinked
  nothing_unlinked =
      rw brain-sync
        (keep-out _ db.brain.contacts.rows (not-All _ db.brain.contacts.rows sync-covers))

  -- For any store, after `sync` every contact of a platform has an identity, a contact that had
  -- one keeps it, there are as many new identities as contacts that had none, and a further
  -- `sync` at any time changes nothing.
  pub sync-sync :
      (later c : ℕ)
      → All (λ r. is_some (owner r.id (sync js now db).links.rows) ≡ true) db.brain.contacts.rows
        × (or_else (owner c db.links.rows) (owner c (sync js now db).links.rows)
            ≡ owner c (sync js now db).links.rows)
        × (length (sync js now db).crm_contacts.rows
            ≡ length db.crm_contacts.rows + length (unlinked db))
        × (sync js later (sync js now db) ≡ sync js now db)
  unfolding sync
  sync-sync later c = (
    sync-covers,
    owner-sync js now c db,
    length-create_all js now (unlinked db) db,
    rw nothing_unlinked refl,
  )
