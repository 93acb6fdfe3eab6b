-- ===== src/Crm/Deleted.antt =====
-- Lemmas on deleteContact of crm/gdpr.ts: what is gone, and what is not.
use openzigs_social.Prelude.{
  ℕ, String, Bool, true, false, not, ◌&&◌, ltb, none, some, List, [], ◌∷◌, ◌≡◌, refl, ap, ◌∙◌, inl,
  inr, arith, map, keep, any, ◌==◌, ==_iff, Bool-cases, Option-cases, All, includes, is_some,
}
use mathlib.Core.Bool.{or-false}
use openzigs_social.Effects.{ok}
use openzigs_social.Sql.{find}
use openzigs_social.SocialBrain.Types.{MessageRow}
use openzigs_social.SocialBrain.Repository as Brain
use openzigs_social.Crm.Email.{Runtime}
use openzigs_social.Crm.Types.{LinkRow, Crm, contact_id, CrmContact}
use openzigs_social.Crm.Repository.{
  owner, is_owned, by_crm, by_social, accounts, get_contact, merge_count,
}
use openzigs_social.Crm.Sync.{sync}
use openzigs_social.Crm.Synced.{sync-covers}
use openzigs_social.Crm.Merged.{find-delete_own}
use openzigs_social.Crm.Gdpr.{Store, Receipt, of_contacts, purge, delete_contact}

-- The UNIQUE index on the social contact.
unfoldable pub IsUnique : List LinkRow → Type 0
unfolding owner
IsUnique [] = Unit
IsUnique (l ∷ ls) = (owner (by_social l) ls ≡ none) × IsUnique ls

-- The foreign key to the social contacts.
abbrev pub AreContacts : Crm → List LinkRow → Type 0
AreContacts db =
    All (λ l. is_some (find Brain.contact_id l.social_contact_id db.brain.contacts.rows) ≡ true)

module _ (k c : ℕ) where
  abbrev links_to : List LinkRow → Bool
  links_to = any (λ l. by_social l == c && by_crm l == k)

  includes-accounts :
      (db : Crm) (ls : List LinkRow)
      → AreContacts db ls
      → includes c (map (λ a. a.social_contact_id) (accounts db (keep (λ l. by_crm l == k) ls)))
        ≡ links_to ls
  includes-accounts db [] h = refl
  includes-accounts db (l ∷ ls) h = elim (Bool-cases (by_crm l == k)) [
    | inl hit ↦
        elim (Option-cases (find Brain.contact_id l.social_contact_id db.brain.contacts.rows)) [
          | inl e ↦ cc (rw e at h.0)
          | inr (r, e) ↦
              rw (hit, e, accounts)
                (elim (Bool-cases (by_social l == c)) [
                  | inl same ↦ rw same refl
                  | inr other ↦ rw other (includes-accounts db ls h.1)
                ])
        ]
    | inr miss ↦ rw miss (elim (Bool-cases (by_social l == c)) [
      | inl same ↦ rw same (includes-accounts db ls h.1)
      | inr other ↦ rw other (includes-accounts db ls h.1)
    ])
  ]

  links_to-unlinked : (ls : List LinkRow) → owner c ls ≡ none → links_to ls ≡ false
  unfolding owner
  links_to-unlinked [] h = refl
  links_to-unlinked (l ∷ ls) h = ground (arith, h, links_to-unlinked ls)

  links_to-owner : (ls : List LinkRow) → IsUnique ls → links_to ls ≡ Brain.is_number k (owner c ls)
  unfolding owner IsUnique
  links_to-owner [] h = refl
  links_to-owner (l ∷ ls) h = elim (Bool-cases (by_social l == c)) [
    | inl hit ↦
        let alone : links_to ls ≡ false =
          links_to-unlinked ls (rw (← (==_iff (by_social l) c).0 hit) (h.0)) in
        rw (hit, alone) (or-false (by_crm l == k))
    | inr miss ↦ rw miss (links_to-owner ls h.1)
  ]

module _ (text : ℕ → String) (now k : ℕ) (cascade_merges : Bool) (store : Store) where
  abbrev db : Crm
  db = store.crm

  of_contacts-is_owned :
      AreContacts db db.links.rows
      → IsUnique db.links.rows
      → (m : MessageRow)
      → of_contacts
          (map (λ a. a.social_contact_id) (accounts db (keep (λ l. by_crm l == k) db.links.rows)))
          m
        ≡ is_owned k db.links.rows m
  of_contacts-is_owned there unique m = elim (Option-cases m.contact_id) [
    | inl e ↦ rw e refl
    | inr (c, e) ↦
        rw e
          (includes-accounts k c db db.links.rows there ∙ links_to-owner k c db.links.rows unique)
  ]

  gone : get_contact k (purge text k cascade_merges store).1.crm ≡ none
  unfolding purge get_contact
  gone = find-delete_own contact_id k db.crm_contacts.rows

  contacts-delete_contact :
      (delete_contact text now k cascade_merges store).1.crm.brain.contacts ≡ db.brain.contacts
  unfolding delete_contact
  contacts-delete_contact = elim (Bool-cases (is_some (get_contact k db))) [
    | inr missing ↦ rw missing refl
    | inl there ↦ rw there (elim (Bool-cases (not cascade_merges && ltb 0 (merge_count k db))) [
      | inl stopped ↦ rw stopped refl
      | inr goes_on ↦ rw goes_on refl
    ])
  ]

  -- If an identity is there, its merge history is empty or the deletion cascades, each link is
  -- to a contact that is there and each contact has one link at most, then the deletion
  -- succeeds, the identity is gone, the messages that are left are exactly those that it did not
  -- own, and the contacts of the platforms are unchanged.
  pub delete_contact-purges :
      (contact : CrmContact)
      → get_contact k db ≡ some contact
      → (not cascade_merges && ltb 0 (merge_count k db)) ≡ false
      → AreContacts db db.links.rows
      → IsUnique db.links.rows
      → let done = delete_contact text now k cascade_merges store in
        (receipt : Receipt) × (done.0 ≡ ok receipt)
        × (get_contact k done.1.crm ≡ none)
        × (done.1.crm.brain.messages.rows
            ≡ keep (λ m. not (is_owned k db.links.rows m)) db.brain.messages.rows)
        × (done.1.crm.brain.contacts ≡ db.brain.contacts)
  unfolding delete_contact
  delete_contact-purges contact there guard fk unique =
      rw (there, guard)
        (
          _,
          refl,
          gone,
          (λ i. keep (λ m. not (of_contacts-is_owned fk unique m i)) db.brain.messages.rows),
          refl,
        )

  -- After a deletion, successful or not, the next `sync` gives every contact of a platform that
  -- was there before an identity again, those of the deleted identity included.
  pub delete_contact-sync :
      (js : Runtime) (later : ℕ)
      → All
          (λ r.
            is_some (
              owner r.id
                (sync js later (delete_contact text now k cascade_merges store).1.crm).links.rows)
            ≡ true)
          db.brain.contacts.rows
  delete_contact-sync js later =
      rw (ap (λ t. t.rows) contacts-delete_contact) at
        (sync-covers js later (delete_contact text now k cascade_merges store).1.crm)
