-- ===== src/Crm/Merged.antt =====
-- Lemmas on merge of crm/repository.ts: what the survivor has afterwards.
use openzigs_social.Prelude.{
  ℕ, false, not, ◌||◌, none, some, List, [], ◌∷◌, ◌≡◌, ◌≢◌, refl, ◌∙◌, inl, inr, arith, map, keep,
  ◌==◌, max, or_else, if◌then◌else◌, Option-cases,
}
use mathlib.Core.Option
use openzigs_social.Effects.{ok}
use openzigs_social.Sql.{update_rows, find}
use openzigs_social.Sql.Laws.{find-update_rows, find-key}
use openzigs_social.Sql.Order.{sort_by}
use openzigs_social.SocialBrain.Types.{MessageRow}
use openzigs_social.Crm.Email.{Runtime, normalize_email}
use openzigs_social.Crm.LeadScore.{LeadScoreWeights, Scoring}
use openzigs_social.Crm.Types.{
  ContactRow, CrmContact, LinkRow, MergeMode, Crm, ContactDetail, contact_id,
}
use openzigs_social.Crm.Repository.{
  at_text, owner, is_owned, by_crm, get_contact, messages_of, to_timeline, timeline, enrich,
  get_contact_detail,
}
use openzigs_social.Crm.Sync.{fold_into, fold_source, merge}

module _ {Row : Type 0} (key : Row → ℕ) where
  find-delete_other :
      (b k : ℕ) (rs : List Row)
      → (k == b) ≡ false
      → find key k (keep (λ r. not (key r == b)) rs) ≡ find key k rs
  unfolding find
  find-delete_other b k [] e = refl
  find-delete_other b k (r ∷ rs) e = ground (arith, find-delete_other b k rs e)

  pub find-delete_own :
      (b : ℕ) (rs : List Row) → find key b (keep (λ r. not (key r == b)) rs) ≡ none
  unfolding find
  find-delete_own b [] = refl
  find-delete_own b (r ∷ rs) = ground (arith, find-delete_own b rs)

module _ (a b : ℕ) (distinct : (a == b) ≡ false) where
  repoint : ℕ → ℕ
  repoint k = if k == b then a else k

  folded : List LinkRow → List LinkRow
  unfolding update_rows
  folded ls =
      keep (λ l. not (by_crm l == b))
        (update_rows (λ l. by_crm l == b) (λ l. record l { crm_contact_id = a }) ls)

  owner-folded : (c : ℕ) (ls : List LinkRow) → owner c (folded ls) ≡ Option.map repoint (owner c ls)
  unfolding owner folded repoint
  owner-folded c [] = refl
  owner-folded c (l ∷ ls) = ground (arith, owner-folded c ls, distinct)

  is_owned-survivor :
      (ls : List LinkRow) (m : MessageRow)
      → is_owned a (folded ls) m ≡ (is_owned a ls m || is_owned b ls m)
  unfolding repoint
  is_owned-survivor ls m = elim (Option-cases m.contact_id) [
    | inl n ↦ rw n refl
    | inr (c, e) ↦
        rw (e, owner-folded c ls)
          (elim (Option-cases (owner c ls)) [
            | inl n ↦ rw n refl
            | inr (k, e') ↦ rw e' (ground (arith, distinct))
          ])
  ]

  is_owned-source : (ls : List LinkRow) (m : MessageRow) → is_owned b (folded ls) m ≡ false
  unfolding repoint
  is_owned-source ls m = elim (Option-cases m.contact_id) [
    | inl n ↦ rw n refl
    | inr (c, e) ↦
        rw (e, owner-folded c ls)
          (elim (Option-cases (owner c ls)) [
            | inl n ↦ rw n refl
            | inr (k, e') ↦ rw e' (ground (arith, distinct))
          ])
  ]

keep-none : {A : Type 0} (xs : List A) → keep (λ x. false) xs ≡ []
keep-none [] = refl
keep-none (x ∷ xs) = keep-none xs

module _ (js : Runtime) (scoring : Scoring) (now : ℕ) (w : LeadScoreWeights) (a b : ℕ)
    (mode : MergeMode) (db : Crm) (s t : CrmContact) (distinct : a ≢ b)
    (hs : get_contact a db ≡ some s) (ht : get_contact b db ≡ some t) where
  abbrev survivor : ContactRow
  survivor = record (fold_into js s t s) { updated_at = now }

  abbrev after : Crm
  after = fold_source js now mode s t db

  distinct_ids : (a == b) ≡ false
  distinct_ids = ground (arith, distinct)

  id-survivor : s.id ≡ a
  unfolding get_contact
  id-survivor = find-key contact_id a db.crm_contacts.rows s hs

  id-source : t.id ≡ b
  unfolding get_contact
  id-source = find-key contact_id b db.crm_contacts.rows t ht

  links-after : after.links.rows ≡ folded a b distinct_ids db.links.rows
  unfolding fold_source folded
  links-after = rw (id-survivor, id-source) refl

  get_contact-survivor : get_contact a after ≡ some survivor
  unfolding fold_source get_contact
  get_contact-survivor =
      rw (id-survivor, id-source)
        (find-delete_other contact_id b a _ distinct_ids
          ∙ find-update_rows contact_id (λ r. r.id == a)
              (λ r. record (fold_into js s t r) { updated_at = now }) (λ r. refl) a
              db.crm_contacts.rows
          ∙ rw hs (ground (arith, id-survivor)))

  get_contact-source : get_contact b after ≡ none
  unfolding fold_source get_contact
  get_contact-source = rw id-source (find-delete_own contact_id b _)

  messages-survivor :
      messages_of a after
      ≡ keep (λ m. is_owned a db.links.rows m || is_owned b db.links.rows m) db.brain.messages.rows
  unfolding fold_source
  messages-survivor =
      rw links-after (λ i.
        keep (λ m. is_owned-survivor a b distinct_ids db.links.rows m i) db.brain.messages.rows)

  messages-source : messages_of b after ≡ []
  unfolding fold_source
  messages-source =
      rw links-after
        (λ i. keep (λ m. is_owned-source a b distinct_ids db.links.rows m i) db.brain.messages.rows)
      ∙ keep-none db.brain.messages.rows

  -- The survivor afterwards, column by column.
  abbrev pub IsFolded : ContactRow → Type 0
  IsFolded c =
      (c.id ≡ a)
      × (c.display_name ≡ or_else s.display_name t.display_name)
      × (c.email ≡ or_else (normalize_email js s.email) (normalize_email js t.email))
      × (c.follower_count ≡ max s.follower_count t.follower_count)
      × (c.metadata ≡ s.metadata)
      × (c.created_at ≡ s.created_at)
      × (c.updated_at ≡ now)

  -- If two different identities are in the store, merging the second into the first does not
  -- throw: it returns the details of the survivor, whose name and email are its own or else the
  -- source's, whose follower count is the larger and whose metadata are its own, and whose
  -- timeline holds exactly the messages that either had, in the order of the texts of their
  -- times; the source is gone and owns no message.
  pub merge-folds :
      let done = merge js scoring now w a b mode db in
      (get_contact b done.1 ≡ none)
      × (messages_of b done.1 ≡ [])
      × (detail : ContactDetail) × (done.0 ≡ ok detail)
      × IsFolded detail.scored.contact
      × (detail.timeline
          ≡ map to_timeline (
              sort_by at_text (
                keep
                  (λ m. is_owned a db.links.rows m || is_owned b db.links.rows m)
                  db.brain.messages.rows)))
  unfolding merge timeline get_contact_detail enrich
  merge-folds =
      rw (distinct_ids, hs, ht, get_contact-survivor, messages-survivor)
        (
          get_contact-source,
          messages-source,
          _,
          refl,
          (id-survivor, refl, refl, refl, refl, refl, refl),
          refl,
        )
