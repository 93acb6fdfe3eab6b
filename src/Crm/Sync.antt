-- ===== src/Crm/Sync.antt =====
-- crm/repository.ts: sync and what it creates, merge, suggestedMerges and listMerges.
use openzigs_social.Prelude.{
  ℕ, max, min, String, Bool, false, ◌||◌, ◌++◌, str_eq, length, not, Option, none, some, or_else,
  List, [], ◌∷◌, map, keep, take, drop, any, ltb, ◌==◌, if◌then◌else◌, is_some,
}
use mathlib.Core.List.{reverse}
use openzigs_social.Effects.{Exec, err, or_throw}
use openzigs_social.Sql.{Table, insert, update_where, delete_where, find}
use openzigs_social.Sql.Newest.{sort_newest}
use openzigs_social.SocialBrain.Types as Social
use openzigs_social.SocialBrain.Types.{MessageRow, Fields, parse_metadata}
use openzigs_social.SocialBrain.Repository as Brain
use openzigs_social.Crm.Email.{Runtime, normalize_email, discover_email, discover_follower_count}
use openzigs_social.Crm.LeadScore.{LeadScoreWeights, Scoring}
use openzigs_social.Crm.Types.{
  ContactRow, CrmContact, LinkRow, MergeMode, MergeRecord, Crm, ContactDetail, SuggestedMerge,
  MergeError, into_itself, survivor_not_found, source_not_found, survivor_vanished,
}
use openzigs_social.Crm.Repository.{at, owner, by_social, by_crm, get_contact, get_contact_detail}

unfoldable pub bodies_for : ℕ → Crm → List String
unfolding sort_newest
bodies_for c db =
    map (λ m. m.body)
      (take 50 (sort_newest at (keep (λ m. Brain.is_number c m.contact_id) db.brain.messages.rows)))

unfoldable pub display_name_for : ℕ → Crm → Option String
display_name_for c db = elim (find Brain.contact_id c db.brain.contacts.rows) [
  | none ↦ none
  | some r ↦ or_else r.display_name r.handle
]

-- `insertLink`, an upsert on the social contact.
unfoldable pub insert_link : ℕ → ℕ → Table LinkRow → Table LinkRow
unfolding insert update_where
insert_link k c links =
    if any (λ l. by_social l == c) links.rows
    then update_where (λ l. by_social l == c) (λ l. record l { crm_contact_id = k }) links
    else insert (λ i. record { id = i; crm_contact_id = k; social_contact_id = c }) links

unfoldable pub unlinked : Crm → List Social.ContactRow
unfolding owner
unlinked db = keep (λ r. not (is_some (owner r.id db.links.rows))) db.brain.contacts.rows

module _ (js : Runtime) where
  unfoldable pub create_identity : ℕ → ℕ → Option Fields → Crm → Crm
  unfolding bodies_for display_name_for discover_email discover_follower_count insert insert_link
  create_identity now c metadata db =
      let contacts =
        insert
          (λ i. record {
            id = i;
            display_name = display_name_for c db;
            email = discover_email js metadata (bodies_for c db);
            follower_count = discover_follower_count js metadata;
            metadata = none;
            created_at = now;
            updated_at = now;
          })
          db.crm_contacts in
      record db { crm_contacts = contacts; links = insert_link contacts.seq c db.links }

  abbrev pub create_all : ℕ → List Social.ContactRow → Crm → Crm
  create_all now [] db = db
  create_all now (r ∷ rs) db =
      create_all now rs (create_identity now r.id (parse_metadata r.metadata_json) db)

  unfoldable pub sync : ℕ → Crm → Crm
  unfolding unlinked create_identity
  sync now db = create_all now (unlinked db) db

-- DELETE FROM crm_contacts, and the links by their foreign key's ON DELETE CASCADE.
unfoldable pub delete_contact : ℕ → Crm → Crm
unfolding delete_where
delete_contact k db = record db {
  crm_contacts = delete_where (λ r. r.id == k) db.crm_contacts;
  links = delete_where (λ l. by_crm l == k) db.links;
}

unfoldable pub repoint_links : ℕ → ℕ → Crm → Crm
unfolding update_where
repoint_links survivor source db = record db {
  links =
      update_where (λ l. by_crm l == source) (λ l. record l { crm_contact_id = survivor }) db.links;
}

module _ (js : Runtime) where
  abbrev pub fold_into : CrmContact → CrmContact → ContactRow → ContactRow
  fold_into survivor source r = record r {
    display_name = or_else survivor.display_name source.display_name;
    email = or_else (normalize_email js survivor.email) (normalize_email js source.email);
    follower_count = max survivor.follower_count source.follower_count;
    metadata = survivor.metadata;
  }

  -- The transaction of `merge`.
  unfoldable pub fold_source : ℕ → MergeMode → CrmContact → CrmContact → Crm → Crm
  unfolding repoint_links update_where insert delete_contact normalize_email
  fold_source now mode survivor source db =
      let repointed = repoint_links survivor.id source.id db in
      let updated = record repointed {
        crm_contacts =
            update_where (λ r. r.id == survivor.id)
              (λ r. record (fold_into survivor source r) { updated_at = now })
              repointed.crm_contacts;
        merges =
            insert
              (λ i. record {
                id = i;
                survivor_id = survivor.id;
                source_id = source.id;
                mode = mode;
                created_at = now;
              })
              repointed.merges;
      } in
      delete_contact source.id updated

module _ (js : Runtime) (scoring : Scoring) where
  unfoldable pub merge :
      ℕ → LeadScoreWeights → ℕ → ℕ → MergeMode → Exec Crm MergeError ContactDetail
  unfolding get_contact fold_source get_contact_detail
  merge now w survivor_id source_id mode db =
      if survivor_id == source_id
      then (err into_itself, db)
      else elim (get_contact survivor_id db) [
        | none ↦ (err (survivor_not_found survivor_id), db)
        | some survivor ↦ elim (get_contact source_id db) [
          | none ↦ (err (source_not_found source_id), db)
          | some source ↦
              let merged = fold_source js now mode survivor source db in
              or_throw (survivor_vanished survivor_id)
                (get_contact_detail scoring now w survivor_id merged) merged
        ]
      ]

-- A positive limit, or the fallback, and 500 at most.
unfoldable pub normalize_limit : Option ℕ → ℕ → ℕ
normalize_limit none fallback = fallback
normalize_limit (some limit) fallback = if ltb 0 limit then min limit 500 else fallback

unfoldable pub list_merges : ℕ → ℕ → Crm → List MergeRecord
unfolding normalize_limit
list_merges limit offset db =
    take (normalize_limit (some limit) 100) (drop offset (reverse db.merges.rows))

abbrev pub has_email : String → ContactRow → Bool
has_email e r = elim r.email [ none ↦ false | some f ↦ str_eq f e ]

-- The pairs of the two loops over a group.
abbrev pub pairs : String → List CrmContact → List SuggestedMerge
pairs e [] = []
pairs e (first ∷ rest) =
    map (λ second. record { email = e; first = first; second = second }) rest ++ pairs e rest

abbrev pub pairs_of : Crm → List String → List SuggestedMerge
pairs_of db [] = []
pairs_of db (e ∷ es) = pairs e (keep (has_email e) db.crm_contacts.rows) ++ pairs_of db es

-- The emails that are not empty, each once.
abbrev pub emails : List ContactRow → List String → List String
emails [] seen = seen
emails (r ∷ rs) seen = emails rs (elim r.email [
  | none ↦ seen
  | some e ↦ if str_eq e "" || any (λ s. str_eq s e) seen then seen else seen ++ e ∷ []
])

-- `sort_texts` is ORDER BY on a text.
unfoldable pub suggested_merges :
    Runtime → (List String → List String) → ℕ → Crm → List SuggestedMerge × Crm
unfolding sync
suggested_merges js sort_texts now db =
    let synced = sync js now db in
    let shared =
      keep (λ e. ltb 1 (length (keep (has_email e) synced.crm_contacts.rows)))
        (emails synced.crm_contacts.rows []) in
    (pairs_of synced (sort_texts shared), synced)
