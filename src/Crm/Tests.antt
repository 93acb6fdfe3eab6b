-- ===== src/Crm/Tests.antt =====
-- Runs of the CRM.
use openzigs_social.Prelude.{
  ℕ, ◌+◌, ◌*◌, ◌||◌, not, ◌&&◌, ltb, String, true, false, none, some, or_else, [], ◌∷◌, ◌≡◌, refl,
  arith, map, keep, length, is_some, All,
}
use openzigs_social.Sql.{empty_table, find, insert}
use openzigs_social.SocialBrain.Types as Social
use openzigs_social.SocialBrain.Types.{
  MessageRow, inbound, outbound, null_json, parsed_json, object, field, no_fields, number,
}
use openzigs_social.Crm.Email.{Runtime}
use openzigs_social.Crm.LeadScore.{
  LeadScoreInput, Scoring, ratio, top, default_lead_score_weights, score_lead, score_sentiment,
}
use openzigs_social.AutoReply.Decision.{at_least}
use openzigs_social.Effects.{ok}
use openzigs_social.Sql.Order.{sort_by}
use openzigs_social.Crm.Types.{ContactRow, Crm, ContactDetail, manual}
use openzigs_social.Crm.Buckets.{score_lead-top}
use openzigs_social.Crm.Merged.{merge-folds, IsFolded}
use openzigs_social.Crm.Synced.{sync-sync}
use openzigs_social.Crm.Listed.{list_contacts-enrich}
use openzigs_social.Crm.Deleted.{IsUnique, AreContacts, delete_contact-purges, delete_contact-sync}
use openzigs_social.Crm.Repository.{
  owner, get_contact, messages_of, is_owned, at_text, to_timeline, enrich, merge_count,
}
use openzigs_social.Crm.Sync.{sync, merge, unlinked, create_identity, insert_link}
use openzigs_social.Crm.Listing.{list_contacts, page}
use openzigs_social.Crm.Gdpr.{Store, Receipt, delete_contact}

abbrev js : Runtime
js = record { trim_lower = λ s. s; match_emails = λ s. s ∷ []; parse_int = λ s. none }

abbrev scoring : Scoring
scoring = record { tokenize = λ s. s ∷ []; log_ratio = λ m n. ratio m n }

abbrev busy : LeadScoreInput
busy = record { engagement_count = 31; follower_count = 0; recent_messages = "good" ∷ "hi" ∷ [] }

neutral : at_least (score_sentiment scoring busy.recent_messages) (ratio 1 2) ≡ true
unfolding score_sentiment
neutral = refl

score_lead-top_example : (score_lead scoring busy default_lead_score_weights).bucket ≡ top
score_lead-top_example = score_lead-top scoring busy (omega arith) neutral

-- Two accounts of one person, one of them with an identity, and an identity beside it.
abbrev social : ℕ → String → Social.ContactRow
social k name = record {
  id = k;
  platform = "x";
  platform_contact_id = name;
  handle = some name;
  display_name = none;
  avatar_url = none;
  metadata_json = parsed_json (object (field "followers" (number (ratio 7 1)) no_fields));
  created_at = 1;
  updated_at = 1;
}

abbrev message : ℕ → ℕ → String → MessageRow
message k c body = record {
  id = k;
  platform = "x";
  platform_message_id = body;
  thread_id = none;
  contact_id = some c;
  direction = inbound;
  body = body;
  metadata_json = null_json;
  sent_at = none;
  created_at = 10 * k;
  updated_at = 100;
}

abbrev identity : ℕ → String → ContactRow
identity k email = record {
  id = k;
  display_name = none;
  email = some email;
  follower_count = k;
  metadata = none;
  created_at = 1;
  updated_at = k;
}

abbrev crm : Crm
crm = record {
  brain = record {
    contacts = record { rows = social 1 "ann" ∷ social 2 "anna" ∷ social 3 "bob" ∷ []; seq = 3 };
    threads = empty_table;
    messages = record {
      rows = message 1 1 "hi" ∷ message 2 2 "good" ∷ message 3 3 "b@x" ∷ [];
      seq = 3;
    };
  };
  crm_contacts = record { rows = identity 1 "" ∷ identity 2 "a@x" ∷ []; seq = 2 };
  links = record {
    rows =
        record { id = 1; crm_contact_id = 1; social_contact_id = 1 }
        ∷ record { id = 2; crm_contact_id = 2; social_contact_id = 2 }
        ∷ [];
    seq = 2;
  };
  merges = empty_table;
}

there_1 : get_contact 1 crm ≡ some (identity 1 "")
unfolding get_contact find
there_1 = refl

there_2 : get_contact 2 crm ≡ some (identity 2 "a@x")
unfolding get_contact find
there_2 = refl

merge-folds_example :
    let done = merge js scoring 50 default_lead_score_weights 1 2 manual crm in
    (get_contact 2 done.1 ≡ none)
    × (messages_of 2 done.1 ≡ [])
    × (detail : ContactDetail) × (done.0 ≡ ok detail)
    × IsFolded js scoring 50 default_lead_score_weights 1 2 manual crm
        (identity 1 "")
        (identity 2 "a@x")
        (omega arith)
        there_1
        there_2
        detail.scored.contact
    × (detail.timeline
        ≡ map to_timeline (
            sort_by at_text (
              keep
                (λ m. is_owned 1 crm.links.rows m || is_owned 2 crm.links.rows m)
                crm.brain.messages.rows)))
merge-folds_example =
    merge-folds js scoring 50 default_lead_score_weights 1 2 manual crm (identity 1 "")
      (identity 2 "a@x") (omega arith) there_1 there_2

-- The third account gets an identity of its own.
sync-sync_example :
    All (λ r. is_some (owner r.id (sync js 60 crm).links.rows) ≡ true) crm.brain.contacts.rows
    × (or_else (owner 2 crm.links.rows) (owner 2 (sync js 60 crm).links.rows)
        ≡ owner 2 (sync js 60 crm).links.rows)
    × (length (sync js 60 crm).crm_contacts.rows
        ≡ length crm.crm_contacts.rows + length (unlinked crm))
    × (sync js 70 (sync js 60 crm) ≡ sync js 60 crm)
sync-sync_example = sync-sync js 60 crm 70 2

owner_3 : owner 3 (sync js 60 crm).links.rows ≡ some 3
unfolding sync unlinked owner create_identity insert_link insert
owner_3 = refl

list_contacts-enrich_example :
    list_contacts js scoring 60 default_lead_score_weights (some 2) none crm ≡ (
      map
          (enrich scoring 60 default_lead_score_weights (sync js 60 crm))
          (page (some 2) none (sync js 60 crm)),
      sync js 60 crm,
    )
list_contacts-enrich_example =
    list_contacts-enrich js scoring 60 default_lead_score_weights (some 2) none crm

abbrev store : Store
store = record { crm = crm; audits = empty_table; insights = empty_table }

abbrev text : ℕ → String
text k = "2"

are_contacts : AreContacts crm crm.links.rows
unfolding find
are_contacts = (refl, (refl, tt))

unique : IsUnique crm.links.rows
unfolding IsUnique owner
unique = (refl, (refl, tt))

no_merges : (not false && ltb 0 (merge_count 2 crm)) ≡ false
no_merges = refl

delete_contact-purges_example :
    let done = delete_contact text 80 2 false store in
    (receipt : Receipt) × (done.0 ≡ ok receipt)
    × (get_contact 2 done.1.crm ≡ none)
    × (done.1.crm.brain.messages.rows
        ≡ keep (λ m. not (is_owned 2 crm.links.rows m)) crm.brain.messages.rows)
    × (done.1.crm.brain.contacts ≡ crm.brain.contacts)
delete_contact-purges_example =
    delete_contact-purges text 80 2 false store (identity 2 "a@x") there_2 no_merges are_contacts
      unique

delete_contact-sync_example :
    All
      (λ r.
        is_some (owner r.id (sync js 90 (delete_contact text 80 2 false store).1.crm).links.rows)
        ≡ true)
      crm.brain.contacts.rows
delete_contact-sync_example = delete_contact-sync text 80 2 false store js 90
