-- ===== src/Crm/Repository.antt =====
-- crm/repository.ts: the methods of CrmRepository for one identity. `now` is the reading of
-- datetime('now'), and of julianday('now'), in the statements of a call.
use openzigs_social.Prelude.{
  ℕ, ◌+◌, ◌-◌, ◌*◌, ◌/◌, ◌%◌, String, Bool, ◌&&◌, Option, none, some, get_or, List, [], ◌∷◌, map,
  keep, take, leb, ltb, ◌==◌, if◌then◌else◌, length,
}
use mathlib.Core.Option
use openzigs_social.Sql.{find}
use openzigs_social.Sql.Order.{sort_by}
use openzigs_social.Sql.Newest.{sort_newest}
use openzigs_social.SocialBrain.Types as Social
use openzigs_social.SocialBrain.Types.{MessageRow, parse_metadata}
use openzigs_social.SocialBrain.Repository as Brain
use openzigs_social.Crm.LeadScore.{LeadScoreWeights, Scoring, LeadScore, score_lead}
use openzigs_social.Crm.Types.{
  CrmContact, LinkRow, Crm, LinkedAccount, TimelineMessage, ScoredContact, ContactDetail,
  contact_id,
}

-- Seconds of the sliding window, `-N days`.
unfoldable pub window_days : ℕ → ℕ
window_days days = if ltb 0 days then days else 7

abbrev pub since : ℕ → LeadScoreWeights → ℕ
since now w = now - window_days w.engagement_window_days * 86400

abbrev pub at : MessageRow → ℕ
at m = get_or m.sent_at m.created_at

-- The place of a message in the order of the texts COALESCE(sent_at, created_at): of one day, the
-- readings of datetime('now'), with a space behind the date, come before the times that a platform
-- gives, with a T there.
abbrev pub text_rank : Option ℕ → ℕ → ℕ
text_rank none created_at = created_at / 86400 * 2 * 86400 + created_at % 86400
text_rank (some sent_at) created_at = (sent_at / 86400 * 2 + 1) * 86400 + sent_at % 86400

abbrev pub at_text : MessageRow → ℕ
at_text m = text_rank m.sent_at m.created_at

unfoldable pub get_contact : ℕ → Crm → Option CrmContact
get_contact k db = find contact_id k db.crm_contacts.rows

-- The JOIN with crm_contact_links on a social contact, which has one link at most by its UNIQUE index.
unfoldable pub owner : ℕ → List LinkRow → Option ℕ
owner c [] = none
owner c (l ∷ ls) = if l.social_contact_id == c then some l.crm_contact_id else owner c ls

abbrev pub owner_of : List LinkRow → Option ℕ → Option ℕ
owner_of ls none = none
owner_of ls (some c) = owner c ls

abbrev pub is_owned : ℕ → List LinkRow → MessageRow → Bool
is_owned k ls m = Brain.is_number k (owner_of ls m.contact_id)

abbrev pub messages_of : ℕ → Crm → List MessageRow
messages_of k db = keep (is_owned k db.links.rows) db.brain.messages.rows

-- The JOIN with social_contacts; the foreign key says that the contact is there.
abbrev pub to_account : LinkRow → Social.ContactRow → LinkedAccount
to_account l c = record {
  social_contact_id = l.social_contact_id;
  platform = c.platform;
  platform_contact_id = c.platform_contact_id;
  handle = c.handle;
  display_name = c.display_name;
  avatar_url = c.avatar_url;
}

abbrev pub accounts : Crm → List LinkRow → List LinkedAccount
accounts db [] = []
accounts db (l ∷ ls) = elim (find Brain.contact_id l.social_contact_id db.brain.contacts.rows) [
  | none ↦ accounts db ls
  | some c ↦ to_account l c ∷ accounts db ls
]

abbrev pub by_social : LinkRow → ℕ
by_social l = l.social_contact_id

abbrev pub by_crm : LinkRow → ℕ
by_crm l = l.crm_contact_id

unfoldable pub linked_accounts : ℕ → Crm → List LinkedAccount
unfolding sort_by
linked_accounts k db = accounts db (sort_by by_social (keep (λ l. by_crm l == k) db.links.rows))

abbrev pub is_recent : ℕ → MessageRow → Bool
is_recent start m = leb start (at m)

unfoldable pub engagement_count : ℕ → LeadScoreWeights → ℕ → Crm → ℕ
unfolding owner
engagement_count now w k db =
    length
      (keep (λ m. is_owned k db.links.rows m && is_recent (since now w) m) db.brain.messages.rows)

unfoldable pub recent_bodies : ℕ → LeadScoreWeights → ℕ → Crm → List String
unfolding sort_newest owner
recent_bodies now w k db =
    map (λ m. m.body)
      (take 50 (
        sort_newest at_text (
          keep (λ m. is_owned k db.links.rows m && is_recent (since now w) m)
            db.brain.messages.rows)))

abbrev pub to_timeline : MessageRow → TimelineMessage
to_timeline m = record {
  id = m.id;
  platform = m.platform;
  direction = m.direction;
  body = m.body;
  at = at m;
}

unfoldable pub timeline : ℕ → Crm → List TimelineMessage
unfolding sort_by owner
timeline k db = map to_timeline (sort_by at_text (messages_of k db))

abbrev pub merge_count : ℕ → Crm → ℕ
merge_count k db = length (keep (λ m. m.survivor_id == k) db.merges.rows)

module _ (js : Scoring) where
  unfoldable pub score_contact : ℕ → LeadScoreWeights → ℕ → ℕ → Crm → ℕ × LeadScore
  unfolding engagement_count recent_bodies score_lead
  score_contact now w k follower_count db =
      let engagement_count' = engagement_count now w k db in
      (
        engagement_count',
        score_lead js
            (record {
              engagement_count = engagement_count';
              follower_count = follower_count;
              recent_messages = recent_bodies now w k db;
            })
            w,
      )

  unfoldable pub enrich : ℕ → LeadScoreWeights → Crm → CrmContact → ScoredContact
  unfolding score_contact linked_accounts
  enrich now w db contact =
      let (engagement_count', lead_score) =
        score_contact now w contact.id contact.follower_count db in
      record {
        contact = contact;
        linked_accounts = linked_accounts contact.id db;
        engagement_count = engagement_count';
        lead_score = lead_score;
      }

  unfoldable pub get_contact_detail : ℕ → LeadScoreWeights → ℕ → Crm → Option ContactDetail
  unfolding get_contact enrich timeline
  get_contact_detail now w k db =
      Option.map
        (λ contact. record {
          scored = enrich now w db contact;
          timeline = timeline k db;
          merge_count = merge_count k db;
        })
        (get_contact k db)
