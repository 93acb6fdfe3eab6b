-- ===== src/Crm/Types.antt =====
-- crm/repository.ts: the rows, and what the repository returns. A timestamp is a number of seconds, and
-- `COALESCE(sent_at, created_at)` one of them: times are taken to be written in one format, so that they
-- are ordered as texts as they are as times.
use openzigs_social.Prelude.{ℕ, String, Option, List}
use openzigs_social.Sql.{Table}
use openzigs_social.SocialBrain.Types.{Fields, MessageDirection}
use openzigs_social.SocialBrain.Repository.{SocialBrain}
use openzigs_social.Crm.LeadScore.{LeadScore}

pub record ContactRow : Type 0 where
  pub id : ℕ
  pub display_name : Option String
  pub email : Option String
  pub follower_count : ℕ
  pub metadata : Option Fields
  pub created_at : ℕ
  pub updated_at : ℕ

-- `toContact` keeps each field.
abbrev pub CrmContact : Type 0
CrmContact = ContactRow

pub record LinkRow : Type 0 where
  pub id : ℕ
  pub crm_contact_id : ℕ
  pub social_contact_id : ℕ

pub data MergeMode : Type 0 where
  manual suggested : MergeMode

pub record MergeRecord : Type 0 where
  pub id : ℕ
  pub survivor_id : ℕ
  pub source_id : ℕ
  pub mode : MergeMode
  pub created_at : ℕ

pub record Crm : Type 0 where
  pub brain : SocialBrain
  pub crm_contacts : Table ContactRow
  pub links : Table LinkRow
  pub merges : Table MergeRecord

pub record LinkedAccount : Type 0 where
  pub social_contact_id : ℕ
  pub platform : String
  pub platform_contact_id : String
  pub handle : Option String
  pub display_name : Option String
  pub avatar_url : Option String

pub record TimelineMessage : Type 0 where
  pub id : ℕ
  pub platform : String
  pub direction : MessageDirection
  pub body : String
  pub at : ℕ

pub record ScoredContact : Type 0 where
  pub contact : CrmContact
  pub linked_accounts : List LinkedAccount
  pub engagement_count : ℕ
  pub lead_score : LeadScore

pub record ContactDetail : Type 0 where
  pub scored : ScoredContact
  pub timeline : List TimelineMessage
  pub merge_count : ℕ

pub record SuggestedMerge : Type 0 where
  pub email : String
  pub first : CrmContact
  pub second : CrmContact

pub data MergeError : Type 0 where
  into_itself : MergeError
  survivor_not_found source_not_found survivor_vanished : ℕ → MergeError

abbrev pub contact_id : ContactRow → ℕ
contact_id r = r.id

abbrev pub link_id : LinkRow → ℕ
link_id r = r.id

abbrev pub merge_id : MergeRecord → ℕ
merge_id r = r.id
