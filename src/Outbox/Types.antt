-- ===== src/Outbox/Types.antt =====
-- outbox/repository.ts: the rows of the `outbox` table, the posts that callers see, the statuses
-- and the table of legal transitions.
use openzigs_social.Prelude.{ℕ, String, Bool, true, false, Option, List, [], ◌∷◌, any}

pub data OutboxStatus : Type 0 where
  draft scheduled publishing published failed : OutboxStatus

-- `===` on statuses.
unfoldable pub same_status : OutboxStatus → OutboxStatus → Bool
same_status draft draft = true
same_status scheduled scheduled = true
same_status publishing publishing = true
same_status published published = true
same_status failed failed = true
same_status _ _ = false

pub record OutboxMedia : Type 0 where
  pub url : String
  pub type : String
  pub alt_text : Option String
  pub bytes : Option ℕ

-- The column `media_json`: NULL, the text of an array, the text of some other JSON value, or a text
-- that is no JSON.
pub data MediaJson : Type 0 where
  null_json : MediaJson
  array_json : List OutboxMedia → MediaJson
  other_json malformed_json : MediaJson

pub record OutboxRow : Type 0 where
  pub id : ℕ
  pub platform : String
  pub account_id : Option String
  pub body : String
  pub media_json : MediaJson
  pub status : OutboxStatus
  pub publish_at : Option ℕ
  pub external_id : Option String
  pub attempts : ℕ
  pub last_error : Option String
  pub published_at : Option ℕ
  pub created_at : ℕ
  pub updated_at : ℕ

pub record OutboxPost : Type 0 where
  pub id : ℕ
  pub platform : String
  pub account_id : Option String
  pub body : String
  pub media : List OutboxMedia
  pub status : OutboxStatus
  pub publish_at : Option ℕ
  pub external_id : Option String
  pub attempts : ℕ
  pub last_error : Option String
  pub published_at : Option ℕ
  pub created_at : ℕ
  pub updated_at : ℕ

-- OUTBOX_TRANSITIONS
unfoldable pub transitions : OutboxStatus → List OutboxStatus
transitions draft = scheduled ∷ []
transitions scheduled = draft ∷ publishing ∷ []
transitions publishing = published ∷ failed ∷ []
transitions published = []
transitions failed = scheduled ∷ []

unfoldable pub can_transition : OutboxStatus → OutboxStatus → Bool
unfolding transitions same_status
can_transition from to = any (λ s. same_status s to) (transitions from)

unfoldable pub parse_media : MediaJson → List OutboxMedia
parse_media null_json = []
parse_media (array_json media) = media
parse_media other_json = []
parse_media malformed_json = []

-- `media.length > 0 ? JSON.stringify(media) : null`
unfoldable pub store_media : List OutboxMedia → MediaJson
store_media [] = null_json
store_media (m ∷ ms) = array_json (m ∷ ms)

unfoldable pub to_post : OutboxRow → OutboxPost
unfolding parse_media
to_post row = record {
  id = row.id;
  platform = row.platform;
  account_id = row.account_id;
  body = row.body;
  media = parse_media row.media_json;
  status = row.status;
  publish_at = row.publish_at;
  external_id = row.external_id;
  attempts = row.attempts;
  last_error = row.last_error;
  published_at = row.published_at;
  created_at = row.created_at;
  updated_at = row.updated_at;
}

pub data OutboxError : Type 0 where
  illegal_transition : (from to : OutboxStatus) → OutboxError
  not_found : ℕ → OutboxError

pub record OutboxCreateInput : Type 0 where
  pub platform : String
  pub account_id : Option String
  pub body : Option String
  pub media : Option (List OutboxMedia)
  pub publish_at : Option ℕ

pub record OutboxUpdateInput : Type 0 where
  pub body : Option String
  pub media : Option (List OutboxMedia)
  pub account_id : Option String

-- `status` holds one status or several; `none` is a field that is left out.
pub record OutboxFilter : Type 0 where
  pub status : Option (List OutboxStatus)
  pub platform : Option String
  pub from : Option ℕ
  pub to : Option ℕ
  pub limit : Option ℕ
  pub offset : Option ℕ
