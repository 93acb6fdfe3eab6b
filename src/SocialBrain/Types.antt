-- ===== src/SocialBrain/Types.antt =====
-- platform/social-brain/repository.ts: the rows and what the upserts take. Timestamps are numbers.
use openzigs_social.Prelude.{ℕ, String, Bool, Option, none, some}
use openzigs_social.Retry.Backoff.{Fraction}

-- A parsed JSON value.
mutual
  pub data Json : Type 0 where
    null : Json
    bool : Bool → Json
    number : Fraction → Json
    negative : Fraction → Json
    text : String → Json
    array : Items → Json
    object : Fields → Json

  pub data Items : Type 0 where
    no_items : Items
    item : Json → Items → Items

  pub data Fields : Type 0 where
    no_fields : Fields
    field : String → Json → Fields → Fields

-- A metadata column: NULL, a text that is JSON, or a text that is not.
pub data MetadataJson : Type 0 where
  null_json malformed_json : MetadataJson
  parsed_json : Json → MetadataJson

abbrev pub as_object : Json → Option Fields
as_object (object fields) = some fields
as_object _ = none

unfoldable pub parse_metadata : MetadataJson → Option Fields
parse_metadata null_json = none
parse_metadata malformed_json = none
parse_metadata (parsed_json j) = as_object j

unfoldable pub serialize_metadata : Option Fields → MetadataJson
serialize_metadata none = null_json
serialize_metadata (some fields) = parsed_json (object fields)

-- COALESCE of two metadata columns.
abbrev pub coalesce : MetadataJson → MetadataJson → MetadataJson
coalesce null_json old = old
coalesce malformed_json old = malformed_json
coalesce (parsed_json j) old = parsed_json j

pub data MessageDirection : Type 0 where
  inbound outbound : MessageDirection

pub record ContactRow : Type 0 where
  pub id : ℕ
  pub platform : String
  pub platform_contact_id : String
  pub handle : Option String
  pub display_name : Option String
  pub avatar_url : Option String
  pub metadata_json : MetadataJson
  pub created_at : ℕ
  pub updated_at : ℕ

pub record ThreadRow : Type 0 where
  pub id : ℕ
  pub platform : String
  pub platform_thread_id : String
  pub contact_id : Option ℕ
  pub subject : Option String
  pub last_message_at : Option ℕ
  pub created_at : ℕ
  pub updated_at : ℕ

pub record MessageRow : Type 0 where
  pub id : ℕ
  pub platform : String
  pub platform_message_id : String
  pub thread_id : Option ℕ
  pub contact_id : Option ℕ
  pub direction : MessageDirection
  pub body : String
  pub metadata_json : MetadataJson
  pub sent_at : Option ℕ
  pub created_at : ℕ
  pub updated_at : ℕ

pub record SocialContact : Type 0 where
  pub id : ℕ
  pub platform : String
  pub platform_contact_id : String
  pub handle : Option String
  pub display_name : Option String
  pub avatar_url : Option String
  pub metadata : Option Fields
  pub created_at : ℕ
  pub updated_at : ℕ

-- `toThread` keeps each field.
abbrev pub SocialThread : Type 0
SocialThread = ThreadRow

pub record SocialMessage : Type 0 where
  pub id : ℕ
  pub platform : String
  pub platform_message_id : String
  pub thread_id : Option ℕ
  pub contact_id : Option ℕ
  pub direction : MessageDirection
  pub body : String
  pub metadata : Option Fields
  pub sent_at : Option ℕ
  pub created_at : ℕ
  pub updated_at : ℕ

unfoldable pub to_contact : ContactRow → SocialContact
unfolding parse_metadata
to_contact row = record {
  id = row.id;
  platform = row.platform;
  platform_contact_id = row.platform_contact_id;
  handle = row.handle;
  display_name = row.display_name;
  avatar_url = row.avatar_url;
  metadata = parse_metadata row.metadata_json;
  created_at = row.created_at;
  updated_at = row.updated_at;
}

unfoldable pub to_message : MessageRow → SocialMessage
unfolding parse_metadata
to_message row = record {
  id = row.id;
  platform = row.platform;
  platform_message_id = row.platform_message_id;
  thread_id = row.thread_id;
  contact_id = row.contact_id;
  direction = row.direction;
  body = row.body;
  metadata = parse_metadata row.metadata_json;
  sent_at = row.sent_at;
  created_at = row.created_at;
  updated_at = row.updated_at;
}

pub record UpsertContactInput : Type 0 where
  pub platform : String
  pub platform_contact_id : String
  pub handle : Option String
  pub display_name : Option String
  pub avatar_url : Option String
  pub metadata : Option Fields

pub record UpsertThreadInput : Type 0 where
  pub platform : String
  pub platform_thread_id : String
  pub contact_id : Option ℕ
  pub subject : Option String
  pub last_message_at : Option ℕ

pub record UpsertMessageInput : Type 0 where
  pub platform : String
  pub platform_message_id : String
  pub thread_id : Option ℕ
  pub contact_id : Option ℕ
  pub direction : Option MessageDirection
  pub body : String
  pub metadata : Option Fields
  pub sent_at : Option ℕ
