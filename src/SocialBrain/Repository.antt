-- ===== src/SocialBrain/Repository.antt =====
-- platform/social-brain/repository.ts: the methods of SocialBrainRepository. `now` is the reading of
-- datetime('now') in the statement.
use openzigs_social.Prelude.{
  ℕ, String, Bool, true, false, ◌&&◌, Option, none, some, get_or, or_else, is_some, List, map, take,
  drop, keep, ◌==◌, if◌then◌else◌,
}
use mathlib.Core.Option
use openzigs_social.Effects.{Result, ok, err}
use openzigs_social.Sql.{Table, find}
use openzigs_social.Sql.Upsert.{find_by, upsert}
use openzigs_social.SocialBrain.Types.{
  ContactRow, ThreadRow, MessageRow, SocialContact, SocialThread, SocialMessage, inbound,
  serialize_metadata, coalesce, to_contact, to_message, UpsertContactInput, UpsertThreadInput,
  UpsertMessageInput,
}

pub record SocialBrain : Type 0 where
  pub contacts : Table ContactRow
  pub threads : Table ThreadRow
  pub messages : Table MessageRow

abbrev pub contact_platform : ContactRow → String
contact_platform r = r.platform

abbrev pub contact_key : ContactRow → String
contact_key r = r.platform_contact_id

abbrev pub thread_platform : ThreadRow → String
thread_platform r = r.platform

abbrev pub thread_key : ThreadRow → String
thread_key r = r.platform_thread_id

abbrev pub message_platform : MessageRow → String
message_platform r = r.platform

abbrev pub message_key : MessageRow → String
message_key r = r.platform_message_id

unfoldable pub new_contact : ℕ → UpsertContactInput → ℕ → ContactRow
unfolding serialize_metadata
new_contact now input k = record {
  id = k;
  platform = input.platform;
  platform_contact_id = input.platform_contact_id;
  handle = input.handle;
  display_name = input.display_name;
  avatar_url = input.avatar_url;
  metadata_json = serialize_metadata input.metadata;
  created_at = now;
  updated_at = now;
}

unfoldable pub merge_contact : ℕ → UpsertContactInput → ContactRow → ContactRow
unfolding serialize_metadata
merge_contact now input r = record r {
  handle = or_else input.handle r.handle;
  display_name = or_else input.display_name r.display_name;
  avatar_url = or_else input.avatar_url r.avatar_url;
  metadata_json = coalesce (serialize_metadata input.metadata) r.metadata_json;
  updated_at = now;
}

unfoldable pub get_contact_by_platform_id : String → String → SocialBrain → Option SocialContact
unfolding find_by to_contact
get_contact_by_platform_id platform k db =
    Option.map to_contact (find_by contact_platform contact_key platform k db.contacts.rows)

unfoldable pub upsert_contact :
    ℕ → UpsertContactInput → SocialBrain → Option SocialContact × SocialBrain
unfolding upsert new_contact merge_contact get_contact_by_platform_id
upsert_contact now input db =
    let db' = record db {
      contacts =
          upsert contact_platform contact_key input.platform input.platform_contact_id
            (merge_contact now input) (new_contact now input) db.contacts;
    } in
    (get_contact_by_platform_id input.platform input.platform_contact_id db', db')

abbrev pub contact_id : ContactRow → ℕ
contact_id r = r.id

unfoldable pub get_contact : ℕ → SocialBrain → Option SocialContact
unfolding to_contact
get_contact k db = Option.map to_contact (find contact_id k db.contacts.rows)

-- What a foreign key asks of a value: NULL, or the key of a row.
unfoldable pub refers : {Row : Type 0} → (Row → ℕ) → Option ℕ → Table Row → Bool
refers key none t = true
refers key (some k) t = is_some (find key k t.rows)

-- FOREIGN KEY constraint failed
pub data ConstraintError : Type 0 where
  foreign_key_failed : ConstraintError

unfoldable pub new_thread : ℕ → UpsertThreadInput → ℕ → ThreadRow
new_thread now input k = record {
  id = k;
  platform = input.platform;
  platform_thread_id = input.platform_thread_id;
  contact_id = input.contact_id;
  subject = input.subject;
  last_message_at = input.last_message_at;
  created_at = now;
  updated_at = now;
}

unfoldable pub merge_thread : ℕ → UpsertThreadInput → ThreadRow → ThreadRow
merge_thread now input r = record r {
  contact_id = or_else input.contact_id r.contact_id;
  subject = or_else input.subject r.subject;
  last_message_at = or_else input.last_message_at r.last_message_at;
  updated_at = now;
}

unfoldable pub get_thread_by_platform_id : String → String → SocialBrain → Option SocialThread
unfolding find_by
get_thread_by_platform_id platform k db =
    find_by thread_platform thread_key platform k db.threads.rows

-- The key of the contact is checked on the row that is inserted or updated; a statement that fails
-- throws and leaves the table as it was.
unfoldable pub upsert_thread :
    ℕ → UpsertThreadInput → SocialBrain → Result ConstraintError (Option SocialThread) × SocialBrain
unfolding refers upsert new_thread merge_thread get_thread_by_platform_id
upsert_thread now input db =
    let db' = record db {
      threads =
          upsert thread_platform thread_key input.platform input.platform_thread_id
            (merge_thread now input) (new_thread now input) db.threads;
    } in
    if refers contact_id input.contact_id db.contacts
    then (ok (get_thread_by_platform_id input.platform input.platform_thread_id db'), db')
    else (err foreign_key_failed, db)

abbrev pub thread_id : ThreadRow → ℕ
thread_id r = r.id

unfoldable pub get_thread : ℕ → SocialBrain → Option SocialThread
get_thread k db = find thread_id k db.threads.rows

unfoldable pub new_message : ℕ → UpsertMessageInput → ℕ → MessageRow
unfolding serialize_metadata
new_message now input k = record {
  id = k;
  platform = input.platform;
  platform_message_id = input.platform_message_id;
  thread_id = input.thread_id;
  contact_id = input.contact_id;
  direction = get_or input.direction inbound;
  body = input.body;
  metadata_json = serialize_metadata input.metadata;
  sent_at = input.sent_at;
  created_at = now;
  updated_at = now;
}

unfoldable pub merge_message : ℕ → UpsertMessageInput → MessageRow → MessageRow
unfolding serialize_metadata
merge_message now input r = record r {
  thread_id = or_else input.thread_id r.thread_id;
  contact_id = or_else input.contact_id r.contact_id;
  body = input.body;
  metadata_json = coalesce (serialize_metadata input.metadata) r.metadata_json;
  sent_at = or_else input.sent_at r.sent_at;
  updated_at = now;
}

unfoldable pub get_message_by_platform_id : String → String → SocialBrain → Option SocialMessage
unfolding find_by to_message
get_message_by_platform_id platform k db =
    Option.map to_message (find_by message_platform message_key platform k db.messages.rows)

unfoldable pub upsert_message :
    ℕ
    → UpsertMessageInput
    → SocialBrain
    → Result ConstraintError (Option SocialMessage) × SocialBrain
unfolding refers upsert new_message merge_message get_message_by_platform_id
upsert_message now input db =
    let db' = record db {
      messages =
          upsert message_platform message_key input.platform input.platform_message_id
            (merge_message now input) (new_message now input) db.messages;
    } in
    if refers thread_id input.thread_id db.threads && refers contact_id input.contact_id db.contacts
    then (ok (get_message_by_platform_id input.platform input.platform_message_id db'), db')
    else (err foreign_key_failed, db)

abbrev pub message_id : MessageRow → ℕ
message_id r = r.id

unfoldable pub get_message : ℕ → SocialBrain → Option SocialMessage
unfolding to_message
get_message k db = Option.map to_message (find message_id k db.messages.rows)

abbrev pub is_number : ℕ → Option ℕ → Bool
is_number k none = false
is_number k (some n) = n == k

unfoldable pub list_messages_by_thread : ℕ → Option ℕ → Option ℕ → SocialBrain → List SocialMessage
unfolding to_message
list_messages_by_thread k limit offset db = map to_message (
    take (get_or limit 100)
      (drop (get_or offset 0) (keep (λ r. is_number k r.thread_id) db.messages.rows)))
