-- ===== src/SocialBrain/Refines.antt =====
-- platform/social-brain/repository.ts: the tables against what the store promises.
use openzigs_social.Prelude.{ℕ, String, Option}
use mathlib.Core.Option
use openzigs_social.Sql.{empty_table}
use openzigs_social.Sql.Upsert.{find_by, upsert}
use openzigs_social.SocialBrain.Types.{
  ContactRow, MessageRow, UpsertThreadInput, UpsertMessageInput, to_contact, to_message,
}
use openzigs_social.SocialBrain.Repository.{
  SocialBrain, contact_platform, contact_key, thread_platform, thread_key, message_platform,
  message_key, new_thread, merge_thread, new_message, merge_message,
}
use openzigs_social.SocialBrain.Spec.{
  ContactView, ThreadView, MessageView, contact_view, thread_view, message_view,
}

abbrev contact_row_view : ContactRow → ContactView
contact_row_view r = contact_view (to_contact r)

abbrev message_row_view : MessageRow → MessageView
message_row_view r = message_view (to_message r)

-- What is seen under a key, in each table.
abbrev see_contact : String → String → SocialBrain → Option ContactView
see_contact p k db =
    Option.map contact_row_view (find_by contact_platform contact_key p k db.contacts.rows)

abbrev see_thread : String → String → SocialBrain → Option ThreadView
see_thread p k db = Option.map thread_view (find_by thread_platform thread_key p k db.threads.rows)

abbrev see_message : String → String → SocialBrain → Option MessageView
see_message p k db =
    Option.map message_row_view (find_by message_platform message_key p k db.messages.rows)

-- The store after an upsert that finds what it refers to.
abbrev written_thread : ℕ → UpsertThreadInput → SocialBrain → SocialBrain
written_thread now input db = record db {
  threads =
      upsert thread_platform thread_key input.platform input.platform_thread_id
        (merge_thread now input) (new_thread now input) db.threads;
}

abbrev written_message : ℕ → UpsertMessageInput → SocialBrain → SocialBrain
written_message now input db = record db {
  messages =
      upsert message_platform message_key input.platform input.platform_message_id
        (merge_message now input) (new_message now input) db.messages;
}

abbrev pub empty_brain : SocialBrain
empty_brain = record { contacts = empty_table; threads = empty_table; messages = empty_table }
