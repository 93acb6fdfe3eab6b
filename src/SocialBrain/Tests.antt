-- ===== src/SocialBrain/Tests.antt =====
-- A message that is refused before its thread is there, and that a webhook then delivers twice, the
-- second time edited.
use openzigs_social.Prelude.{ℕ, String, Option, none, some, List, [], ◌∷◌, ◌≡◌, refl}
use mathlib.Core.Option
use openzigs_social.SocialBrain.Types.{no_fields, field, text, UpsertMessageInput, inbound}
use openzigs_social.SocialBrain.Repository.{
  upsert_contact, upsert_thread, upsert_message, refers, new_contact, new_thread, new_message,
  merge_message,
}
use openzigs_social.Sql.{find, insert, update_where, update_rows}
use openzigs_social.Sql.Upsert.{find_by, upsert}
use openzigs_social.SocialBrain.Spec.{
  Call, contact_call, thread_call, message_call, valid_calls, run, step, message_inputs,
  spec_message,
}
use openzigs_social.SocialBrain.Refines.{empty_brain}

abbrev message : String → Option ℕ → UpsertMessageInput
message body thread = record {
  platform = "x";
  platform_message_id = "m1";
  thread_id = thread;
  contact_id = none;
  direction = none;
  body = body;
  metadata = none;
  sent_at = some 5;
}

abbrev deliveries : List Call
deliveries =
    contact_call 10 (record {
      platform = "x";
      platform_contact_id = "c1";
      handle = some "ann";
      display_name = none;
      avatar_url = none;
      metadata = some (field "bio" (text "hi") no_fields);
    })
    ∷ message_call 10 (message "hello" (some 1))
    ∷ thread_call 11 (record {
      platform = "x";
      platform_thread_id = "t1";
      contact_id = some 1;
      subject = none;
      last_message_at = none;
    })
    ∷ message_call 11 (message "helo" (some 1))
    ∷ message_call 12 (message "hello" none)
    ∷ []

edited :
    spec_message (message_inputs "x" "m1" (valid_calls deliveries empty_brain))
    ≡ some (record {
      thread_id = some 1;
      contact_id = none;
      direction = inbound;
      body = "hello";
      metadata = none;
      sent_at = some 5;
      created_at = 11;
      updated_at = 12;
    })
unfolding run step upsert_contact upsert_thread upsert_message refers upsert find_by insert
    update_where update_rows find new_contact new_thread new_message merge_message
edited = refl
