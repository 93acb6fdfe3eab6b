-- ===== src/SocialBrain/Merges.antt =====
-- platform/social-brain/repository.ts: what merging an input into a row does to its view.
use openzigs_social.Prelude.{ℕ, Option, none, some, get_or, or_else, List, ◌∷◌, ◌≡◌, refl, ap, ◌∙◌}
use openzigs_social.SocialBrain.Types.{
  Fields, MetadataJson, parse_metadata, serialize_metadata, coalesce, inbound, ContactRow,
  ThreadRow, MessageRow, to_contact, to_message, UpsertContactInput, UpsertThreadInput,
  UpsertMessageInput,
}
use openzigs_social.SocialBrain.Repository.{
  new_contact, merge_contact, merge_thread, new_message, merge_message,
}
use openzigs_social.SocialBrain.Spec.{
  latest, last_time, ContactView, ThreadView, MessageView, contact_view, thread_view, message_view,
  spec_contact, spec_message,
}

or_else_assoc {ℓ} :
    {A : Type ℓ} (a b c : Option A) → or_else a (or_else b c) ≡ or_else (or_else a b) c
or_else_assoc none b c = refl
or_else_assoc (some x) b c = refl

get_or-or_else {ℓ} :
    {A : Type ℓ} (a b : Option A) (c : A) → get_or a (get_or b c) ≡ get_or (or_else a b) c
get_or-or_else none b c = refl
get_or-or_else (some x) b c = refl

parse-coalesce :
    (m : Option Fields) (old : MetadataJson)
    → parse_metadata (coalesce (serialize_metadata m) old) ≡ or_else m (parse_metadata old)
unfolding parse_metadata serialize_metadata
parse-coalesce none old = refl
parse-coalesce (some m) old = refl

parse-serialize : (m : Option Fields) → parse_metadata (serialize_metadata m) ≡ m
unfolding parse_metadata serialize_metadata
parse-serialize none = refl
parse-serialize (some m) = refl

abbrev pub later_contact : ContactView → List (ℕ × UpsertContactInput) → ContactView
later_contact v es = record {
  handle = or_else (latest (λ i. i.handle) es) v.handle;
  display_name = or_else (latest (λ i. i.display_name) es) v.display_name;
  avatar_url = or_else (latest (λ i. i.avatar_url) es) v.avatar_url;
  metadata = or_else (latest (λ i. i.metadata) es) v.metadata;
  created_at = v.created_at;
  updated_at = last_time v.updated_at es;
}

abbrev pub later_thread : ThreadView → List (ℕ × UpsertThreadInput) → ThreadView
later_thread v es = record {
  contact_id = or_else (latest (λ i. i.contact_id) es) v.contact_id;
  subject = or_else (latest (λ i. i.subject) es) v.subject;
  last_message_at = or_else (latest (λ i. i.last_message_at) es) v.last_message_at;
  created_at = v.created_at;
  updated_at = last_time v.updated_at es;
}

abbrev pub later_message : MessageView → List (ℕ × UpsertMessageInput) → MessageView
later_message v es = record {
  thread_id = or_else (latest (λ i. i.thread_id) es) v.thread_id;
  contact_id = or_else (latest (λ i. i.contact_id) es) v.contact_id;
  direction = v.direction;
  body = get_or (latest (λ i. some i.body) es) v.body;
  metadata = or_else (latest (λ i. i.metadata) es) v.metadata;
  sent_at = or_else (latest (λ i. i.sent_at) es) v.sent_at;
  created_at = v.created_at;
  updated_at = last_time v.updated_at es;
}

-- `metadata` after a merge and later inputs, and of a new row.
metadata-merge :
    (a m : Option Fields) (old : MetadataJson)
    → or_else a (parse_metadata (coalesce (serialize_metadata m) old))
      ≡ or_else (or_else a m) (parse_metadata old)
metadata-merge a m old =
    ap (or_else a) (parse-coalesce m old) ∙ or_else_assoc a m (parse_metadata old)

pub contact-merge :
    (now : ℕ) (input : UpsertContactInput) (r : ContactRow) (es : List (ℕ × UpsertContactInput))
    → later_contact (contact_view (to_contact (merge_contact now input r))) es
      ≡ later_contact (contact_view (to_contact r)) ((now, input) ∷ es)
unfolding to_contact merge_contact
contact-merge now input r es = λ i. record {
  handle = or_else_assoc (latest (λ x. x.handle) es) input.handle r.handle i;
  display_name =
      or_else_assoc (latest (λ x. x.display_name) es) input.display_name r.display_name i;
  avatar_url = or_else_assoc (latest (λ x. x.avatar_url) es) input.avatar_url r.avatar_url i;
  metadata = metadata-merge (latest (λ x. x.metadata) es) input.metadata r.metadata_json i;
  created_at = r.created_at;
  updated_at = last_time now es;
}

pub contact-new :
    (now : ℕ) (input : UpsertContactInput) (k : ℕ) (es : List (ℕ × UpsertContactInput))
    → some (later_contact (contact_view (to_contact (new_contact now input k))) es)
      ≡ spec_contact ((now, input) ∷ es)
unfolding to_contact new_contact
contact-new now input k es = λ i. some (record {
  handle = or_else (latest (λ x. x.handle) es) input.handle;
  display_name = or_else (latest (λ x. x.display_name) es) input.display_name;
  avatar_url = or_else (latest (λ x. x.avatar_url) es) input.avatar_url;
  metadata = or_else (latest (λ x. x.metadata) es) (parse-serialize input.metadata i);
  created_at = now;
  updated_at = last_time now es;
})

pub thread-merge :
    (now : ℕ) (input : UpsertThreadInput) (r : ThreadRow) (es : List (ℕ × UpsertThreadInput))
    → later_thread (thread_view (merge_thread now input r)) es
      ≡ later_thread (thread_view r) ((now, input) ∷ es)
unfolding merge_thread
thread-merge now input r es = λ i. record {
  contact_id = or_else_assoc (latest (λ x. x.contact_id) es) input.contact_id r.contact_id i;
  subject = or_else_assoc (latest (λ x. x.subject) es) input.subject r.subject i;
  last_message_at =
      or_else_assoc (latest (λ x. x.last_message_at) es) input.last_message_at r.last_message_at i;
  created_at = r.created_at;
  updated_at = last_time now es;
}

pub message-merge :
    (now : ℕ) (input : UpsertMessageInput) (r : MessageRow) (es : List (ℕ × UpsertMessageInput))
    → later_message (message_view (to_message (merge_message now input r))) es
      ≡ later_message (message_view (to_message r)) ((now, input) ∷ es)
unfolding to_message merge_message
message-merge now input r es = λ i. record {
  thread_id = or_else_assoc (latest (λ x. x.thread_id) es) input.thread_id r.thread_id i;
  contact_id = or_else_assoc (latest (λ x. x.contact_id) es) input.contact_id r.contact_id i;
  direction = r.direction;
  body = get_or-or_else (latest (λ x. some x.body) es) (some input.body) r.body i;
  metadata = metadata-merge (latest (λ x. x.metadata) es) input.metadata r.metadata_json i;
  sent_at = or_else_assoc (latest (λ x. x.sent_at) es) input.sent_at r.sent_at i;
  created_at = r.created_at;
  updated_at = last_time now es;
}

pub message-new :
    (now : ℕ) (input : UpsertMessageInput) (k : ℕ) (es : List (ℕ × UpsertMessageInput))
    → some (later_message (message_view (to_message (new_message now input k))) es)
      ≡ spec_message ((now, input) ∷ es)
unfolding to_message new_message
message-new now input k es = λ i. some (record {
  thread_id = or_else (latest (λ x. x.thread_id) es) input.thread_id;
  contact_id = or_else (latest (λ x. x.contact_id) es) input.contact_id;
  direction = get_or input.direction inbound;
  body = get_or (latest (λ x. some x.body) es) input.body;
  metadata = or_else (latest (λ x. x.metadata) es) (parse-serialize input.metadata i);
  sent_at = or_else (latest (λ x. x.sent_at) es) input.sent_at;
  created_at = now;
  updated_at = last_time now es;
})
