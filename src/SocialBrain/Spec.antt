-- ===== src/SocialBrain/Spec.antt =====
-- What the store promises of a platform's objects, with no table: of all that was given for a key, each
-- field has the value that was given last.
use openzigs_social.Prelude.{
  ℕ, String, Bool, true, ◌&&◌, Option, none, some, get_or, or_else, List, [], ◌∷◌, str_eq,
  if◌then◌else◌,
}
use openzigs_social.SocialBrain.Types.{
  Fields, MessageDirection, inbound, SocialContact, SocialThread, SocialMessage, UpsertContactInput,
  UpsertThreadInput, UpsertMessageInput,
}
use openzigs_social.SocialBrain.Repository.{
  SocialBrain, contact_id, thread_id, refers, upsert_contact, upsert_thread, upsert_message,
}

-- The calls that write, each with the time of its statement.
pub data Call : Type 0 where
  contact_call : ℕ → UpsertContactInput → Call
  thread_call : ℕ → UpsertThreadInput → Call
  message_call : ℕ → UpsertMessageInput → Call

unfoldable pub step : Call → SocialBrain → SocialBrain
unfolding upsert_contact upsert_thread upsert_message
step (contact_call now input) db = (upsert_contact now input db).1
step (thread_call now input) db = (upsert_thread now input db).1
step (message_call now input) db = (upsert_message now input db).1

unfoldable pub run : List Call → SocialBrain → SocialBrain
run [] db = db
run (c ∷ cs) db = run cs (step c db)

-- Whether the rows that a call refers to are there.
abbrev pub is_valid : Call → SocialBrain → Bool
is_valid (contact_call now input) db = true
is_valid (thread_call now input) db = refers contact_id input.contact_id db.contacts
is_valid (message_call now input) db =
    refers thread_id input.thread_id db.threads && refers contact_id input.contact_id db.contacts

-- The calls that find what they refer to, each in the store that the calls before it leave.
abbrev pub valid_calls : List Call → SocialBrain → List Call
valid_calls [] db = []
valid_calls (c ∷ cs) db =
    let rest = valid_calls cs (step c db) in if is_valid c db then c ∷ rest else rest

-- What was given for a key, in order.
abbrev when_key : {A : Type 0} → Bool → A → List A → List A
when_key b a es = if b then a ∷ es else es

abbrev pub contact_inputs : String → String → List Call → List (ℕ × UpsertContactInput)
contact_inputs p k [] = []
contact_inputs p k (contact_call now input ∷ cs) =
    when_key (str_eq input.platform p && str_eq input.platform_contact_id k) (now, input)
      (contact_inputs p k cs)
contact_inputs p k (thread_call now input ∷ cs) = contact_inputs p k cs
contact_inputs p k (message_call now input ∷ cs) = contact_inputs p k cs

abbrev pub thread_inputs : String → String → List Call → List (ℕ × UpsertThreadInput)
thread_inputs p k [] = []
thread_inputs p k (contact_call now input ∷ cs) = thread_inputs p k cs
thread_inputs p k (thread_call now input ∷ cs) =
    when_key (str_eq input.platform p && str_eq input.platform_thread_id k) (now, input)
      (thread_inputs p k cs)
thread_inputs p k (message_call now input ∷ cs) = thread_inputs p k cs

abbrev pub message_inputs : String → String → List Call → List (ℕ × UpsertMessageInput)
message_inputs p k [] = []
message_inputs p k (contact_call now input ∷ cs) = message_inputs p k cs
message_inputs p k (thread_call now input ∷ cs) = message_inputs p k cs
message_inputs p k (message_call now input ∷ cs) =
    when_key (str_eq input.platform p && str_eq input.platform_message_id k) (now, input)
      (message_inputs p k cs)

module _ {I A : Type 0} where
  -- The value that was given last, if one was.
  abbrev pub latest : (I → Option A) → List (ℕ × I) → Option A
  latest f [] = none
  latest f ((now, input) ∷ es) = or_else (latest f es) (f input)

abbrev pub last_time : {I : Type 0} → ℕ → List (ℕ × I) → ℕ
last_time t [] = t
last_time t ((now, input) ∷ es) = last_time now es

-- What is promised of an object: all but its id.
pub record ContactView : Type 0 where
  pub handle : Option String
  pub display_name : Option String
  pub avatar_url : Option String
  pub metadata : Option Fields
  pub created_at : ℕ
  pub updated_at : ℕ

pub record ThreadView : Type 0 where
  pub contact_id : Option ℕ
  pub subject : Option String
  pub last_message_at : Option ℕ
  pub created_at : ℕ
  pub updated_at : ℕ

pub record MessageView : Type 0 where
  pub thread_id : Option ℕ
  pub contact_id : Option ℕ
  pub direction : MessageDirection
  pub body : String
  pub metadata : Option Fields
  pub sent_at : Option ℕ
  pub created_at : ℕ
  pub updated_at : ℕ

abbrev pub contact_view : SocialContact → ContactView
contact_view c = record {
  handle = c.handle;
  display_name = c.display_name;
  avatar_url = c.avatar_url;
  metadata = c.metadata;
  created_at = c.created_at;
  updated_at = c.updated_at;
}

abbrev pub thread_view : SocialThread → ThreadView
thread_view t = record {
  contact_id = t.contact_id;
  subject = t.subject;
  last_message_at = t.last_message_at;
  created_at = t.created_at;
  updated_at = t.updated_at;
}

abbrev pub message_view : SocialMessage → MessageView
message_view m = record {
  thread_id = m.thread_id;
  contact_id = m.contact_id;
  direction = m.direction;
  body = m.body;
  metadata = m.metadata;
  sent_at = m.sent_at;
  created_at = m.created_at;
  updated_at = m.updated_at;
}

abbrev pub spec_contact : List (ℕ × UpsertContactInput) → Option ContactView
spec_contact [] = none
spec_contact ((now, input) ∷ es) = some (record {
  handle = or_else (latest (λ i. i.handle) es) input.handle;
  display_name = or_else (latest (λ i. i.display_name) es) input.display_name;
  avatar_url = or_else (latest (λ i. i.avatar_url) es) input.avatar_url;
  metadata = or_else (latest (λ i. i.metadata) es) input.metadata;
  created_at = now;
  updated_at = last_time now es;
})

abbrev pub spec_thread : List (ℕ × UpsertThreadInput) → Option ThreadView
spec_thread [] = none
spec_thread ((now, input) ∷ es) = some (record {
  contact_id = or_else (latest (λ i. i.contact_id) es) input.contact_id;
  subject = or_else (latest (λ i. i.subject) es) input.subject;
  last_message_at = or_else (latest (λ i. i.last_message_at) es) input.last_message_at;
  created_at = now;
  updated_at = last_time now es;
})

abbrev pub spec_message : List (ℕ × UpsertMessageInput) → Option MessageView
spec_message [] = none
spec_message ((now, input) ∷ es) = some (record {
  thread_id = or_else (latest (λ i. i.thread_id) es) input.thread_id;
  contact_id = or_else (latest (λ i. i.contact_id) es) input.contact_id;
  direction = get_or input.direction inbound;
  body = get_or (latest (λ i. some i.body) es) input.body;
  metadata = or_else (latest (λ i. i.metadata) es) input.metadata;
  sent_at = or_else (latest (λ i. i.sent_at) es) input.sent_at;
  created_at = now;
  updated_at = last_time now es;
})
