-- ===== src/Webhooks/Receiver.antt =====
-- platform/webhooks/event-store.ts and platform/webhooks/router.ts. A request runs without a pause up
-- to the handler's `handle`, and touches the store no more after it, so that it is one step.
use openzigs_social.Prelude.{
  ℕ, String, Bool, true, false, Option, none, some, List, [], ◌∷◌, ◌++◌, any, str_eq, ◌&&◌,
  if◌then◌else◌,
}
use openzigs_social.Effects.{Result, ok, err}
use openzigs_social.Webhooks.Registry.{WebhookEvent, WebhookHandler, Handlers, Runtime, get}

-- The rows of webhook_events: a platform and an event id.
abbrev pub EventTable : Type 0
EventTable = List (String × String)

unfoldable pub seen : String → String → EventTable → Bool
seen platform event_id t = any (λ r. str_eq r.0 platform && str_eq r.1 event_id) t

-- INSERT … ON CONFLICT(platform, event_id) DO NOTHING, and whether it changed a row.
unfoldable pub record_if_new : String → String → EventTable → Bool × EventTable
record_if_new platform event_id t =
    if seen platform event_id t then (false, t) else (true, t ++ (platform, event_id) ∷ [])

pub data Response : Type 0 where
  unknown_platform invalid_signature invalid_payload duplicate handler_error internal_error
        processed :
      Response

abbrev pub status : Response → ℕ
status unknown_platform = 404
status invalid_signature = 401
status invalid_payload = 400
status duplicate = 200
status handler_error = 500
status internal_error = 500
status processed = 200

-- What a request did: its response, the event that `handle` was called with, and the table.
pub record Outcome (H J : Type 0) : Type 0 where
  pub response : Response
  pub handled : Option (WebhookEvent H J)
  pub table : EventTable

abbrev pub parse : {J : Type 0} → Runtime J → String → Option J
parse js raw_body = if str_eq raw_body "" then some js.empty_object else js.parse_json raw_body

module _ {H J : Type 0} where
  abbrev pub refuse : Response → EventTable → Outcome H J
  refuse r t = record { response = r; handled = none; table = t }

  unfoldable pub dispatch : ℕ → WebhookHandler H J → WebhookEvent H J → EventTable → Outcome H J
  dispatch now h event t = record {
    response = elim (h.handle now event) [ ok u ↦ processed | err e ↦ handler_error ];
    handled = some event;
    table = t;
  }

  -- The event id that counts for deduplication, which is none if it is the empty text.
  abbrev pub extract : WebhookHandler H J → J → H → Result String (Option String)
  extract h payload headers = elim h.extract_event_id [
    | none ↦ ok none
    | some f ↦ f payload headers
  ]

  unfoldable pub deduplicate :
      ℕ → WebhookHandler H J → WebhookEvent H J → Option String → EventTable → Outcome H J
  deduplicate now h event none t = dispatch now h event t
  deduplicate now h event (some event_id) t =
      if str_eq event_id ""
      then dispatch now h event t
      else let (is_new, t') = record_if_new event.platform event_id t in
        if is_new then dispatch now h event t' else refuse duplicate t'

  unfoldable pub identified :
      ℕ
      → WebhookHandler H J
      → String
      → String
      → H
      → J
      → Result String (Option String)
      → EventTable
      → Outcome H J
  identified now h platform raw_body headers payload (err e) t = refuse internal_error t
  identified now h platform raw_body headers payload (ok event_id) t =
      let event : WebhookEvent H J = record {
        platform = platform;
        event_id = event_id;
        payload = payload;
        headers = headers;
        raw_body = raw_body;
      } in
      deduplicate now h event event_id t

  unfoldable pub parsed :
      ℕ → WebhookHandler H J → String → String → H → Option J → EventTable → Outcome H J
  parsed now h platform raw_body headers none t = refuse invalid_payload t
  parsed now h platform raw_body headers (some payload) t =
      identified now h platform raw_body headers payload (extract h payload headers) t

module _ {H J : Type 0} (js : Runtime J) where
  unfoldable pub verified :
      ℕ → WebhookHandler H J → String → String → H → Result String Bool → EventTable → Outcome H J
  verified now h platform raw_body headers (err e) t = refuse internal_error t
  verified now h platform raw_body headers (ok false) t = refuse invalid_signature t
  verified now h platform raw_body headers (ok true) t =
      parsed now h platform raw_body headers (parse js raw_body) t

  abbrev pub resolved :
      ℕ → Option (WebhookHandler H J) → String → String → H → EventTable → Outcome H J
  resolved now none platform raw_body headers t = refuse unknown_platform t
  resolved now (some h) platform raw_body headers t =
      verified now h platform raw_body headers (h.verify raw_body headers) t

  -- POST /:platform
  unfoldable pub receive : Handlers H J → ℕ → String → String → H → EventTable → Outcome H J
  receive registry now param raw_body headers t =
      let platform = js.to_lower_case param in
      resolved now (get js platform registry) platform raw_body headers t

-- A request, with the handlers that are registered when it comes.
pub record Delivery (H J : Type 0) : Type 0 where
  pub registry : Handlers H J
  pub now : ℕ
  pub param : String
  pub raw_body : String
  pub headers : H

module _ {H J : Type 0} (js : Runtime J) where
  abbrev pub deliver : Delivery H J → EventTable → Outcome H J
  deliver d t = receive js d.registry d.now d.param d.raw_body d.headers t
