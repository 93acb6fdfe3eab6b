-- ===== src/Webhooks/Tests.antt =====
-- A handler that fails, and the platform that delivers its event again.
use openzigs_social.Prelude.{
  ℕ, ◌≤◌, String, true, some, [], ◌∷◌, ◌≡◌, ◌≢◌, refl, eq_iff, if◌then◌else◌,
}
use openzigs_social.Prelude.Maps
use openzigs_social.Effects.{ok, err}
use openzigs_social.Webhooks.Registry.{
  WebhookEvent, WebhookHandler, Handlers, Runtime, register, get, already_registered,
}
use openzigs_social.Webhooks.Receiver.{
  seen, record_if_new, duplicate, handler_error, refuse, dispatch, deduplicate, identified, parsed,
  verified, receive, Delivery, deliver,
}
use openzigs_social.Webhooks.Replay.{times_handled, times_handled_le}
use openzigs_social.Webhooks.Again.{receive-again}

abbrev js : Runtime String
js = record {
  to_lower_case = λ s. s;
  test_platform_re = λ s. true;
  parse_json = λ s. some s;
  empty_object = "";
}

-- It takes every signature, finds the id e1 in every payload, and throws.
abbrev failing : WebhookHandler String String
failing = record {
  platform = "meta";
  verify = λ body headers. ok true;
  extract_event_id = some (λ payload headers. ok (some "e1"));
  handle = λ now event. err "down";
}

abbrev handlers : Handlers String String
handlers = ("meta", failing) ∷ []

registered : register js failing [] ≡ (ok tt, handlers)
unfolding register Maps.get Maps.set
registered = refl

registered_twice : register js failing handlers ≡ (err (already_registered "meta"), handlers)
unfolding register Maps.get
registered_twice = refl

abbrev request : ℕ → Delivery String String
request now = record {
  registry = handlers;
  now = now;
  param = "meta";
  raw_body = "{}";
  headers = "";
}

abbrev event : WebhookEvent String String
event = record {
  platform = "meta";
  event_id = some "e1";
  payload = "{}";
  headers = "";
  raw_body = "{}";
}

fails : (deliver js (request 1) []).response ≡ handler_error
unfolding receive get Maps.get verified parsed identified deduplicate record_if_new seen dispatch
fails = refl

handled : (deliver js (request 1) []).handled ≡ some event
unfolding receive get Maps.get verified parsed identified deduplicate record_if_new seen dispatch
handled = refl

abbrev e1 : String
e1 = "e1"

named : e1 ≢ ""
named e = cc ((eq_iff e1 "").1 e)

receive-again_example :
    let o = receive js handlers 1 "meta" "{}" "" [] in
    receive js handlers 2 "meta" "{}" "" o.table ≡ refuse duplicate o.table
receive-again_example =
    receive-again js handlers "meta" "{}" "" 1 2 [] event "e1" named handled refl

times_handled_le_example :
    times_handled js "meta" "e1" (request 1 ∷ request 2 ∷ []) []
    ≤ (if seen "meta" "e1" [] then 0 else 1)
times_handled_le_example = times_handled_le js "meta" "e1" (request 1 ∷ request 2 ∷ []) [] named
