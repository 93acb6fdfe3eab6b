-- ===== src/Webhooks/Again.antt =====
-- A request that reached its handler, delivered again: platform/webhooks/router.ts.
use openzigs_social.Prelude.{
  ℕ, String, Bool, true, false, Option, none, some, ◌≡◌, ◌≢◌, refl, ap, sym, ◌∙◌, inl, inr, str_eq,
  eq_iff, Bool-cases, Option-cases, some_inj,
}
use openzigs_social.Effects.{Result, ok, err}
use openzigs_social.Webhooks.Registry.{WebhookEvent, WebhookHandler, Handlers, Runtime, get}
use openzigs_social.Webhooks.Receiver.{
  EventTable, seen, record_if_new, duplicate, Outcome, refuse, dispatch, deduplicate, identified,
  parsed, verified, resolved, receive,
}
use openzigs_social.Webhooks.Replay.{seen-new}

module _ {H J : Type 0} where
  -- The second of two outcomes, on the table that the first leaves.
  abbrev IsRefused : String → (ℕ → EventTable → Outcome H J) → Type 0
  IsRefused e run =
      (now later : ℕ) (t : EventTable) (event : WebhookEvent H J)
      → (run now t).handled ≡ some event
      → event.event_id ≡ some e
      → run later (run now t).table ≡ refuse duplicate (run now t).table

  deduplicate-IsRefused :
      (e : String) (h : WebhookHandler H J) (event : WebhookEvent H J) (id : Option String)
      → e ≢ ""
      → event.event_id ≡ id
      → IsRefused e (λ now t. deduplicate now h event id t)
  unfolding deduplicate dispatch record_if_new
  deduplicate-IsRefused e h event none named same now later t event' handled given =
      cc (same, ap (λ x. x.event_id) (some_inj handled), given)
  deduplicate-IsRefused e h event (some i) named same now later t event' handled given =
      elim (Bool-cases (str_eq i "")) [
        | inl empty ↦
            let id' : i ≡ e =
              some_inj (sym same ∙ ap (λ x. x.event_id) (some_inj (rw empty at handled)) ∙ given) in
            elim (named (sym id' ∙ (eq_iff i "").0 empty)) [ ]
        | inr some' ↦ elim (Bool-cases (seen event.platform i t)) [
          | inl old ↦ cc (rw (some', old) at handled)
          | inr new ↦
              let noted = seen-new event.platform i t in rw (some', new, rw new at noted) refl
        ]
      ]

  identified-IsRefused :
      (e : String) (h : WebhookHandler H J) (platform raw_body : String) (headers : H) (payload : J)
      (r : Result String (Option String))
      → e ≢ ""
      → IsRefused e (λ now t. identified now h platform raw_body headers payload r t)
  unfolding identified
  identified-IsRefused e h platform raw_body headers payload (err x) named =
      λ now later t event' handled given. cc handled
  identified-IsRefused e h platform raw_body headers payload (ok id) named =
      deduplicate-IsRefused e h _ id named refl

  parsed-IsRefused :
      (e : String) (h : WebhookHandler H J) (platform raw_body : String) (headers : H)
      (payload : Option J)
      → e ≢ ""
      → IsRefused e (λ now t. parsed now h platform raw_body headers payload t)
  unfolding parsed
  parsed-IsRefused e h platform raw_body headers none named =
      λ now later t event' handled given. cc handled
  parsed-IsRefused e h platform raw_body headers (some payload) named =
      identified-IsRefused e h platform raw_body headers payload _ named

module _ {H J : Type 0} (js : Runtime J) where
  verified-IsRefused :
      (e : String) (h : WebhookHandler H J) (platform raw_body : String) (headers : H)
      (r : Result String Bool)
      → e ≢ ""
      → IsRefused e (λ now t. verified js now h platform raw_body headers r t)
  unfolding verified
  verified-IsRefused e h platform raw_body headers (err x) named =
      λ now later t event' handled given. cc handled
  verified-IsRefused e h platform raw_body headers (ok false) named =
      λ now later t event' handled given. cc handled
  verified-IsRefused e h platform raw_body headers (ok true) named =
      parsed-IsRefused e h platform raw_body headers _ named

  -- If a request reaches its handler with an event that has a nonempty id, then the same request
  -- at any later time, on the table that the first leaves, is answered as a duplicate without a
  -- call of the handler, whether the first call succeeded or failed.
  pub receive-again :
      (registry : Handlers H J) (param raw_body : String) (headers : H) (now later : ℕ)
      (t : EventTable) (event : WebhookEvent H J) (event_id : String)
      → event_id ≢ ""
      → let o = receive js registry now param raw_body headers t in
        o.handled ≡ some event
        → event.event_id ≡ some event_id
        → receive js registry later param raw_body headers o.table ≡ refuse duplicate o.table
  unfolding receive
  receive-again registry param raw_body headers now later t event e named handled given =
      elim (Option-cases (get js (js.to_lower_case param) registry)) [
        | inl none' ↦ cc (rw (none', resolved) at handled)
        | inr (h, here) ↦
            rw (here, resolved)
              (verified-IsRefused e h _ raw_body headers _ named now later t event
                (rw (here, resolved) at handled) given)
      ]
