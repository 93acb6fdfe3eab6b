-- ===== src/Webhooks/Replay.antt =====
-- Platforms deliver an event again: platform/webhooks/router.ts over its event store.
use openzigs_social.Prelude.{
  ℕ, ◌+◌, ◌≤◌, String, Bool, true, false, Option, none, some, List, [], ◌∷◌, ◌++◌, ◌≡◌, ◌≢◌, refl,
  ap, sym, ◌∙◌, inl, inr, arith, str_eq, eq_iff, ◌&&◌, ◌||◌, if◌then◌else◌, Bool-cases,
  Option-cases,
}
use openzigs_social.Effects.{Result, ok, err}
use openzigs_social.Webhooks.Registry.{WebhookEvent, WebhookHandler, Runtime, get}
use openzigs_social.Webhooks.Receiver.{
  EventTable, seen, record_if_new, Outcome, dispatch, deduplicate, identified, parsed, verified,
  resolved, receive, Delivery, deliver,
}

seen-snoc :
    (p e q i : String) (t : EventTable)
    → seen p e (t ++ (q, i) ∷ []) ≡ (seen p e t || (str_eq q p && str_eq i e))
unfolding seen
seen-snoc p e q i [] = ground arith
seen-snoc p e q i (r ∷ t) =
    ap (λ b. (str_eq r.0 p && str_eq r.1 e) || b) (seen-snoc p e q i t) ∙ ground arith

pub seen-new : (p e : String) (t : EventTable) → seen p e (record_if_new p e t).1 ≡ true
unfolding record_if_new
seen-new p e t = elim (Bool-cases (seen p e t)) [
  | inl old ↦ rw old old
  | inr new ↦
      rw new (seen-snoc p e p e t ∙ rw ((eq_iff p p).1 refl, (eq_iff e e).1 refl) (ground arith))
]

abbrev flag : Bool → ℕ
flag b = if b then 1 else 0

abbrev same_id : String → Option String → Bool
same_id e none = false
same_id e (some i) = str_eq i e

module _ {H J : Type 0} where
  -- Whether the handler was called with an event of a platform and an id.
  abbrev pub handles : String → String → Option (WebhookEvent H J) → ℕ
  handles p e none = 0
  handles p e (some event) = flag (str_eq event.platform p && same_id e event.event_id)

  abbrev IsNoted : String → String → EventTable → Outcome H J → Type 0
  IsNoted p e t o = handles p e o.handled + flag (seen p e t) ≤ flag (seen p e o.table)

  deduplicate-IsNoted :
      (p e : String) (now : ℕ) (h : WebhookHandler H J) (event : WebhookEvent H J)
      (id : Option String) (t : EventTable)
      → e ≢ ""
      → event.event_id ≡ id
      → IsNoted p e t (deduplicate now h event id t)
  unfolding deduplicate dispatch record_if_new
  deduplicate-IsNoted p e now h event none t named same = rw same (ground arith)
  deduplicate-IsNoted p e now h event (some i) t named same = elim (Bool-cases (str_eq i "")) [
    | inl empty ↦ rw (empty, same) (ground (arith, eq_iff i "", eq_iff i e, named))
    | inr some' ↦ elim (Bool-cases (seen event.platform i t)) [
      | inl old ↦ rw (some', old) (omega arith)
      | inr new ↦ elim (Bool-cases (str_eq event.platform p && str_eq i e)) [
        | inr other ↦ rw (some', new, same, seen-snoc p e event.platform i t, other) (ground arith)
        | inl hit ↦
            let here = (eq_iff event.platform p).0 (ground (arith, hit)) in
            let id' = (eq_iff i e).0 (ground (arith, hit)) in
            let fresh : seen p e t ≡ false =
              ap (λ x. seen x e t) (sym here) ∙ ap (λ x. seen event.platform x t) (sym id') ∙ new in
            rw (some', new, same, seen-snoc p e event.platform i t, hit, fresh) (ground arith)
      ]
    ]
  ]

  identified-IsNoted :
      (p e : String) (now : ℕ) (h : WebhookHandler H J) (platform raw_body : String) (headers : H)
      (payload : J) (r : Result String (Option String)) (t : EventTable)
      → e ≢ ""
      → IsNoted p e t (identified now h platform raw_body headers payload r t)
  unfolding identified
  identified-IsNoted p e now h platform raw_body headers payload (err x) t named = omega arith
  identified-IsNoted p e now h platform raw_body headers payload (ok id) t named =
      deduplicate-IsNoted p e now h _ id t named refl

  parsed-IsNoted :
      (p e : String) (now : ℕ) (h : WebhookHandler H J) (platform raw_body : String) (headers : H)
      (payload : Option J) (t : EventTable)
      → e ≢ ""
      → IsNoted p e t (parsed now h platform raw_body headers payload t)
  unfolding parsed
  parsed-IsNoted p e now h platform raw_body headers none t named = omega arith
  parsed-IsNoted p e now h platform raw_body headers (some payload) t named =
      identified-IsNoted p e now h platform raw_body headers payload _ t named

module _ {H J : Type 0} (js : Runtime J) where
  verified-IsNoted :
      (p e : String) (now : ℕ) (h : WebhookHandler H J) (platform raw_body : String) (headers : H)
      (r : Result String Bool) (t : EventTable)
      → e ≢ ""
      → IsNoted p e t (verified js now h platform raw_body headers r t)
  unfolding verified
  verified-IsNoted p e now h platform raw_body headers (err x) t named = omega arith
  verified-IsNoted p e now h platform raw_body headers (ok false) t named = omega arith
  verified-IsNoted p e now h platform raw_body headers (ok true) t named =
      parsed-IsNoted p e now h platform raw_body headers _ t named

  deliver-IsNoted :
      (p e : String) (d : Delivery H J) (t : EventTable) → e ≢ "" → IsNoted p e t (deliver js d t)
  unfolding receive
  deliver-IsNoted p e d t named =
      elim (Option-cases (get js (js.to_lower_case d.param) d.registry)) [
        | inl none' ↦ rw (none', resolved) (omega arith)
        | inr (h, here) ↦
            rw (here, resolved) (verified-IsNoted p e d.now h _ d.raw_body d.headers _ t named)
      ]

  -- How many of a sequence of requests call the handler with an event of a platform and an id.
  abbrev pub times_handled : String → String → List (Delivery H J) → EventTable → ℕ
  times_handled p e [] t = 0
  times_handled p e (d ∷ ds) t =
      let o = deliver js d t in handles p e o.handled + times_handled p e ds o.table

  -- In any sequence of requests, with any handlers registered at each, from any table of events,
  -- the handler is called with an event of a given platform and a given nonempty id at most
  -- once, and not at all if the table has the event before.
  pub times_handled_le :
      (platform event_id : String) (ds : List (Delivery H J)) (t : EventTable)
      → event_id ≢ ""
      → times_handled platform event_id ds t ≤ (if seen platform event_id t then 0 else 1)
  times_handled_le p e [] t named = ground arith
  times_handled_le p e (d ∷ ds) t named =
      let noted = deliver-IsNoted p e d t named in
      let rest = times_handled_le p e ds (deliver js d t).table named in ground (arith, noted, rest)
