-- ===== src/Webhooks/Registry.antt =====
-- platform/webhooks/handler-registry.ts, over a type H of headers and a type J of parsed payloads.
use openzigs_social.Prelude.{
  ℕ, String, Bool, true, false, Option, none, some, List, map, not, if◌then◌else◌,
}
use openzigs_social.Prelude.Maps as Maps
use openzigs_social.Effects.{Result, ok, err, Exec}

pub record WebhookEvent (H J : Type 0) : Type 0 where
  pub platform : String
  pub event_id : Option String
  pub payload : J
  pub headers : H
  pub raw_body : String

-- A connector's handler. Each of its methods may throw; what `handle` does depends on the time.
pub record WebhookHandler (H J : Type 0) : Type 0 where
  pub platform : String
  pub verify : String → H → Result String Bool
  pub extract_event_id : Option (J → H → Result String (Option String))
  pub handle : ℕ → WebhookEvent H J → Result String (Unit {0})

-- The functions of the JavaScript runtime that the code calls: `toLowerCase`, the test of
-- PLATFORM_RE, and `JSON.parse` of a text, which is missing where it throws.
pub record Runtime (J : Type 0) : Type 0 where
  pub to_lower_case : String → String
  pub test_platform_re : String → Bool
  pub parse_json : String → Option J
  pub empty_object : J

pub data RegistryError : Type 0 where
  invalid_platform_key : String → RegistryError
  already_registered : String → RegistryError

abbrev pub Handlers : Type 0 → Type 0 → Type 0
Handlers H J = List (String × WebhookHandler H J)

abbrev pub platforms : {H J : Type 0} → Handlers H J → List String
platforms m = map (λ e. e.0) m

module _ {H J : Type 0} (js : Runtime J) where
  abbrev pub has : String → Handlers H J → Bool
  has platform m = elim (Maps.get (js.to_lower_case platform) m) [ none ↦ false | some h ↦ true ]

  unfoldable pub register : WebhookHandler H J → Exec (Handlers H J) RegistryError (Unit {0})
  register h m =
      let platform = js.to_lower_case h.platform in
      if not (js.test_platform_re platform)
      then (err (invalid_platform_key h.platform), m)
      else if has platform m
      then (err (already_registered platform), m)
      else (ok tt, Maps.set platform h m)

  unfoldable pub get : String → Handlers H J → Option (WebhookHandler H J)
  get platform m = Maps.get (js.to_lower_case platform) m
