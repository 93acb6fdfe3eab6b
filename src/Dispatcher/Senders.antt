-- ===== src/Dispatcher/Senders.antt =====
-- platform/dm/sender-registry.ts. An adapter is whether it supports a platform, and what its sendDm
-- returns for a request; toLowerCase is a parameter.
use openzigs_social.Prelude.{
  ℕ, String, Bool, false, not, Option, none, some, List, map, if◌then◌else◌, is_some,
}
use openzigs_social.Prelude.Maps.{get, set}
use openzigs_social.Effects.{Result, ok, err}

pub record SocialDmRequest : Type 0 where
  pub platform : String
  pub recipient_id : String
  pub text : String

pub record SocialDmResult : Type 0 where
  pub platform : String
  pub recipient_id : String
  pub message_id : Option String
  pub delivered_at : ℕ

pub record SocialDmSender : Type 0 where
  pub supports : String → Bool
  pub send_dm : SocialDmRequest → Result String SocialDmResult

pub data SenderError : Type 0 where
  already_registered no_sender send_failed : String → SenderError

abbrev pub Senders : Type 0
Senders = List (String × SocialDmSender)

module _ (to_lower_case : String → String) where
  unfoldable pub register :
      String → SocialDmSender → Senders → Result SenderError (Unit {0}) × Senders
  unfolding get set
  register platform sender senders =
      let key = to_lower_case platform in
      if is_some (get key senders)
      then (err (already_registered key), senders)
      else (ok tt, set key sender senders)

  unfoldable pub supports : String → Senders → Bool
  unfolding get
  supports platform senders = elim (get (to_lower_case platform) senders) [
    | none ↦ false
    | some sender ↦ sender.supports platform
  ]

  unfoldable pub send_dm : SocialDmRequest → Senders → Result SenderError SocialDmResult
  unfolding get
  send_dm request senders = elim (get (to_lower_case request.platform) senders) [
    | none ↦ err (no_sender request.platform)
    | some sender ↦
        if not (sender.supports request.platform)
        then err (no_sender request.platform)
        else elim (sender.send_dm request) [ err e ↦ err (send_failed e) | ok r ↦ ok r ]
  ]

abbrev pub platforms : Senders → List String
platforms senders = map (λ s. s.0) senders
