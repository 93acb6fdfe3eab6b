-- ===== src/Dispatcher.antt =====
-- platform/dm/dispatcher.ts: the rule chain for inbound messages. A rule of the chain may read and
-- change everything that is shared: the handoff manager, the events and the rest, which is of any
-- type; it says whether it called `stop`, or throws.
pub mod Reply
pub mod Senders
mod Tests
use openzigs_social.Prelude.{
  ℕ, zero, suc, ◌+◌, ◌≤◌, String, Bool, true, false, not, Option, none, some, List, [], ◌∷◌, ◌++◌,
  ◌≡◌, ◌∙◌, refl, ap, arith, inl, inr, if◌then◌else◌, length, Bool-cases,
}
use openzigs_social.Effects.{Result, ok, err, Result-cases}
use openzigs_social.Handoff.Manager.{HandoffManager, is_human_owned}

pub record InboundDm : Type 0 where
  pub platform : String
  pub thread_id : String
  pub message_id : String
  pub text : String
  pub contact_id : Option ℕ
  pub sender : Option String
  pub received_at : ℕ

pub data DmEvent : Type 0 where
  inbox_message : InboundDm → DmEvent
  inbox_skipped : (thread_id : String) → DmEvent

pub record DispatchResult : Type 0 where
  pub completed : Bool
  pub rules_run : ℕ

module _ (S E : Type 0) where
  -- The rest holds the approvals and the bag of `ctx.state`.
  pub record DmWorld : Type 0 where
    pub handoff : HandoffManager
    pub emitted : List DmEvent
    pub rest : S

  -- Whether the rule called `stop`, unless it threw.
  abbrev pub DmRule : Type 0
  DmRule = InboundDm → DmWorld → Result E Bool × DmWorld

module _ {S E : Type 0} where
  abbrev pub add_rule : DmRule S E → List (DmRule S E) → List (DmRule S E)
  add_rule rule rules = rules ++ rule ∷ []

  -- The loop over the rules; the counters are those of the rules before.
  unfoldable pub run_rules :
      List (DmRule S E) → InboundDm → Bool → ℕ → DmWorld S E → Result E DispatchResult × DmWorld S E
  run_rules [] message stopped rules_run w =
      (ok (record { completed = not stopped; rules_run = rules_run }), w)
  run_rules (rule ∷ rules) message stopped rules_run w =
      let (r, w') = rule message w in
      let on_stop = run_rules rules message true (suc rules_run) w' in
      let on_pass = run_rules rules message false (suc rules_run) w' in
      if stopped
      then (ok (record { completed = false; rules_run = rules_run }), w)
      else elim r [ err e ↦ (err e, w') | ok stops ↦ if stops then on_stop else on_pass ]

  -- A fresh chain starts with `stopped = false`.
  unfoldable pub dispatch :
      List (DmRule S E) → InboundDm → DmWorld S E → Result E DispatchResult × DmWorld S E
  dispatch rules message w =
      run_rules rules message false 0
        (record w { emitted = w.emitted ++ inbox_message message ∷ [] })

  unfoldable pub human_owned_guard : DmRule S E
  human_owned_guard message w =
      if is_human_owned message.thread_id w.handoff
      then (ok true, record w { emitted = w.emitted ++ inbox_skipped message.thread_id ∷ [] })
      else (ok false, w)

  run_rules-stopped :
      (rules : List (DmRule S E)) (message : InboundDm) (n : ℕ) (w : DmWorld S E)
      → run_rules rules message true n w ≡ (ok (record { completed = false; rules_run = n }), w)
  unfolding run_rules
  run_rules-stopped [] message n w = refl
  run_rules-stopped (rule ∷ rules) message n w = refl
