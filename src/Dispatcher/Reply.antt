-- ===== src/Dispatcher/Reply.antt =====
-- platform/dm/dispatcher.ts: approvalGatedReply, before and after it awaits the outcome of its request.
-- The errors of `draft` and of `onApproved` are of any type, and so is what `onApproved` changes.
use openzigs_social.Prelude.{ℕ, String, Option, none, some, get_or}
use openzigs_social.Effects.{Result, ok, err}
use openzigs_social.Approvals.Queue.{
  ApprovalQueue, ApprovalOutcome, RequestError, OutcomeDecision, decided, timeout, approve, reject,
  request,
}
use openzigs_social.Dispatcher.{InboundDm}

-- The payload with the kind dm-reply.
pub record DmReply : Type 0 where
  pub platform : String
  pub thread_id : String
  pub draft : String

pub data ReplyError (E : Type 0) : Type 0 where
  draft_failed on_approved_failed : E → ReplyError E
  request_failed : RequestError → ReplyError E

abbrev pub Awaiting : Type 0
Awaiting = String × ℕ

-- The draft and the promise that the rule awaits.
unfoldable pub start_reply :
    {E M : Type 0}
    → (InboundDm → Result E String)
    → Option ℕ
    → ℕ
    → String
    → InboundDm
    → ApprovalQueue DmReply M
    → Result (ReplyError E) Awaiting × ApprovalQueue DmReply M
unfolding request
start_reply draft timeout_ms now uuid message q = elim (draft message) [
  | err e ↦ (err (draft_failed e), q)
  | ok reply ↦
      let payload : DmReply = record {
        platform = message.platform;
        thread_id = message.thread_id;
        draft = reply;
      } in
      let (promise, q') =
        request now uuid payload (record { timeout_ms = timeout_ms; id = none }) q in
      (elim promise [ err e ↦ err (request_failed e) | ok p ↦ ok (reply, p) ], q')
]

abbrev pub is_approved : OutcomeDecision → Option (Unit {0})
is_approved timeout = none
is_approved (decided reject) = none
is_approved (decided approve) = some tt

abbrev pub edited_by : {M : Type 0} → (M → Option String) → Option M → Option String
edited_by draft_of none = none
edited_by draft_of (some m) = draft_of m

-- `draft_of` is the `draft` of the metadata, if it is a text.
unfoldable pub settle_reply :
    {E M S : Type 0}
    → (M → Option String)
    → (String → InboundDm → S → Result E (Unit {0}) × S)
    → String
    → InboundDm
    → ApprovalOutcome DmReply M
    → S
    → Result (ReplyError E) (Unit {0}) × S
settle_reply draft_of on_approved reply message outcome s = elim (is_approved outcome.decision) [
  | none ↦ (ok tt, s)
  | some u ↦
      let (r, s') = on_approved (get_or (edited_by draft_of outcome.metadata) reply) message s in
      (elim r [ err e ↦ err (on_approved_failed e) | ok v ↦ ok v ], s')
]
