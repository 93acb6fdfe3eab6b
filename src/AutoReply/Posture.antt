-- ===== src/AutoReply/Posture.antt =====
-- routing/pipeline.ts over personality/profiler.ts: a draft with a banned word, and two approvals that
-- overlap.
use openzigs_social.Prelude.{
  ℕ, suc, ◌<◌, String, Bool, true, false, ◌&&◌, not, Option, some, get_or, List, [], ◌∷◌, ◌++◌, ◌≡◌,
  ◌≢◌, refl, ap, ◌∙◌, inl, inr, arith, str_eq, ltb, if◌then◌else◌, length, ==_iff,
}
use mathlib.Core.List.{append_assoc}
use openzigs_social.Retry.Backoff.{Fraction}
use openzigs_social.Effects.{Result-cases, ok}
use openzigs_social.Personality.Profiler.{Text, zero_score, find_banned_hits, score_voice}
use openzigs_social.Personality.Rulebook as Rulebook
use openzigs_social.Sql.{find}
use openzigs_social.Sql.Laws.{IsTable}
use openzigs_social.AutoReply.Decision.{RoutingThresholds, queue, at_least, passes, decide_routing}
use openzigs_social.AutoReply.Audit.{
  pending, is_pending, sent, AuditFinalizeInput, AuditRow, row_id, get, new_row, finalize,
}
use openzigs_social.AutoReply.Rows.{add-returns, add-table, find-new}
use openzigs_social.AutoReply.Pipeline.{
  AutoReplyRequest, AutoReplyResolveInput, Delivery, Replies, Sending, awaiting, settle_send,
  verdict, start_evaluate, approve_sending, resolve_existing, start_resolve, evaluate,
}
use openzigs_social.AutoReply.Faithful.{texts, texts-snoc}
use openzigs_social.AutoReply.Trail.{Send, audit_input}

-- The veto: with a hit the score is zero, below every threshold that is not zero.
veto :
    (hits : List String) (confidence tone : Fraction) (t : RoutingThresholds)
    → hits ≢ []
    → 0 < t.voice_threshold.num
    → passes
        (record {
          confidence = confidence;
          voice_match = if ltb 0 (length hits) then zero_score else tone;
        })
        t
      ≡ false
veto [] confidence tone t hit strict = absurd (hit refl)
veto (h ∷ hits) confidence tone t hit strict = ground arith

module _ (js : Text) (now later : ℕ) (send : Send) (enabled : Bool) (thresholds : RoutingThresholds)
    (request : AutoReplyRequest) (w : Replies) where
  banned-passes :
      find_banned_hits js request.draft (Rulebook.get w.rulebook).banned_words ≢ []
      → 0 < thresholds.voice_threshold.num
      → (verdict js thresholds request (Rulebook.get w.rulebook)).1.auto_send ≡ false
  unfolding verdict score_voice decide_routing
  banned-passes hit strict = veto _ request.confidence _ thresholds hit strict

  verdict-action :
      (verdict js thresholds request (Rulebook.get w.rulebook)).1.auto_send ≡ false
      → (verdict js thresholds request (Rulebook.get w.rulebook)).1.action ≡ queue
  unfolding verdict decide_routing
  verdict-action low = rw low refl

  -- On a well-formed audit table, if a draft has a banned word of the saved rulebook and the
  -- voice threshold is above zero, evaluating it delivers nothing, whether sending is enabled or
  -- not, and leaves a new pending row with the draft and the decision to queue.
  pub evaluate-banned :
      IsTable row_id w.table
      → find_banned_hits js request.draft (Rulebook.get w.rulebook).banned_words ≢ []
      → 0 < thresholds.voice_threshold.num
      → let w' = (evaluate js now later send enabled thresholds request w).1 in
        (w'.delivered ≡ w.delivered)
        × ((r : AuditRow) × (find row_id (suc w.table.seq) w'.table.rows ≡ some r)
            × (r.draft_text ≡ request.draft)
            × (r.outcome ≡ pending)
            × (r.decision ≡ queue))
  unfolding evaluate start_evaluate
  evaluate-banned t hit strict =
      let input = audit_input js thresholds request w in
      let low = banned-passes hit strict in
      let off : (enabled && (verdict js thresholds request (Rulebook.get w.rulebook)).1.auto_send)
          ≡ false =
        ground (arith, low) in
      rw (add-returns now input w.table t, add-table now input w.table t)
        (rw off (
          refl,
          (
            new_row now input (suc w.table.seq),
            find-new now input w.table t,
            refl,
            refl,
            verdict-action low,
          ),
        ))

-- The score of a draft with a hit, against a threshold that is zero.
no_veto :
    (hits : List String) (confidence tone : Fraction) (t : RoutingThresholds)
    → hits ≢ []
    → t.voice_threshold.num ≡ 0
    → at_least confidence t.confidence_threshold ≡ true
    → passes
        (record {
          confidence = confidence;
          voice_match = if ltb 0 (length hits) then zero_score else tone;
        })
        t
      ≡ true
no_veto [] confidence tone t hit lax sure = absurd (hit refl)
no_veto (h ∷ hits) confidence tone t hit lax sure = ground (arith, lax, sure)

texts-own :
    (k : ℕ) (ds : List Delivery) (d : Delivery)
    → d.audit_id ≡ k
    → texts k (ds ++ d ∷ []) ≡ texts k ds ++ d.text ∷ []
texts-own k ds d own = texts-snoc k ds d ∙ rw ((==_iff d.audit_id k).1 own) refl

sent-delivered :
    (now : ℕ) (s : Sending) (w : Replies)
    → (settle_send now s (ok tt) w).1.delivered
      ≡ w.delivered ++ record { audit_id = s.audit_id; text = s.text; context = s.context } ∷ []
unfolding settle_send
sent-delivered now s w =
    let input : AuditFinalizeInput = record {
      outcome = sent;
      final_text = some s.text;
      human_override = s.human_override;
    } in
    elim (Result-cases (finalize now s.audit_id input w.table).0) [
      | inl (audit, done) ↦ rw done refl
      | inr (e, thrown) ↦ rw thrown refl
    ]

banned-sends :
    (js : Text) (thresholds : RoutingThresholds) (request : AutoReplyRequest) (w : Replies)
    → find_banned_hits js request.draft (Rulebook.get w.rulebook).banned_words ≢ []
    → thresholds.voice_threshold.num ≡ 0
    → at_least request.confidence thresholds.confidence_threshold ≡ true
    → (verdict js thresholds request (Rulebook.get w.rulebook)).1.auto_send ≡ true
unfolding verdict score_voice decide_routing
banned-sends js thresholds request w hit lax sure =
    no_veto _ request.confidence _ thresholds hit lax sure

-- On a well-formed audit table, if a draft has a banned word of the saved rulebook, the voice
-- threshold is zero, the confidence reaches its threshold, sending is enabled and `send`
-- succeeds, then evaluating the draft delivers it, for its new row.
pub evaluate-banned_sent :
    (js : Text) (now later : ℕ) (thresholds : RoutingThresholds) (request : AutoReplyRequest)
    (w : Replies)
    → IsTable row_id w.table
    → find_banned_hits js request.draft (Rulebook.get w.rulebook).banned_words ≢ []
    → thresholds.voice_threshold.num ≡ 0
    → at_least request.confidence thresholds.confidence_threshold ≡ true
    → texts
        (suc w.table.seq)
        (evaluate js now later (λ _ _. ok tt) true thresholds request w).1.delivered
      ≡ texts (suc w.table.seq) w.delivered ++ request.draft ∷ []
unfolding evaluate start_evaluate
evaluate-banned_sent js now later thresholds request w t hit lax sure =
    let input = audit_input js thresholds request w in
    rw (add-returns now input w.table t, add-table now input w.table t)
      (rw (banned-sends js thresholds request w hit lax sure) (
        ap (texts (suc w.table.seq)) (sent-delivered later _ _)
        ∙ texts-own (suc w.table.seq) w.delivered _ refl))

abbrev pub approval : Option String → AutoReplyResolveInput
approval edited = record { approve = true; edited_text = edited }

start_resolve-pending :
    (now k : ℕ) (edited : Option String) (w : Replies) (r : AuditRow)
    → find row_id k w.table.rows ≡ some r
    → is_pending r.outcome ≡ true
    → start_resolve now k (approval edited) w
      ≡ (ok (awaiting (approve_sending k (approval edited) r)), w)
unfolding start_resolve get
start_resolve-pending now k edited w r here open' = rw (here, resolve_existing) (rw open' refl)

settle_send-delivered :
    (now k : ℕ) (edited : Option String) (existing : AuditRow) (w : Replies)
    → (settle_send now (approve_sending k (approval edited) existing) (ok tt) w).1.delivered
      ≡ w.delivered
        ++ record {
          audit_id = k;
          text = get_or edited existing.draft_text;
          context = (approve_sending k (approval edited) existing).context;
        }
          ∷ []
unfolding settle_send
settle_send-delivered now k edited existing w =
    let input : AuditFinalizeInput = record {
      outcome = sent;
      final_text = some (get_or edited existing.draft_text);
      human_override = some (not (str_eq (get_or edited existing.draft_text) existing.draft_text));
    } in
    elim (Result-cases (finalize now k input w.table).0) [
      | inl (audit, done) ↦ rw done refl
      | inr (e, thrown) ↦ rw thrown refl
    ]

-- If a row is pending and two approvals of it begin before either has sent, both reach `send`,
-- and when both sends succeed two texts were delivered for the row, one after the other.
pub resolve-overlapping :
    (now later now' later' k : ℕ) (first second : Option String) (w : Replies) (r : AuditRow)
    → find row_id k w.table.rows ≡ some r
    → is_pending r.outcome ≡ true
    → let s = approve_sending k (approval first) r in
      let s' = approve_sending k (approval second) r in
      let w' = (settle_send later' s' (ok tt) (settle_send later s (ok tt) w).1).1 in
      (start_resolve now k (approval first) w ≡ (ok (awaiting s), w))
      × (start_resolve now' k (approval second) w ≡ (ok (awaiting s'), w))
      × (texts k w'.delivered
          ≡ texts k w.delivered ++ get_or first r.draft_text ∷ get_or second r.draft_text ∷ [])
resolve-overlapping now later now' later' k first second w r here open' =
    let s = approve_sending k (approval first) r in
    let w1 = (settle_send later s (ok tt) w).1 in
    (
      start_resolve-pending now k first w r here open',
      start_resolve-pending now' k second w r here open',
      ap (texts k) (settle_send-delivered later' k second r w1)
          ∙ texts-own k w1.delivered _ refl
          ∙ ap (λ xs. xs ++ get_or second r.draft_text ∷ [])
              (ap (texts k) (settle_send-delivered later k first r w)
                ∙ texts-own k w.delivered _ refl)
          ∙ append_assoc (texts k w.delivered) _ _,
    )
