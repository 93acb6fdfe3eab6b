-- ===== src/AutoReply/Landed.antt =====
-- routing/pipeline.ts: histories of its halves in any interleaving, against the audit rows.
use openzigs_social.Prelude.{
  ℕ, zero, suc, ◌≤◌, ◌<◌, String, Bool, false, ◌&&◌, Option, none, some, List, [], ◌∷◌, ◌++◌, ◌≡◌,
  refl, ap, sym, ◌∙◌, inl, inr, arith, ◌==◌, ==_iff, Bool-cases, Option-cases, All, some_inj,
}
use mathlib.Core.List.{append-nil}
use openzigs_social.Effects.{Result, ok, err}
use openzigs_social.Personality.Profiler.{Text}
use openzigs_social.Personality.Rulebook as Rulebook
use openzigs_social.Sql.{insert, find, update_where, delete_where}
use openzigs_social.Sql.Laws.{IsTable, insert-IsTable, update-IsTable, find-le}
use openzigs_social.AutoReply.Decision.{RoutingThresholds}
use openzigs_social.AutoReply.Audit.{
  sent, is_pending, AuditRow, AuditTable, AuditRecordInput, AuditFinalizeInput, AuditPruneInput,
  row_id, get, new_row, finalized_row, finalize, prune, prune_older, prune_cap,
}
use openzigs_social.AutoReply.Prune.{prune-IsRetained}
use openzigs_social.AutoReply.Rows.{
  find-add, final_table, find-final, add-returns, add-table, finalize-returns, finalize-table,
}
use openzigs_social.AutoReply.Pipeline.{
  AutoReplyRequest, AutoReplyResolveInput, Delivery, Replies, Sending, verdict, settle_send,
  start_evaluate, resolve_existing, start_resolve,
}
use openzigs_social.AutoReply.Faithful.{texts, told, texts-snoc, rejection, is_pending-told}
use openzigs_social.AutoReply.Trail.{audit_input}
use openzigs_social.AutoReply.Flights.{
  Flights, no_flights, take_off, pick, Event, evaluate_starts, resolve_starts, send_ends, saves,
  prunes, land_at, step, run,
}

-- The last text, if there is one.
abbrev pub last_of : List String → List String
last_of [] = []
last_of (x ∷ []) = x ∷ []
last_of (x ∷ y ∷ ys) = last_of (y ∷ ys)

last_of-snoc : (xs : List String) (x : String) → last_of (xs ++ x ∷ []) ≡ x ∷ []
last_of-snoc [] x = refl
last_of-snoc (y ∷ []) x = refl
last_of-snoc (y ∷ z ∷ zs) x = last_of-snoc (z ∷ zs) x

record IsTold (t : AuditTable) (ds : List Delivery) (ws : List Sending) : Type 0 where
  table : IsTable row_id t
  tells :
      (k : ℕ) (r : AuditRow) → find row_id k t.rows ≡ some r → last_of (texts k ds) ≡ told (some r)
  fresh : (k : ℕ) → t.seq < k → texts k ds ≡ []
  known : All (λ s. s.audit_id ≤ t.seq) ws

known-weaken :
    (m n : ℕ) (ws : List Sending)
    → m ≤ n
    → All (λ s. s.audit_id ≤ m) ws
    → All (λ s. s.audit_id ≤ n) ws
known-weaken m n [] le h = tt
known-weaken m n (s ∷ ws) le h = (omega (arith, le, h.0), known-weaken m n ws le h.1)

add-IsTold :
    (now : ℕ) (input : AuditRecordInput) (t : AuditTable) (ds : List Delivery) (ws : List Sending)
    → IsTold t ds ws
    → input.outcome ≡ none
    → IsTold (insert (new_row now input) t) ds ws
unfolding insert
add-IsTold now input t ds ws i new = record {
  table = insert-IsTable row_id (new_row now input) t refl i.table;
  tells = λ k r h. elim (Bool-cases (suc t.seq == k)) [
    | inl hit ↦
        ap last_of (i.fresh k (omega (arith, (==_iff (suc t.seq) k).0 hit)))
        ∙ sym (ap told (sym h ∙ find-add now input t i.table k) ∙ rw (hit, new) refl)
    | inr miss ↦ i.tells k r (sym (find-add now input t i.table k ∙ rw miss refl) ∙ h)
  ];
  fresh = λ k h. i.fresh k (omega (arith, h));
  known = known-weaken t.seq (suc t.seq) ws (omega arith) i.known;
}

final-IsTold :
    (now k : ℕ) (input : AuditFinalizeInput) (t : AuditTable) (r : AuditRow)
    (ds ds' : List Delivery) (ws : List Sending)
    → IsTold t ds ws
    → find row_id k t.rows ≡ some r
    → ((j : ℕ) → (k == j) ≡ false → texts j ds' ≡ texts j ds)
    → last_of (texts k ds') ≡ told (some (finalized_row now input r r))
    → IsTold (final_table now k input t r) ds' ws
unfolding update_where
final-IsTold now k input t r ds ds' ws i here others own = record {
  table = update-IsTable row_id (λ x. x.id == k) (finalized_row now input r) (λ x. refl) t i.table;
  tells = λ j x h. elim (Bool-cases (k == j)) [
    | inl hit ↦
        let at : find row_id j (final_table now k input t r).rows
            ≡ some (finalized_row now input r r) =
          find-final now k input t r here j ∙ rw hit refl in
        ap (λ m. last_of (texts m ds')) (sym ((==_iff k j).0 hit)) ∙ own ∙ ap told (sym at ∙ h)
    | inr miss ↦
        ap last_of (others j miss)
        ∙ i.tells j x (sym (find-final now k input t r here j ∙ rw miss refl) ∙ h)
  ];
  fresh = λ j h.
      let le = find-le row_id k t.seq t.rows r i.table here in
      others j (ground (arith, h, le)) ∙ i.fresh j h;
  known = i.known;
}

abbrev delivery : Sending → Delivery
delivery s = record { audit_id = s.audit_id; text = s.text; context = s.context }

texts-others :
    (s : Sending) (ds : List Delivery) (j : ℕ)
    → (s.audit_id == j) ≡ false
    → texts j (ds ++ delivery s ∷ []) ≡ texts j ds
texts-others s ds j miss = texts-snoc j ds (delivery s) ∙ rw miss (append-nil (texts j ds))

last_text :
    (s : Sending) (ds : List Delivery)
    → last_of (texts s.audit_id (ds ++ delivery s ∷ [])) ≡ s.text ∷ []
last_text s ds =
    let own : texts s.audit_id (ds ++ delivery s ∷ []) ≡ texts s.audit_id ds ++ s.text ∷ [] =
      texts-snoc s.audit_id ds (delivery s) ∙ rw ((==_iff s.audit_id s.audit_id).1 refl) refl in
    ap last_of own ∙ last_of-snoc (texts s.audit_id ds) s.text

settle_send-IsTold :
    (now : ℕ) (s : Sending) (outcome : Result String (Unit {0})) (w : Replies) (ws : List Sending)
    → IsTold w.table w.delivered ws
    → s.audit_id ≤ w.table.seq
    → let w' = (settle_send now s outcome w).1 in IsTold w'.table w'.delivered ws
unfolding settle_send
settle_send-IsTold now s (err e) w ws i le = i
settle_send-IsTold now s (ok u) w ws i le =
    let input : AuditFinalizeInput = record {
      outcome = sent;
      final_text = some s.text;
      human_override = s.human_override;
    } in
    elim (Option-cases (find row_id s.audit_id w.table.rows)) [
      | inr (r, here) ↦
          rw
            (
              finalize-returns now s.audit_id input w.table r here,
              finalize-table now s.audit_id input w.table r here,
            )
            (final-IsTold now s.audit_id input w.table r w.delivered
              (w.delivered ++ delivery s ∷ []) ws i here (texts-others s w.delivered)
              (last_text s w.delivered))
      | inl missing ↦
          rw (missing, finalize)
            (record {
              table = i.table;
              tells = λ j x h. elim (Bool-cases (s.audit_id == j)) [
                | inl hit ↦ cc (missing, h, (==_iff s.audit_id j).0 hit)
                | inr miss ↦ ap last_of (texts-others s w.delivered j miss) ∙ i.tells j x h
              ];
              fresh = λ j h. texts-others s w.delivered j (ground (arith, h, le)) ∙ i.fresh j h;
              known = i.known;
            })
    ]

abbrev AreTold : Flights → Type 0
AreTold f = IsTold f.replies.table f.replies.delivered f.waiting

land-IsTold :
    {t : AuditTable} {ds : List Delivery} {ws : List Sending} (s : Sending)
    → IsTold t ds ws
    → s.audit_id ≤ t.seq
    → IsTold t ds (s ∷ ws)
land-IsTold s i le = record {
  table = i.table;
  tells = i.tells;
  fresh = i.fresh;
  known = (le, i.known);
}

evaluate-AreTold :
    (js : Text) (now : ℕ) (enabled : Bool) (thresholds : RoutingThresholds)
    (request : AutoReplyRequest) (f : Flights)
    → AreTold f
    → AreTold (take_off (start_evaluate js now enabled thresholds request f.replies) f.waiting)
unfolding start_evaluate insert
evaluate-AreTold js now enabled thresholds request f i =
    let w = f.replies in
    let input = audit_input js thresholds request w in
    let i' = add-IsTold now input w.table w.delivered f.waiting i refl in
    rw (add-returns now input w.table i.table, add-table now input w.table i.table)
      (elim (Bool-cases
        (enabled && (verdict js thresholds request (Rulebook.get w.rulebook)).1.auto_send)) [
          | inr queued ↦ rw queued i'
          | inl sends ↦ rw sends (land-IsTold _ i' (omega arith))
        ])

resolve-AreTold :
    (now k : ℕ) (input : AutoReplyResolveInput) (f : Flights)
    → AreTold f
    → AreTold (take_off (start_resolve now k input f.replies) f.waiting)
unfolding start_resolve get
resolve-AreTold now k input f i =
    let w = f.replies in
    elim (Option-cases (find row_id k w.table.rows)) [
      | inl none' ↦ rw (none', resolve_existing) i
      | inr (r, here) ↦
          rw (here, resolve_existing)
            (elim (Bool-cases (is_pending r.outcome)) [
              | inr done ↦ rw done i
              | inl open' ↦ rw open' (elim (Bool-cases input.approve) [
                | inl yes' ↦
                    rw yes'
                      (land-IsTold _ i (find-le row_id k w.table.seq w.table.rows r i.table here))
                | inr no' ↦ rw no' (
                    rw
                      (
                        finalize-returns now k rejection w.table r here,
                        finalize-table now k rejection w.table r here,
                      )
                      (final-IsTold now k rejection w.table r w.delivered w.delivered f.waiting i
                        here (λ j _. refl) (i.tells k r here ∙ is_pending-told r open')))
              ])
            ])
    ]

older-seq : (older : Option ℕ) (t : AuditTable) → (prune_older older t).seq ≡ t.seq
unfolding prune_older delete_where
older-seq none t = refl
older-seq (some cutoff) t = refl

cap-seq : (max_rows : Option ℕ) (t : AuditTable) → (prune_cap max_rows t).seq ≡ t.seq
unfolding prune_cap delete_where
cap-seq none t = refl
cap-seq (some most) t = refl

prune-seq : (input : AuditPruneInput) (t : AuditTable) → (prune input t).1.seq ≡ t.seq
unfolding prune
prune-seq input t =
    cap-seq input.max_rows (prune_older input.older_than t) ∙ older-seq input.older_than t

prune-AreTold :
    (input : AuditPruneInput) (f : Flights)
    → AreTold f
    → IsTold (prune input f.replies.table).1 f.replies.delivered f.waiting
prune-AreTold input f i =
    let p = prune-IsRetained input f.replies.table i.table in
    let same = prune-seq input f.replies.table in
    record {
      table = p.table;
      tells = λ k r h. i.tells k r (p.old k r h);
      fresh = λ k h. i.fresh k (omega (arith, h, same));
      known = known-weaken f.replies.table.seq _ f.waiting (omega (arith, same)) i.known;
    }

pick-known :
    (n m : ℕ) (ws : List Sending) (s : Sending) (rest : List Sending)
    → pick n ws ≡ some (s, rest)
    → All (λ x. x.audit_id ≤ m) ws
    → (s.audit_id ≤ m) × All (λ x. x.audit_id ≤ m) rest
pick-known n m [] s rest h k = cc h
pick-known zero m (x ∷ ws) s rest h k =
    let e = some_inj h in rw (← ap (λ p. p.0) e, ← ap (λ p. p.1) e) k
pick-known (suc n) m (x ∷ ws) s rest h k = elim (Option-cases (pick n ws)) [
  | inl none' ↦ cc (rw none' at h)
  | inr ((y, ys), here) ↦
      let e = some_inj (rw here at h) in
      let (low, all') = pick-known n m ws y ys here k.1 in
      (rw (← ap (λ p. p.0) e) low, rw (← ap (λ p. p.1) e) (k.0, all'))
]

send-AreTold :
    (now place : ℕ) (outcome : Result String (Unit {0})) (f : Flights)
    → AreTold f
    → AreTold (land_at now outcome f (pick place f.waiting))
send-AreTold now place outcome f i = elim (Option-cases (pick place f.waiting)) [
  | inl none' ↦ rw none' i
  | inr ((s, ws), here) ↦
      let (le, known') = pick-known place f.replies.table.seq f.waiting s ws here i.known in
      let left : IsTold f.replies.table f.replies.delivered ws = record {
        table = i.table;
        tells = i.tells;
        fresh = i.fresh;
        known = known';
      } in
      rw here (settle_send-IsTold now s outcome f.replies ws left le)
]

step-AreTold : (js : Text) (e : Event) (f : Flights) → AreTold f → AreTold (step js e f)
unfolding step
step-AreTold js (evaluate_starts now enabled thresholds request) f i =
    evaluate-AreTold js now enabled thresholds request f i
step-AreTold js (resolve_starts now k input) f i = resolve-AreTold now k input f i
step-AreTold js (send_ends now place outcome) f i = send-AreTold now place outcome f i
step-AreTold js (saves now input) f i = i
step-AreTold js (prunes input) f i = prune-AreTold input f i

run-AreTold : (js : Text) (es : List Event) (f : Flights) → AreTold f → AreTold (run js es f)
unfolding run
run-AreTold js [] f i = i
run-AreTold js (e ∷ es) f i = run-AreTold js es (step js e f) (step-AreTold js e f i)

-- After any history of first halves of `evaluate` and `resolve`, of awaited sends that end in
-- any order with any outcome, of saved rulebooks and of prunes, on an empty store, an audit row
-- that is there tells the last text that was delivered for it: its final text if it is sent, and
-- no text was delivered for it if it is pending or rejected.
pub texts-run :
    (js : Text) (es : List Event) (k : ℕ) (r : AuditRow)
    → find row_id k (run js es no_flights).replies.table.rows ≡ some r
    → last_of (texts k (run js es no_flights).replies.delivered) ≡ told (some r)
unfolding find
texts-run js es k r h =
    (run-AreTold js es no_flights (record {
      table = omega arith;
      tells = λ j x none'. cc none';
      fresh = λ j _. refl;
      known = tt;
    })).tells
      k r h
