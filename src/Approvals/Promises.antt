-- ===== src/Approvals/Promises.antt =====
-- Lemmas on approvals/approval-queue.ts: the promises of the requests, and the cap on the pending
-- ones.
use openzigs_social.Prelude.{
  ℕ, suc, ◌+◌, ◌≤◌, length, String, false, Option, none, some, List, [], ◌∷◌, ◌++◌, ◌≡◌, some_inj,
  refl, inl, inr, arith, ltb, ◌==◌, str_eq, if◌then◌else◌, Bool-cases,
}
use openzigs_social.Prelude.Maps.{get, set, remove}
use openzigs_social.Approvals.Keeps.{run-keeps, new_queue_lem}
use openzigs_social.Approvals.Queue.{
  OutcomeDecision, ApprovalOutcome, Entry, ApprovalQueue, new_queue, size, is_full, new_entry,
  enqueue, settle_entry, Call, run,
}

-- 1 if the number is the promise, else 0.
abbrev pub is_promise : ℕ → ℕ → ℕ
is_promise p n = if n == p then 1 else 0

module _ {P M : Type 0} where
  -- How many of the pending entries hold the promise `p`.
  abbrev pub waiting : ℕ → List (String × Entry P M) → ℕ
  waiting p [] = 0
  waiting p ((id, e) ∷ es) = is_promise p e.promise + waiting p es

  -- How many times the promise `p` was resolved.
  abbrev pub settled_times : ℕ → List (ℕ × ApprovalOutcome P M) → ℕ
  settled_times p [] = 0
  settled_times p ((n, o) ∷ os) = is_promise p n + settled_times p os

  -- A promise that was made is pending once or was resolved once, and not both.
  abbrev pub IsAccounted : ApprovalQueue P M → Type 0
  IsAccounted q =
      (p : ℕ)
      → waiting p q.entries + settled_times p q.resolved ≡ (if ltb p q.promises then 1 else 0)

  settled_times-append :
      (p : ℕ) (os os' : List (ℕ × ApprovalOutcome P M))
      → settled_times p (os ++ os') ≡ settled_times p os + settled_times p os'
  settled_times-append p [] os' = omega arith
  settled_times-append p ((n, o) ∷ os) os' = omega (arith, settled_times-append p os os')

  waiting-set :
      (p : ℕ) (id : String) (e : Entry P M) (es : List (String × Entry P M))
      → get id es ≡ none
      → waiting p (set id e es) ≡ waiting p es + is_promise p e.promise
  unfolding get set
  waiting-set p id e [] h = ground arith
  waiting-set p id e ((j, e') ∷ es) h = elim (Bool-cases (str_eq j id)) [
    | inl hit ↦ cc (rw hit at h)
    | inr miss ↦ rw miss (omega (arith, waiting-set p id e es (rw miss at h)))
  ]

  waiting-head :
      (p : ℕ) (e e' : Entry P M) (es : List (String × Entry P M))
      → some e' ≡ some e
      → waiting p es + is_promise p e.promise ≡ is_promise p e'.promise + waiting p es
  waiting-head p e e' es h = rw (some_inj h) (omega arith)

  waiting-remove :
      (p : ℕ) (id : String) (e : Entry P M) (es : List (String × Entry P M))
      → get id es ≡ some e
      → waiting p (remove id es) + is_promise p e.promise ≡ waiting p es
  unfolding get remove
  waiting-remove p id e [] h = cc
  waiting-remove p id e ((j, e') ∷ es) h = elim (Bool-cases (str_eq j id)) [
    | inl hit ↦ rw hit (waiting-head p e e' es (rw hit at h))
    | inr miss ↦ rw miss (omega (arith, waiting-remove p id e es (rw miss at h)))
  ]

  settle_entry-IsAccounted :
      (now : ℕ) (id : String) (decision : OutcomeDecision) (metadata : Option M) (e : Entry P M)
      (q : ApprovalQueue P M)
      → get id q.entries ≡ some e
      → IsAccounted q
      → IsAccounted (settle_entry now id decision metadata e q)
  unfolding settle_entry
  settle_entry-IsAccounted now id decision metadata e q here h p =
      omega (arith, h p, waiting-remove p id e q.entries here, settled_times-append p q.resolved _)

  enqueue-IsAccounted :
      (now : ℕ) (id : String) (payload : P) (timeout_ms : Option ℕ) (q : ApprovalQueue P M)
      → get id q.entries ≡ none
      → IsAccounted q
      → IsAccounted (enqueue now id payload timeout_ms q)
  unfolding enqueue
  enqueue-IsAccounted now id payload timeout_ms q fresh h p = ground (
    arith,
    h p,
    waiting-set p id (new_entry now id payload timeout_ms q.promises) q.entries fresh,
  )

  -- After any history of calls on a new queue, timers that fire included, each promise that was
  -- made is held by exactly one pending entry and was never resolved, or was resolved exactly
  -- once and is held by none, and no other number is a promise.
  pub run-IsAccounted :
      (default_timeout_ms max_pending : Option ℕ) (q : ApprovalQueue P M) (cs : List (Call P M))
      → new_queue default_timeout_ms max_pending ≡ some q
      → IsAccounted (run cs q)
  run-IsAccounted default_timeout_ms max_pending q cs h =
      run-keeps IsAccounted settle_entry-IsAccounted
        (λ now id payload timeout_ms q fresh room i.
          enqueue-IsAccounted now id payload timeout_ms q fresh i)
        (λ h q i. i) cs q
        (rw (← new_queue_lem default_timeout_ms max_pending q h) λ p. ground arith)

  -- A queue whose pending requests are within its cap.
  abbrev pub IsBounded : ℕ → ApprovalQueue P M → Type 0
  IsBounded max q = (q.max_pending ≡ some max) × (size q ≤ max)

  length-set :
      (id : String) (e : Entry P M) (es : List (String × Entry P M))
      → length (set id e es) ≤ suc (length es)
  unfolding set
  length-set id e [] = omega arith
  length-set id e ((j, e') ∷ es) = ground (arith, length-set id e es)

  length-remove : (id : String) (es : List (String × Entry P M)) → length (remove id es) ≤ length es
  unfolding remove
  length-remove id [] = omega arith
  length-remove id ((j, e') ∷ es) = ground (arith, length-remove id es)

  settle_entry-IsBounded :
      (max now : ℕ) (id : String) (decision : OutcomeDecision) (metadata : Option M) (e : Entry P M)
      (q : ApprovalQueue P M)
      → IsBounded max q
      → IsBounded max (settle_entry now id decision metadata e q)
  unfolding settle_entry
  settle_entry-IsBounded max now id decision metadata e q (cap, b) =
      (cap, omega (arith, length-remove id q.entries))

  enqueue-IsBounded :
      (max now : ℕ) (id : String) (payload : P) (timeout_ms : Option ℕ) (q : ApprovalQueue P M)
      → is_full q q.max_pending ≡ false
      → IsBounded max q
      → IsBounded max (enqueue now id payload timeout_ms q)
  unfolding enqueue
  enqueue-IsBounded max now id payload timeout_ms q room (cap, b) = (
    cap,
    ground (
      arith,
      rw cap at room,
      length-set id (new_entry now id payload timeout_ms q.promises) q.entries,
    ),
  )

  -- After any history of calls on a new queue with a cap, the number of pending requests is at
  -- most the cap.
  size-run :
      (default_timeout_ms : Option ℕ) (max : ℕ) (q : ApprovalQueue P M) (cs : List (Call P M))
      → new_queue default_timeout_ms (some max) ≡ some q
      → size (run cs q) ≤ max
  size-run default_timeout_ms max q cs h =
      (run-keeps (IsBounded max)
        (λ now id decision metadata e q here i.
          settle_entry-IsBounded max now id decision metadata e q i)
        (λ now id payload timeout_ms q fresh room i.
          enqueue-IsBounded max now id payload timeout_ms q room i)
        (λ h q i. i) cs q
        (rw (← new_queue_lem default_timeout_ms (some max) q h) (refl, omega arith))).1
