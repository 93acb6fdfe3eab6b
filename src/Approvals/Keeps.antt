-- ===== src/Approvals/Keeps.antt =====
-- Lemmas on approvals/approval-queue.ts: invariants over the calls of the queue.
use openzigs_social.Prelude.{
  ℕ, suc, String, true, false, Option, none, some, get_or, List, [], ◌∷◌, ◌≡◌, some_inj, refl, ◌⊎◌,
  inl, inr, is_some, ◌==◌, if◌then◌else◌, Bool-cases, Option-cases,
}
use openzigs_social.Prelude.Maps.{get}
use openzigs_social.Approvals.Queue.{
  OutcomeDecision, timeout, decided, RequestOptions, Entry, ApprovalQueue, empty_queue, new_queue,
  has, invalid_id, is_full, enqueue, request, clear_timeout, settle_entry, settle, decide,
  settle_all, clear, callback, fire, Call, request_call, decide_call, clear_call, fire_call, step,
  run,
}

module _ {P M : Type 0} where
  pub settle-cases :
      (now : ℕ) (id : String) (decision : OutcomeDecision) (metadata : Option M)
      (q : ApprovalQueue P M)
      → (settle now id decision metadata q ≡ (false, q))
        ⊎ ((e : Entry P M) × (get id q.entries ≡ some e)
            × (settle now id decision metadata q
                ≡ (true, settle_entry now id decision metadata e q)))
  unfolding settle
  settle-cases now id decision metadata q = elim (Option-cases (get id q.entries)) [
    | inl gone ↦ inl (rw (gone, settle) refl)
    | inr (e, here) ↦ elim (Bool-cases e.settled) [
      | inl twice ↦ inl (rw (here, settle) (rw twice refl))
      | inr once ↦ inr (e, here, rw (here, settle) (rw once refl))
    ]
  ]

  pub new_queue_lem :
      (default_timeout_ms max_pending : Option ℕ) (q : ApprovalQueue P M)
      → new_queue default_timeout_ms max_pending ≡ some q
      → empty_queue default_timeout_ms max_pending ≡ q
  unfolding new_queue
  new_queue_lem default_timeout_ms none q h = some_inj h
  new_queue_lem default_timeout_ms (some n) q h = elim (Bool-cases (n == 0)) [
    | inl z ↦ cc (rw z at h)
    | inr s ↦ some_inj (rw s at h)
  ]

  pub request-cases :
      (now : ℕ) (uuid : String) (payload : P) (opts : RequestOptions) (q : ApprovalQueue P M)
      → ((request now uuid payload opts q).1 ≡ q)
        ⊎ ((id : String) × (timeout_ms : Option ℕ) × (get id q.entries ≡ none)
            × (is_full q q.max_pending ≡ false)
            × ((request now uuid payload opts q).1 ≡ enqueue now id payload timeout_ms q))
  unfolding request has
  request-cases now uuid payload opts q = elim (Bool-cases (invalid_id opts.id)) [
    | inl bad ↦ inl (rw bad refl)
    | inr good ↦ elim (Option-cases (get (get_or opts.id uuid) q.entries)) [
      | inr (e, taken) ↦ inl (rw (good, taken) refl)
      | inl fresh ↦ elim (Bool-cases (is_full q q.max_pending)) [
        | inl full ↦ inl (rw (good, fresh, full) refl)
        | inr room ↦ inr (
          get_or opts.id uuid,
          if is_some opts.timeout_ms then opts.timeout_ms else q.default_timeout_ms,
          fresh,
          room,
          rw (good, fresh, room) refl,
        )
      ]
    ]
  ]

  module _ (I : ApprovalQueue P M → Type 0)
      (keeps_settle : (now : ℕ) (id : String) (decision : OutcomeDecision) (metadata : Option M)
          (e : Entry P M) (q : ApprovalQueue P M)
        → get id q.entries ≡ some e
        → I q
        → I (settle_entry now id decision metadata e q))
      (keeps_enqueue : (now : ℕ) (id : String) (payload : P) (timeout_ms : Option ℕ)
          (q : ApprovalQueue P M)
        → get id q.entries ≡ none
        → is_full q q.max_pending ≡ false
        → I q
        → I (enqueue now id payload timeout_ms q))
      (keeps_timers : (h : ℕ) (q : ApprovalQueue P M)
        → I q
        → I (record q { timers = clear_timeout (some h) q.timers })) where
    pub settle-keeps :
        (now : ℕ) (id : String) (decision : OutcomeDecision) (metadata : Option M)
        (q : ApprovalQueue P M)
        → I q
        → I (settle now id decision metadata q).1
    settle-keeps now id decision metadata q i = elim (settle-cases now id decision metadata q) [
      | inl e ↦ rw e i
      | inr (entry, here, e) ↦ rw e (keeps_settle now id decision metadata entry q here i)
    ]

    settle_all-keeps :
        (clock : ℕ → ℕ) (ids : List String) (q : ApprovalQueue P M)
        → I q
        → I (settle_all clock ids q)
    unfolding settle_all
    settle_all-keeps clock [] q i = i
    settle_all-keeps clock (id ∷ ids) q i =
        settle_all-keeps (λ k. clock (suc k)) ids _ (settle-keeps (clock 0) id timeout none q i)

    fire-keeps : (now h : ℕ) (q : ApprovalQueue P M) → I q → I (fire now h q)
    unfolding fire
    fire-keeps now h q i = elim (Option-cases (callback h q.timers)) [
      | inl gone ↦ rw (gone, fire) i
      | inr (id, here) ↦ rw (here, fire) (settle-keeps now id timeout none _ (keeps_timers h q i))
    ]

    step-keeps : (c : Call P M) (q : ApprovalQueue P M) → I q → I (step c q)
    unfolding step decide clear
    step-keeps (request_call now uuid payload opts) q i =
        elim (request-cases now uuid payload opts q) [
          | inl e ↦ rw e i
          | inr (id, timeout_ms, fresh, room, e) ↦
              rw e (keeps_enqueue now id payload timeout_ms q fresh room i)
        ]
    step-keeps (decide_call now id decision metadata) q i =
        settle-keeps now id (decided decision) metadata q i
    step-keeps (clear_call clock) q i = settle_all-keeps clock _ q i
    step-keeps (fire_call now h) q i = fire-keeps now h q i

    pub run-keeps : (cs : List (Call P M)) (q : ApprovalQueue P M) → I q → I (run cs q)
    unfolding run
    run-keeps [] q i = i
    run-keeps (c ∷ cs) q i = run-keeps cs (step c q) (step-keeps c q i)
