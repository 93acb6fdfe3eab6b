-- ===== src/Approvals/Settling.antt =====
-- Lemmas on approvals/approval-queue.ts: settling by a timer, by a decision and by `clear`.
use openzigs_social.Prelude.{
  ℕ, suc, ◌+◌, String, true, false, Option, none, some, List, [], ◌∷◌, ◌++◌, map, ◌≡◌, refl, ap,
  sym, ◌∙◌, inl, inr, arith, eq_iff, Option-cases, length, length-append, is_some,
}
use mathlib.Core.Path.{subst}
use openzigs_social.Prelude.Maps.{get, remove, IsMap, get-remove}
use openzigs_social.Approvals.Keeps.{settle-cases}
use openzigs_social.Approvals.Queue.{
  OutcomeDecision, decided, timeout, Entry, ApprovalQueue, Decision, new_queue, has, size,
  clear_timeout, settle_entry, settle, decide, settle_all, clear, callback, fire, Call, run,
}
use openzigs_social.Approvals.Timers.{callback-clear, IsArmed, settle_entry-IsArmed, run-IsArmed}

module _ {P M : Type 0} where
  settle_lem :
      (now : ℕ) (id : String) (decision : OutcomeDecision) (metadata : Option M) (e : Entry P M)
      (q : ApprovalQueue P M)
      → get id q.entries ≡ some e
      → e.settled ≡ false
      → settle now id decision metadata q ≡ (true, settle_entry now id decision metadata e q)
  unfolding settle
  settle_lem now id decision metadata e q here fresh = rw (here, settle) (rw fresh refl)

  get-remove-same :
      (id : String) (es : List (String × Entry P M)) → IsMap es → get id (remove id es) ≡ none
  get-remove-same id es table = get-remove id id es table ∙ rw ((eq_iff id id).1 refl) refl

  settle-none :
      (now : ℕ) (id : String) (decision : OutcomeDecision) (metadata : Option M)
      (q : ApprovalQueue P M)
      → get id q.entries ≡ none
      → settle now id decision metadata q ≡ (false, q)
  unfolding settle
  settle-none now id decision metadata q gone = rw (gone, settle) refl

  gone :
      (now : ℕ) (id : String) (d : OutcomeDecision) (metadata : Option M) (e : Entry P M)
      (q : ApprovalQueue P M)
      → IsMap q.entries
      → get id (settle_entry now id d metadata e q).entries ≡ none
  unfolding settle_entry
  gone now id d metadata e q table = get-remove-same id q.entries table

  -- After any history on a new queue, a timer that is still armed belongs to a pending request:
  -- when it fires, the timer's own promise is resolved with `timeout`, the request is gone and
  -- the timer is gone.
  pub fire_lem :
      (default_timeout_ms max_pending : Option ℕ) (q₀ : ApprovalQueue P M) (cs : List (Call P M))
      (now h : ℕ) (id : String)
      → new_queue default_timeout_ms max_pending ≡ some q₀
      → let q = run cs q₀ in
        callback h q.timers ≡ some id
        → ((fire now h q).resolved
            ≡ q.resolved
              ++ (h, record { id = id; decision = timeout; decided_at = now; metadata = none })
                ∷ [])
          × (has id q ≡ true)
          × (has id (fire now h q) ≡ false)
          × (callback h (fire now h q).timers ≡ none)
  unfolding fire has settle_entry
  fire_lem default_timeout_ms max_pending q₀ cs now h id new c =
      let q = run cs q₀ in
      let (table, fresh, armed) = run-IsArmed default_timeout_ms max_pending q₀ cs new in
      let (e, here, timed, same) = armed h id c in
      let done =
        settle_lem now id timeout none e (record q { timers = clear_timeout (some h) q.timers })
          here (fresh id e here) in
      rw (c, fire)
        (rw done (
          ap
              (λ n.
                q.resolved
                ++ (n, record { id = id; decision = timeout; decided_at = now; metadata = none })
                  ∷ [])
              same,
          rw here refl,
          ap is_some (get-remove-same id q.entries table),
          rw timed (callback-clear h h (clear_timeout (some h) q.timers) ∙ ground arith),
        ))

  -- After any history on a new queue, once an id was settled or found settled, a decision on it
  -- returns false and changes nothing.
  decide-settle :
      (default_timeout_ms max_pending : Option ℕ) (q₀ : ApprovalQueue P M) (cs : List (Call P M))
      (now now' : ℕ) (id : String) (d : OutcomeDecision) (d' : Decision)
      (metadata metadata' : Option M)
      → new_queue default_timeout_ms max_pending ≡ some q₀
      → let q' = (settle now id d metadata (run cs q₀)).1 in
        decide now' id d' metadata' q' ≡ (false, q')
  unfolding decide
  decide-settle default_timeout_ms max_pending q₀ cs now now' id d d' metadata metadata' new =
      let q = run cs q₀ in
      let (table, fresh, armed) = run-IsArmed default_timeout_ms max_pending q₀ cs new in
      elim (settle-cases now id d metadata q) [
        | inl same ↦ rw same (elim (settle-cases now' id (decided d') metadata' q) [
          | inl again ↦ again
          | inr (e, here, first) ↦
              cc (same, settle_lem now id d metadata e q here (fresh id e here))
        ])
        | inr (e, here, first) ↦ rw first (
            settle-none now' id (decided d') metadata' (settle_entry now id d metadata e q)
              (gone now id d metadata e q table))
      ]

  get-head :
      (id : String) (e : Entry P M) (es : List (String × Entry P M)) (q : ApprovalQueue P M)
      → q.entries ≡ (id, e) ∷ es
      → get id q.entries ≡ some e
  unfolding get
  get-head id e es q same = rw same (rw ((eq_iff id id).1 refl) refl)

  entries-head :
      (now : ℕ) (id : String) (e : Entry P M) (es : List (String × Entry P M))
      (q : ApprovalQueue P M)
      → q.entries ≡ (id, e) ∷ es
      → (settle_entry now id timeout none e q).entries ≡ es
  unfolding settle_entry remove
  entries-head now id e es q same = ap (remove id) same ∙ rw ((eq_iff id id).1 refl) refl

  resolved-settle_entry :
      (now : ℕ) (id : String) (e : Entry P M) (q : ApprovalQueue P M)
      → length (settle_entry now id timeout none e q).resolved ≡ suc (length q.resolved)
  unfolding settle_entry
  resolved-settle_entry now id e q = omega (
    arith,
    length-append q.resolved (
        (e.promise, record { id = id; decision = timeout; decided_at = now; metadata = none })
        ∷ []),
  )

  -- `clear` settles every request, in order.
  settle_all_lem :
      (clock : ℕ → ℕ) (es : List (String × Entry P M)) (q : ApprovalQueue P M)
      → q.entries ≡ es
      → IsArmed q
      → let q' = settle_all clock (map (λ (id, _). id) es) q in
        (q'.entries ≡ []) × (length q'.resolved ≡ length q.resolved + length es) × IsArmed q'
  unfolding settle_all
  settle_all_lem clock [] q same armed = (same, omega arith, armed)
  settle_all_lem clock ((id, e) ∷ es) q same armed =
      let here = get-head id e es q same in
      let q' = settle_entry (clock 0) id timeout none e q in
      let (empty, count, armed') =
        settle_all_lem (λ k. clock (suc k)) es q' (entries-head (clock 0) id e es q same)
          (settle_entry-IsArmed (clock 0) id timeout none e q here armed) in
      subst
        (λ q'.
          (q'.entries ≡ [])
          × (length q'.resolved ≡ length q.resolved + suc (length es))
          × IsArmed q')
        (ap (λ p. settle_all (λ k. clock (suc k)) (map (λ (id, _). id) es) p.1)
          (sym (settle_lem (clock 0) id timeout none e q here (armed.1 id e here))))
        (empty, omega (arith, count, resolved-settle_entry (clock 0) id e q), armed')

  -- After any history on a new queue, `clear` leaves no pending request and no armed timer, and
  -- it resolves as many promises as there were pending requests.
  clear_lem :
      (default_timeout_ms max_pending : Option ℕ) (q₀ : ApprovalQueue P M) (cs : List (Call P M))
      (clock : ℕ → ℕ) (h : ℕ)
      → new_queue default_timeout_ms max_pending ≡ some q₀
      → let q = run cs q₀ in
        let q' = clear clock q in
        (q'.entries ≡ [])
        × (callback h q'.timers ≡ none)
        × (length q'.resolved ≡ length q.resolved + size q)
  unfolding clear get
  clear_lem default_timeout_ms max_pending q₀ cs clock h new =
      let q = run cs q₀ in
      let (empty, count, armed) =
        settle_all_lem clock q.entries q refl
          (run-IsArmed default_timeout_ms max_pending q₀ cs new) in
      (
        empty,
        elim (Option-cases (callback h (clear clock q).timers)) [
          | inl none' ↦ none'
          | inr (id, c) ↦ let (e, here, timed, same) = armed.2 h id c in cc (rw empty at here)
        ],
        count,
      )
