-- ===== src/Approvals/Timers.antt =====
-- Lemmas on approvals/approval-queue.ts: the timers of the pending requests.
use openzigs_social.Prelude.{
  ℕ, String, Bool, true, false, Option, none, some, List, [], ◌∷◌, ◌≡◌, some_inj, ◌≢◌, refl, ap,
  sym, ◌∙◌, inl, inr, arith, ◌==◌, ==_iff, str_eq, eq_iff, if◌then◌else◌, Bool-cases, ◌⊎◌,
}
use openzigs_social.Prelude.Maps.{get, get-set, IsMap, set-IsMap, get-remove, remove-IsMap}
use openzigs_social.Approvals.Keeps.{run-keeps, new_queue_lem}
use openzigs_social.Approvals.Queue.{
  OutcomeDecision, Entry, ApprovalQueue, empty_queue, new_queue, arms, new_entry, enqueue,
  clear_timeout, settle_entry, callback, Call, run,
}

pub callback-clear :
    (h h' : ℕ) (ts : List (ℕ × String))
    → callback h (clear_timeout (some h') ts) ≡ (if h' == h then none else callback h ts)
unfolding callback clear_timeout
callback-clear h h' [] = ground arith
callback-clear h h' ((k, id) ∷ ts) = ground (arith, callback-clear h h' ts)

callback-clear_option :
    (h : ℕ) (id : String) (o : Option ℕ) (ts : List (ℕ × String))
    → callback h (clear_timeout o ts) ≡ some id
    → (callback h ts ≡ some id) × (o ≢ some h)
unfolding clear_timeout
callback-clear_option h id none ts c = (c, λ e. cc)
callback-clear_option h id (some h') ts c = elim (Bool-cases (h' == h)) [
  | inl hit ↦ cc (rw hit at (callback-clear h h' ts), c)
  | inr miss ↦ (
    sym (rw miss at (callback-clear h h' ts)) ∙ c,
    λ e. let same = some_inj e in ground (arith, same, miss),
  )
]

-- The timers after a request: an armed timer is the new one, or it was armed before.
callback-arm :
    (h n : ℕ) (id j : String) (b : Bool) (ts : List (ℕ × String))
    → callback h (if b then (n, id) ∷ ts else ts) ≡ some j
    → ((b ≡ true) × (n ≡ h) × (id ≡ j)) ⊎ (callback h ts ≡ some j)
unfolding callback
callback-arm h n id j false ts c = inr c
callback-arm h n id j true ts c = elim (Bool-cases (n == h)) [
  | inl hit ↦ inl (refl, (==_iff n h).0 hit, some_inj (rw hit at c))
  | inr miss ↦ inr (rw miss at c)
]

module _ {P M : Type 0} where
  -- Ids are pending once, and a pending entry is not settled; an armed timer belongs to the pending
  -- request that its callback names, and it is the timer and the promise of that request.
  abbrev pub IsArmed : ApprovalQueue P M → Type 0
  IsArmed q =
      IsMap q.entries
      × ((id : String) (e : Entry P M) → get id q.entries ≡ some e → e.settled ≡ false)
      × ((h : ℕ) (id : String)
          → callback h q.timers ≡ some id
          → (e : Entry P M) × (get id q.entries ≡ some e) × (e.timer ≡ some h) × (e.promise ≡ h))

  clear-IsArmed :
      (h : ℕ) (q : ApprovalQueue P M)
      → IsArmed q
      → IsArmed (record q { timers = clear_timeout (some h) q.timers })
  clear-IsArmed h q (table, fresh, armed) = (
    table,
    fresh,
    λ h' id c. elim (Bool-cases (h == h')) [
      | inl hit ↦ cc (callback-clear h' h q.timers, rw hit at (callback-clear h' h q.timers), c)
      | inr miss ↦ armed h' id (rw (callback-clear, miss) at c)
    ],
  )

  pub settle_entry-IsArmed :
      (now : ℕ) (id : String) (decision : OutcomeDecision) (metadata : Option M) (e : Entry P M)
      (q : ApprovalQueue P M)
      → get id q.entries ≡ some e
      → IsArmed q
      → IsArmed (settle_entry now id decision metadata e q)
  unfolding settle_entry
  settle_entry-IsArmed now id decision metadata e q here (table, fresh, armed) = (
    remove-IsMap id q.entries table,
    λ j e' there. elim (Bool-cases (str_eq id j)) [
      | inl hit ↦
          cc (get-remove id j q.entries table, rw hit at (get-remove id j q.entries table), there)
      | inr miss ↦ fresh j e' (rw (get-remove id j q.entries table, miss) at there)
    ],
    λ h j c.
        let (c', other) = callback-clear_option h j e.timer q.timers c in
        let (e', there, timed, same) = armed h j c' in
        elim (Bool-cases (str_eq id j)) [
          | inl hit ↦
              let one : e ≡ e' =
                some_inj (sym here ∙ ap (λ k. get k q.entries) ((eq_iff id j).0 hit) ∙ there) in
              elim (other (ap (λ x. x.timer) one ∙ timed)) [ ]
          | inr miss ↦ (e', get-remove id j q.entries table ∙ rw miss there, timed, same)
        ],
  )

  enqueue-IsArmed :
      (now : ℕ) (id : String) (payload : P) (timeout_ms : Option ℕ) (q : ApprovalQueue P M)
      → get id q.entries ≡ none
      → IsArmed q
      → IsArmed (enqueue now id payload timeout_ms q)
  unfolding enqueue
  enqueue-IsArmed now id payload timeout_ms q free (table, fresh, armed) =
      let entry = new_entry {M = M} now id payload timeout_ms q.promises in
      (
        set-IsMap id entry q.entries table,
        λ j e' there. elim (Bool-cases (str_eq id j)) [
          | inl hit ↦
              ap (λ x. x.settled) (sym (some_inj (rw (get-set id j entry q.entries, hit) at there)))
          | inr miss ↦ fresh j e' (rw (get-set id j entry q.entries, miss) at there)
        ],
        λ h j c. elim (callback-arm h q.promises id j (arms timeout_ms) q.timers c) [
          | inl (on, same, named) ↦ (
            entry,
            rw (← named) (get-set id id entry q.entries ∙ rw ((eq_iff id id).1 refl) refl),
            rw on (ap some same),
            same,
          )
          | inr c' ↦
              let (e', there, timed, same) = armed h j c' in
              elim (Bool-cases (str_eq id j)) [
                | inl hit ↦ cc (ap (λ k. get k q.entries) ((eq_iff id j).0 hit), free, there)
                | inr miss ↦ (e', get-set id j entry q.entries ∙ rw miss there, timed, same)
              ]
        ],
      )

  empty-IsArmed :
      (default_timeout_ms max_pending : Option ℕ)
      → IsArmed (empty_queue default_timeout_ms max_pending)
  unfolding IsMap get callback
  empty-IsArmed default_timeout_ms max_pending = (tt, λ id e c. cc, λ h id c. cc)

  pub run-IsArmed :
      (default_timeout_ms max_pending : Option ℕ) (q : ApprovalQueue P M) (cs : List (Call P M))
      → new_queue default_timeout_ms max_pending ≡ some q
      → IsArmed (run cs q)
  run-IsArmed default_timeout_ms max_pending q cs h =
      run-keeps IsArmed settle_entry-IsArmed
        (λ now id payload timeout_ms q free room i.
          enqueue-IsArmed now id payload timeout_ms q free i)
        clear-IsArmed cs q
        (rw (← new_queue_lem default_timeout_ms max_pending q h)
          (empty-IsArmed default_timeout_ms max_pending))
