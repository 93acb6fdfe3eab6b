-- ===== src/Handoff/Ownership.antt =====
-- Lemmas on handoff/handoff-manager.ts: ownership over histories of calls.
use openzigs_social.Prelude.{
  ℕ, String, true, false, Option, none, some, List, [], ◌∷◌, ◌++◌, ◌≡◌, ◌≢◌, refl, ap, sym, ◌∙◌,
  inl, inr, arith, str_eq, eq_iff, includes, Bool-cases,
}
use openzigs_social.Prelude.Maps.{get, get-set, set-IsMap, IsMap}
use openzigs_social.Handoff.Manager.{
  ai, human, Registration, HandoffManager, new_manager, includes_str, is_human_owned, owner,
  registered_count, abort, add, or_empty, enroll, register, unregister, abort_all, emit_change,
  take_over, release, Call, register_call, unregister_call, abort_call, take_over_call,
  release_call, step, run,
}
use openzigs_social.Handoff.Drafts.{
  prune-IsLess, abort-IsQuieter, abort_all_lem, includes_str-snoc, includes_str-keep, IsQuieter,
}

-- A thread that a human owns has no registered controller.
abbrev pub IsFree : HandoffManager → Type 0
IsFree m =
    IsMap m.controllers × ((t : String) → is_human_owned t m ≡ true → get t m.controllers ≡ none)

quieter-IsFree : (m m' : HandoffManager) → IsQuieter m m' → IsFree m → IsFree m'
unfolding is_human_owned
quieter-IsFree m m' q (w, free) = (
  q.controllers.table w,
  λ t h. q.controllers.gone t w (free t (ap (includes_str t) (sym q.owned) ∙ h)),
)

enroll-IsFree :
    (t : String) (c : ℕ) (m : HandoffManager)
    → is_human_owned t m ≡ false
    → IsFree m
    → IsFree (enroll t c m)
unfolding enroll is_human_owned
enroll-IsFree t c m away (w, free) = (
  set-IsMap t _ m.controllers w,
  λ j h. elim (Bool-cases (str_eq t j)) [
    | inl hit ↦ cc (ap (λ x. includes_str x m.human_owned) ((eq_iff t j).0 hit), h, away)
    | inr miss ↦ get-set t j _ m.controllers ∙ rw miss (free j h)
  ],
)

take_over-IsFree :
    (now : ℕ) (t : String) (reason : Option String) (m : HandoffManager)
    → IsFree m
    → IsFree (step (take_over_call now t reason) m)
unfolding step take_over emit_change is_human_owned
take_over-IsFree now t reason m (w, free) =
    let m' = abort_all t m in
    let (quiet, clear, all') = abort_all_lem t m in
    let (w', free') = quieter-IsFree m m' quiet (w, free) in
    elim (Bool-cases (str_eq t "")) [
      | inl bad ↦ rw bad (w, free)
      | inr good ↦ elim (Bool-cases (is_human_owned t m')) [
        | inl owned ↦ rw (good, owned) (w', free')
        | inr away ↦
            rw (good, away)
              (
                w',
                λ j h. elim (Bool-cases (str_eq t j)) [
                  | inl hit ↦ ap (λ k. get k m'.controllers) (sym ((eq_iff t j).0 hit)) ∙ clear w
                  | inr miss ↦ free' j (sym (includes_str-snoc j t m'.human_owned miss) ∙ h)
                ],
              )
      ]
    ]

release-IsFree :
    (now : ℕ) (t : String) (reason : Option String) (m : HandoffManager)
    → IsFree m
    → IsFree (step (release_call now t reason) m)
unfolding step release emit_change is_human_owned
release-IsFree now t reason m (w, free) = elim (Bool-cases (str_eq t "")) [
  | inl bad ↦ rw bad (w, free)
  | inr good ↦ elim (Bool-cases (is_human_owned t m)) [
    | inl owned ↦ rw (good, owned) (w, λ j h. free j (includes_str-keep j _ m.human_owned h))
    | inr away ↦ rw (good, away) (w, free)
  ]
]

unregister-IsQuieter : (r : Registration) (m : HandoffManager) → IsQuieter m (unregister r m)
unfolding unregister
unregister-IsQuieter r m = record {
  owned = refl;
  controllers = prune-IsLess r.thread_id r.controller m.controllers;
  aborted = λ c h. h;
}

step-IsFree : (c : Call) (m : HandoffManager) → IsFree m → IsFree (step c m)
unfolding step register
step-IsFree (register_call t c) m f = elim (Bool-cases (str_eq t "")) [
  | inl bad ↦ rw bad f
  | inr good ↦ elim (Bool-cases (is_human_owned t m)) [
    | inl owned ↦ rw (good, owned) (quieter-IsFree m (abort c m) (abort-IsQuieter c m) f)
    | inr away ↦ rw (good, away) (enroll-IsFree t c m away f)
  ]
]
step-IsFree (unregister_call r) m f = quieter-IsFree m _ (unregister-IsQuieter r m) f
step-IsFree (abort_call c) m f = quieter-IsFree m _ (abort-IsQuieter c m) f
step-IsFree (take_over_call now t reason) m f = take_over-IsFree now t reason m f
step-IsFree (release_call now t reason) m f = release-IsFree now t reason m f

run-IsFree : (cs : List Call) (m : HandoffManager) → IsFree m → IsFree (run cs m)
unfolding run
run-IsFree [] m f = f
run-IsFree (c ∷ cs) m f = run-IsFree cs (step c m) (step-IsFree c m f)

new_manager-IsFree : IsFree new_manager
unfolding IsMap is_human_owned
new_manager-IsFree = (tt, λ t h. cc)

free-count :
    (t : String) (m : HandoffManager)
    → IsFree m
    → is_human_owned t m ≡ true
    → registered_count t m ≡ 0
unfolding registered_count
free-count t m (w, free) owned = rw (free t owned) refl

owner-owned : (t : String) (m : HandoffManager) → owner t m ≡ human → is_human_owned t m ≡ true
unfolding owner
owner-owned t m h = elim (Bool-cases (is_human_owned t m)) [
  | inl owned ↦ owned
  | inr away ↦ cc (rw away at h)
]

owned-owner : (t : String) (m : HandoffManager) → is_human_owned t m ≡ true → owner t m ≡ human
unfolding owner
owned-owner t m h = rw h refl

abort-aborted : (c : ℕ) (m : HandoffManager) → includes c (abort c m).aborted ≡ true
unfolding abort
abort-aborted c m = elim (Bool-cases (includes c m.aborted)) [
  | inl old ↦ rw old old
  | inr new ↦ rw new (ground arith)
]

register-owned :
    (t : String) (c : ℕ) (m : HandoffManager)
    → t ≢ ""
    → is_human_owned t m ≡ true
    → let m' = step (register_call t c) m in
      (register t c m ≡ some (none, m'))
      × (includes c m'.aborted ≡ true)
      × (is_human_owned t m' ≡ true)
unfolding step register is_human_owned
register-owned t c m named owned = elim (Bool-cases (str_eq t "")) [
  | inl bad ↦ elim (named ((eq_iff t "").0 bad)) [ ]
  | inr good ↦
      rw (good, owned)
        (refl, abort-aborted c m, ap (includes_str t) ((abort-IsQuieter c m).owned) ∙ owned)
]

-- After any history of calls on a new manager, a thread that a human owns has no registered
-- controller; and if its id is not empty, registering a controller for it is refused, aborts
-- that controller, and leaves the thread owned by the human with none registered.
pub registered_count-run :
    (cs : List Call) (t : String) (c : ℕ)
    → t ≢ ""
    → owner t (run cs new_manager) ≡ human
    → let m = run cs new_manager in
      let m' = step (register_call t c) m in
      (registered_count t m ≡ 0)
      × (register t c m ≡ some (none, m'))
      × (includes c m'.aborted ≡ true)
      × (owner t m' ≡ human)
      × (registered_count t m' ≡ 0)
registered_count-run cs t c named h =
    let m = run cs new_manager in
    let free = run-IsFree cs new_manager new_manager-IsFree in
    let owned = owner-owned t m h in
    let (refused, aborted, same) = register-owned t c m named owned in
    (
      free-count t m free owned,
      refused,
      aborted,
      owned-owner t _ same,
      free-count t _ (step-IsFree (register_call t c) m free) same,
    )

includes_str-last : (t : String) (ts : List String) → includes_str t (ts ++ t ∷ []) ≡ true
includes_str-last t [] = rw ((eq_iff t t).1 refl) refl
includes_str-last t (s ∷ ts) = ground (arith, includes_str-last t ts)

take_over-owner :
    (now : ℕ) (t : String) (reason : Option String) (m : HandoffManager)
    → t ≢ ""
    → let m' = step (take_over_call now t reason) m in
      (is_human_owned t m' ≡ true) × (m'.aborted ≡ (abort_all t m).aborted)
unfolding step take_over emit_change is_human_owned
take_over-owner now t reason m named =
    let m' = abort_all t m in
    elim (Bool-cases (str_eq t "")) [
      | inl bad ↦ elim (named ((eq_iff t "").0 bad)) [ ]
      | inr good ↦ elim (Bool-cases (is_human_owned t m')) [
        | inl owned ↦ rw (good, owned) (owned, refl)
        | inr away ↦ rw (good, away) (includes_str-last t m'.human_owned, refl)
      ]
    ]

-- After any history of calls on a new manager, taking over a thread whose id is not empty makes
-- it owned by a human, leaves it no registered controller, and aborts every controller that was
-- registered for it.
pub take_over_lem :
    (cs : List Call) (now : ℕ) (t : String) (reason : Option String)
    → t ≢ ""
    → let m = run cs new_manager in
      let m' = step (take_over_call now t reason) m in
      (owner t m' ≡ human)
      × (registered_count t m' ≡ 0)
      × ((c : ℕ)
          → includes c (or_empty (get t m.controllers)) ≡ true
          → includes c m'.aborted ≡ true)
unfolding owner registered_count
take_over_lem cs now t reason named =
    let m = run cs new_manager in
    let (owned, same) = take_over-owner now t reason m named in
    let (quiet, clear, all') = abort_all_lem t m in
    (
      rw owned refl,
      rw
          ((take_over-IsFree now t reason m (run-IsFree cs new_manager new_manager-IsFree)).1 t
            owned)
          refl,
      λ c h. ap (includes c) same ∙ all' c h,
    )

includes-last : (c : ℕ) (cs : List ℕ) → includes c (cs ++ c ∷ []) ≡ true
includes-last c [] = ground arith
includes-last c (d ∷ cs) = ground (arith, includes-last c cs)

includes-add : (c : ℕ) (cs : List ℕ) → includes c (add c cs) ≡ true
includes-add c cs = elim (Bool-cases (includes c cs)) [
  | inl old ↦ rw old old
  | inr new ↦ rw new (includes-last c cs)
]

-- A controller that is already aborted, registered for a thread whose id is not empty and that
-- the AI owns, stays registered when it is aborted again.
register-aborted :
    (t : String) (c : ℕ) (m : HandoffManager)
    → t ≢ ""
    → owner t m ≡ ai
    → includes c m.aborted ≡ true
    → let m' = step (abort_call c) (step (register_call t c) m) in
      includes c (or_empty (get t m'.controllers)) ≡ true
unfolding step register enroll abort owner
register-aborted t c m named away old =
    let m' = enroll t c m in
    elim (Bool-cases (str_eq t "")) [
      | inl bad ↦ elim (named ((eq_iff t "").0 bad)) [ ]
      | inr good ↦ elim (Bool-cases (is_human_owned t m)) [
        | inl owned ↦ cc (rw owned at away)
        | inr ai' ↦
            rw (good, ai', old)
              (rw (get-set t t _ m.controllers) (rw ((eq_iff t t).1 refl) (includes-add c _)))
      ]
    ]
