-- ===== src/Handoff/Tests.antt =====
-- A human takes over a thread with a draft in flight.
use openzigs_social.Prelude.{
  ℕ, String, true, none, some, List, [], ◌∷◌, ◌≡◌, ◌≢◌, refl, includes, eq_iff,
}
use openzigs_social.Prelude.Maps.{get, set, remove}
use openzigs_social.Handoff.Manager.{
  ai, human, HandoffManager, new_manager, is_human_owned, owner, registered_count, prune, prune_all,
  abort, or_empty, enroll, register, abort_each, abort_all, emit_change, take_over, Call,
  register_call, take_over_call, run, step,
}
use openzigs_social.Handoff.Ownership.{registered_count-run, take_over_lem}

abbrev t1 : String
t1 = "t1"

abbrev history : List Call
history = register_call t1 7 ∷ take_over_call 50 t1 none ∷ register_call t1 8 ∷ []

taken : owner t1 (run history new_manager) ≡ human
unfolding run step register take_over is_human_owned owner enroll get set remove abort_all
    abort_each abort prune_all prune emit_change
taken = refl

named : t1 ≢ ""
named e = cc ((eq_iff t1 "").1 e)

registered_count-run_example :
    let m = run history new_manager in
    let m' = step (register_call t1 9) m in
    (registered_count t1 m ≡ 0)
    × (register t1 9 m ≡ some (none, m'))
    × (includes 9 m'.aborted ≡ true)
    × (owner t1 m' ≡ human)
    × (registered_count t1 m' ≡ 0)
registered_count-run_example = registered_count-run history t1 9 named taken

take_over_lem_example :
    let m = run (register_call t1 7 ∷ []) new_manager in
    let m' = step (take_over_call 50 t1 none) m in
    (owner t1 m' ≡ human)
    × (registered_count t1 m' ≡ 0)
    × ((c : ℕ) → includes c (or_empty (get t1 m.controllers)) ≡ true → includes c m'.aborted ≡ true)
take_over_lem_example = take_over_lem (register_call t1 7 ∷ []) 50 t1 none named

abbrev aborted : HandoffManager
aborted = record new_manager { aborted = 9 ∷ [] }

ai_owned : owner t1 aborted ≡ ai
unfolding owner is_human_owned
ai_owned = refl
