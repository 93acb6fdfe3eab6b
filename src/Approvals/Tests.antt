-- ===== src/Approvals/Tests.antt =====
-- The approval queue over a short history: two requests, of which one times out.
use openzigs_social.Prelude.{
  ℕ, String, true, false, Option, none, some, List, [], ◌∷◌, ◌++◌, ◌≡◌, refl,
}
use openzigs_social.Prelude.Maps.{get, set, remove}
use openzigs_social.Approvals.Queue.{
  approve, timeout, RequestOptions, ApprovalQueue, new_queue, empty_queue, has, request, enqueue,
  settle, settle_entry, decide, clear_timeout, callback, fire, Call, request_call, decide_call, run,
  step,
}
use openzigs_social.Approvals.Promises.{IsAccounted, run-IsAccounted}
use openzigs_social.Approvals.Settling.{fire_lem}

abbrev options : Option ℕ → String → RequestOptions
options timeout_ms id = record { timeout_ms = timeout_ms; id = some id }

abbrev start : ApprovalQueue String String
start = empty_queue none (some 2)

started : new_queue none (some 2) ≡ some start
unfolding new_queue
started = refl

abbrev history : List (Call String String)
history =
    request_call 10 "u1" "post a" (options (some 500) "a")
    ∷ request_call 11 "u2" "post b" (options none "b")
    ∷ request_call 12 "u3" "post c" (options none "c")
    ∷ decide_call 20 "b" approve none
    ∷ []

armed_first : callback 0 (run history start).timers ≡ some "a"
unfolding run step request has enqueue set get decide settle settle_entry remove clear_timeout
    callback
armed_first = refl

third_refused : (run history start).promises ≡ 2
unfolding run step request has enqueue set get decide settle settle_entry remove clear_timeout
    callback
third_refused = refl

run-IsAccounted_example : IsAccounted (run history start)
run-IsAccounted_example = run-IsAccounted none (some 2) start history started

fire_lem_example :
    let q = run history start in
    ((fire 510 0 q).resolved
      ≡ q.resolved
        ++ (0, record { id = "a"; decision = timeout; decided_at = 510; metadata = none }) ∷ [])
    × (has "a" q ≡ true)
    × (has "a" (fire 510 0 q) ≡ false)
    × (callback 0 (fire 510 0 q).timers ≡ none)
fire_lem_example = fire_lem none (some 2) start history 510 0 "a" started armed_first
