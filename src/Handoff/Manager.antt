-- ===== src/Handoff/Manager.antt =====
-- handoff/handoff-manager.ts: the state of HandoffManager and its methods. An AbortController is a
-- number; `aborted` holds those whose signal has fired. `listeners` are the abort listeners that are
-- on the signals, one for each registration. `Date.now()` is an argument.
use openzigs_social.Prelude.{
  ℕ, suc, String, Bool, not, Option, none, some, List, [], ◌∷◌, ◌++◌, map, any, ◌==◌, str_eq,
  if◌then◌else◌, keep, includes, length,
}
use openzigs_social.Prelude.Maps.{get, set, remove}

pub data ThreadOwner : Type 0 where
  ai human : ThreadOwner

pub record OwnershipChange : Type 0 where
  pub thread_id : String
  pub owner : ThreadOwner
  pub previous : ThreadOwner
  pub reason : Option String
  pub at : ℕ

-- The closures of one call of `register`: its `onAbort` and its `unregister`.
pub record Registration : Type 0 where
  pub serial : ℕ
  pub controller : ℕ
  pub thread_id : String

pub record HandoffManager : Type 0 where
  pub human_owned : List String
  pub controllers : List (String × List ℕ)
  pub aborted : List ℕ
  pub listeners : List Registration
  pub registrations : ℕ
  pub emitted : List OwnershipChange

abbrev pub new_manager : HandoffManager
new_manager = record {
  human_owned = [];
  controllers = [];
  aborted = [];
  listeners = [];
  registrations = 0;
  emitted = [];
}

-- Set.prototype.has
abbrev pub includes_str : String → List String → Bool
includes_str t ts = any (λ s. str_eq s t) ts

unfoldable pub is_human_owned : String → HandoffManager → Bool
is_human_owned thread_id m = includes_str thread_id m.human_owned

unfoldable pub owner : String → HandoffManager → ThreadOwner
owner thread_id m = if is_human_owned thread_id m then human else ai

unfoldable pub list_owned : HandoffManager → List (String × ThreadOwner)
list_owned m = map (λ t. (t, human)) m.human_owned

abbrev pub count : Option (List ℕ) → ℕ
count none = 0
count (some cs) = length cs

unfoldable pub registered_count : String → HandoffManager → ℕ
registered_count thread_id m = count (get thread_id m.controllers)

-- `prune`: the set without the controller, and no set at all when it is empty.
abbrev pub put_back : String → List ℕ → List (String × List ℕ) → List (String × List ℕ)
put_back thread_id [] m = remove thread_id m
put_back thread_id (c ∷ cs) m = set thread_id (c ∷ cs) m

unfoldable pub prune : String → ℕ → List (String × List ℕ) → List (String × List ℕ)
prune thread_id c m = elim (get thread_id m) [
  | none ↦ m
  | some current ↦ put_back thread_id (keep (λ x. not (x == c)) current) m
]

-- The abort listeners of a controller run in the order in which they were added.
unfoldable pub prune_all : List Registration → ℕ → List (String × List ℕ) → List (String × List ℕ)
prune_all [] c m = m
prune_all (l ∷ ls) c m = prune_all ls c (if l.controller == c then prune l.thread_id c m else m)

-- controller.abort(), by the manager or by its owner; a second abort does nothing.
unfoldable pub abort : ℕ → HandoffManager → HandoffManager
abort c m = if includes c m.aborted then m else record m {
  aborted = c ∷ m.aborted;
  controllers = prune_all m.listeners c m.controllers;
  listeners = keep (λ l. not (l.controller == c)) m.listeners;
}

-- Set.prototype.add
abbrev pub add : ℕ → List ℕ → List ℕ
add c cs = if includes c cs then cs else cs ++ c ∷ []

abbrev pub or_empty : Option (List ℕ) → List ℕ
or_empty none = []
or_empty (some cs) = cs

unfoldable pub enroll : String → ℕ → HandoffManager → HandoffManager
enroll thread_id c m = record m {
  controllers = set thread_id (add c (or_empty (get thread_id m.controllers))) m.controllers;
  listeners =
      m.listeners
      ++ record { serial = m.registrations; controller = c; thread_id = thread_id } ∷ [];
  registrations = suc m.registrations;
}

-- `none` is the error of `assertThreadId`. The registration comes back if there is one.
unfoldable pub register :
    String → ℕ → HandoffManager → Option (Option Registration × HandoffManager)
register thread_id c m =
    if str_eq thread_id ""
    then none
    else if is_human_owned thread_id m
    then some (none, abort c m)
    else some (
      some (record { serial = m.registrations; controller = c; thread_id = thread_id }),
      enroll thread_id c m,
    )

unfoldable pub unregister : Registration → HandoffManager → HandoffManager
unregister r m = record m {
  listeners = keep (λ l. not (l.serial == r.serial)) m.listeners;
  controllers = prune r.thread_id r.controller m.controllers;
}

-- The loop of `abortAll` over its snapshot; `abort` itself tests for an aborted signal.
unfoldable pub abort_each : List ℕ → HandoffManager → HandoffManager
abort_each [] m = m
abort_each (c ∷ cs) m = abort_each cs (if not (includes c m.aborted) then abort c m else m)

unfoldable pub abort_all : String → HandoffManager → HandoffManager
abort_all thread_id m = elim (get thread_id m.controllers) [
  | none ↦ m
  | some cs ↦
      let m' = abort_each cs m in record m' { controllers = remove thread_id m'.controllers }
]

unfoldable pub emit_change :
    ℕ → String → ThreadOwner → ThreadOwner → Option String → HandoffManager → HandoffManager
emit_change now thread_id owner' previous reason m =
    let change : OwnershipChange = record {
      thread_id = thread_id;
      owner = owner';
      previous = previous;
      reason = reason;
      at = now;
    } in
    record m { emitted = m.emitted ++ change ∷ [] }

unfoldable pub take_over : ℕ → String → Option String → HandoffManager → Option HandoffManager
take_over now thread_id reason m =
    if str_eq thread_id ""
    then none
    else let m' = abort_all thread_id m in
      some (
        if is_human_owned thread_id m'
        then m'
        else emit_change now thread_id human ai reason
            (record m' { human_owned = m'.human_owned ++ thread_id ∷ [] }))

unfoldable pub release : ℕ → String → Option String → HandoffManager → Option HandoffManager
release now thread_id reason m =
    if str_eq thread_id ""
    then none
    else some (
        if not (is_human_owned thread_id m)
        then m
        else emit_change now thread_id ai human reason
            (record m { human_owned = keep (λ t. not (str_eq t thread_id)) m.human_owned }))

pub data Call : Type 0 where
  register_call : (thread_id : String) (controller : ℕ) → Call
  unregister_call : Registration → Call
  abort_call : (controller : ℕ) → Call
  take_over_call release_call : (now : ℕ) (thread_id : String) (reason : Option String) → Call

abbrev pub after {ℓ} :
    {A : Type ℓ} → (A → HandoffManager) → HandoffManager → Option A → HandoffManager
after f m none = m
after f m (some a) = f a

unfoldable pub step : Call → HandoffManager → HandoffManager
step (register_call t c) m = after (λ p. p.1) m (register t c m)
step (unregister_call r) m = unregister r m
step (abort_call c) m = abort c m
step (take_over_call now t reason) m = after (λ x. x) m (take_over now t reason m)
step (release_call now t reason) m = after (λ x. x) m (release now t reason m)

unfoldable pub run : List Call → HandoffManager → HandoffManager
run [] m = m
run (c ∷ cs) m = run cs (step c m)
