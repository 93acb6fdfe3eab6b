-- ===== src/Oauth/Store.antt =====
-- platform/oauth/state-store.ts. The random state is an argument of `issue`, and the clock an argument
-- of each method. The caller's metadata is of a type M of the caller's.
use openzigs_social.Prelude.{
  ℕ, ◌+◌, ◌*◌, String, Bool, Option, none, some, List, [], ◌∷◌, str_eq, leb, not, if◌then◌else◌,
  get_or, length,
}
use openzigs_social.Prelude.Maps.{get, set, remove}

abbrev pub default_state_ttl_ms : ℕ
default_state_ttl_ms = 10 * 60 * 1000

pub record StateRecord (M : Type 0) : Type 0 where
  pub platform : String
  pub state : String
  pub metadata : Option M
  pub issued_at : ℕ
  pub expires_at : ℕ

pub record OauthStateStore (M : Type 0) : Type 0 where
  pub records : List (String × StateRecord M)
  pub ttl_ms : ℕ

-- The comparison takes constant time in the code; its result is that of ===.
abbrev pub safe_equal : String → String → Bool
safe_equal a b = str_eq a b

module _ {M : Type 0} where
  abbrev pub new_store : Option ℕ → OauthStateStore M
  new_store ttl_ms = record { records = []; ttl_ms = get_or ttl_ms default_state_ttl_ms }

  abbrev pub new_record : ℕ → ℕ → String → String → Option M → StateRecord M
  new_record ttl_ms now platform state metadata = record {
    platform = platform;
    state = state;
    metadata = metadata;
    issued_at = now;
    expires_at = now + ttl_ms;
  }

  unfoldable pub issue :
      ℕ → String → String → Option M → OauthStateStore M → String × OauthStateStore M
  issue now platform state metadata s = (
    state,
    record s { records = set state (new_record s.ttl_ms now platform state metadata) s.records },
  )

  -- The checks after the record is deleted.
  unfoldable pub validate : ℕ → String → String → StateRecord M → Option (StateRecord M)
  validate now platform state r =
      if leb r.expires_at now
      then none
      else if not (safe_equal r.platform platform)
      then none
      else if not (safe_equal r.state state)
      then none
      else some r

  abbrev pub redeem :
      ℕ
      → String
      → String
      → Option (StateRecord M)
      → OauthStateStore M
      → Option (StateRecord M) × OauthStateStore M
  redeem now platform state none s = (none, s)
  redeem now platform state (some r) s =
      (validate now platform state r, record s { records = remove state s.records })

  unfoldable pub consume :
      ℕ → String → String → OauthStateStore M → Option (StateRecord M) × OauthStateStore M
  consume now platform state s =
      if str_eq state "" then (none, s) else redeem now platform state (get state s.records) s

  -- The loop: what is left of the records, and the count.
  unfoldable pub prune_records :
      ℕ → List (String × StateRecord M) → List (String × StateRecord M) × ℕ
  prune_records now [] = ([], 0)
  prune_records now ((k, r) ∷ m) =
      let (rest, pruned) = prune_records now m in
      if leb r.expires_at now then (rest, 1 + pruned) else ((k, r) ∷ rest, pruned)

  unfoldable pub prune : ℕ → OauthStateStore M → ℕ × OauthStateStore M
  prune now s =
      let (rest, pruned) = prune_records now s.records in (pruned, record s { records = rest })

module _ {M : Type 0} where
  abbrev pub size : OauthStateStore M → ℕ
  size s = length s.records

-- A history of calls, in the order in which they run.
pub data Call (M : Type 0) : Type 0 where
  issue_call : ℕ → String → String → Option M → Call M
  consume_call : ℕ → String → String → Call M
  prune_call : ℕ → Call M

module _ {M : Type 0} where
  unfoldable pub step : Call M → OauthStateStore M → OauthStateStore M
  step (issue_call now platform state metadata) s = (issue now platform state metadata s).1
  step (consume_call now platform state) s = (consume now platform state s).1
  step (prune_call now) s = (prune now s).1

  unfoldable pub run : List (Call M) → OauthStateStore M → OauthStateStore M
  run [] s = s
  run (c ∷ cs) s = run cs (step c s)

  -- How many of the calls of a history return a record for a state.
  unfoldable pub returned : Option (StateRecord M) → ℕ
  returned none = 0
  returned (some r) = 1

  unfoldable pub redeems : String → Call M → OauthStateStore M → ℕ
  redeems k (issue_call now platform state metadata) s = 0
  redeems k (consume_call now platform state) s =
      if str_eq state k then returned (consume now platform state s).0 else 0
  redeems k (prune_call now) s = 0

  unfoldable pub times_redeemed : String → List (Call M) → OauthStateStore M → ℕ
  times_redeemed k [] s = 0
  times_redeemed k (c ∷ cs) s = redeems k c s + times_redeemed k cs (step c s)

  -- How many of the calls issue a state.
  unfoldable pub issues : String → Call M → ℕ
  issues k (issue_call now platform state metadata) = if str_eq state k then 1 else 0
  issues k (consume_call now platform state) = 0
  issues k (prune_call now) = 0

  unfoldable pub times_issued : String → List (Call M) → ℕ
  times_issued k [] = 0
  times_issued k (c ∷ cs) = issues k c + times_issued k cs
