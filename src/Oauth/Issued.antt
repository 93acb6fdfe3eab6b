-- ===== src/Oauth/Issued.antt =====
-- platform/oauth/state-store.ts: what a record that is returned was issued for.
use openzigs_social.Prelude.{
  ℕ, ◌+◌, ◌<◌, String, Option, none, some, List, [], ◌∷◌, Memᴰ, ◌≡◌, refl, ap, sym, inl, inr,
  str_eq, eq_iff, Bool-cases, Option-cases, some_inj, get_or,
}
use openzigs_social.Prelude.Maps.{get, IsMap, get-set, set-IsMap}
use openzigs_social.Oauth.Store.{
  default_state_ttl_ms, StateRecord, OauthStateStore, new_store, new_record, issue, redeem, consume,
  prune, Call, issue_call, consume_call, prune_call, step, run,
}
use openzigs_social.Oauth.Fewer.{IsFewer, prune_records-IsFewer, consume-some, consume-IsFewer}

module _ {M : Type 0} where
  -- Every record was issued by a call of the history.
  record AreIssued (cs : List (Call M)) (ttl_ms : ℕ) (s : OauthStateStore M) : Type 0 where
    table : IsMap s.records
    ttl : s.ttl_ms ≡ ttl_ms
    issued :
        (k : String) (r : StateRecord M)
        → get k s.records ≡ some r
        → Memᴰ (issue_call r.issued_at r.platform k r.metadata) cs
          × (r.expires_at ≡ r.issued_at + ttl_ms)

  AreIssued-fewer :
      {cs : List (Call M)} {ttl_ms : ℕ} {s : OauthStateStore M} (m : List (String × StateRecord M))
      → IsFewer s.records m
      → AreIssued cs ttl_ms s
      → AreIssued cs ttl_ms (record s { records = m })
  AreIssued-fewer m fewer i = record {
    table = fewer.table i.table;
    ttl = i.ttl;
    issued = λ k r e. i.issued k r (fewer.found i.table k r e);
  }

  consume-records :
      (now : ℕ) (platform state : String) (s : OauthStateStore M)
      → (consume now platform state s).1
        ≡ record s { records = (consume now platform state s).1.records }
  unfolding consume
  consume-records now platform state s = elim (Bool-cases (str_eq state "")) [
    | inl empty ↦ rw empty refl
    | inr named ↦ elim (Option-cases (get state s.records)) [
      | inl none' ↦ rw (named, none', redeem) refl
      | inr (a, here) ↦ rw (named, here, redeem) refl
    ]
  ]

  issue-AreIssued :
      (cs : List (Call M)) (ttl_ms now : ℕ) (platform state : String) (metadata : Option M)
      (s : OauthStateStore M)
      → Memᴰ (issue_call now platform state metadata) cs
      → AreIssued cs ttl_ms s
      → AreIssued cs ttl_ms (issue now platform state metadata s).1
  unfolding issue
  issue-AreIssued cs ttl_ms now platform state metadata s m i =
      let r = new_record s.ttl_ms now platform state metadata in
      record {
        table = set-IsMap state r s.records i.table;
        ttl = i.ttl;
        issued = λ k a e. elim (Bool-cases (str_eq state k)) [
          | inr miss ↦ i.issued k a (rw (get-set state k r s.records, miss) at e)
          | inl hit ↦
              let same : r ≡ a = some_inj (rw (get-set state k r s.records, hit) at e) in
              let named = (eq_iff state k).0 hit in
              rw (sym same, sym named) (m, ap (λ t. now + t) i.ttl)
        ];
      }

  step-AreIssued :
      (cs : List (Call M)) (ttl_ms : ℕ) (c : Call M) (s : OauthStateStore M)
      → Memᴰ c cs
      → AreIssued cs ttl_ms s
      → AreIssued cs ttl_ms (step c s)
  unfolding step prune
  step-AreIssued cs ttl_ms (issue_call now platform state metadata) s m i =
      issue-AreIssued cs ttl_ms now platform state metadata s m i
  step-AreIssued cs ttl_ms (consume_call now platform state) s m i =
      rw (consume-records now platform state s)
        (AreIssued-fewer _ (consume-IsFewer now platform state s) i)
  step-AreIssued cs ttl_ms (prune_call now) s m i =
      AreIssued-fewer _ (prune_records-IsFewer now s.records) i

  run-AreIssued :
      (all' cs : List (Call M)) (ttl_ms : ℕ) (s : OauthStateStore M)
      → ((c : Call M) → Memᴰ c cs → Memᴰ c all')
      → AreIssued all' ttl_ms s
      → AreIssued all' ttl_ms (run cs s)
  unfolding run
  run-AreIssued all' [] ttl_ms s sub i = i
  run-AreIssued all' (c ∷ cs) ttl_ms s sub i =
      run-AreIssued all' cs ttl_ms (step c s) (λ d m. sub d (Memᴰ.tail m))
        (step-AreIssued all' ttl_ms c s (sub c (Memᴰ.head refl)) i)

  none-IsIssued :
      (cs : List (Call M)) (ttl_ms : Option ℕ)
      → AreIssued cs (new_store {M = M} ttl_ms).ttl_ms (new_store ttl_ms)
  unfolding get IsMap
  none-IsIssued cs ttl_ms = record { table = tt; ttl = refl; issued = λ k r e. cc e }

  consume-none :
      (now : ℕ) (platform state : String) (s : OauthStateStore M)
      → get state s.records ≡ none
      → (consume now platform state s).0 ≡ none
  unfolding consume
  consume-none now platform state s gone = elim (Bool-cases (str_eq state "")) [
    | inl empty ↦ rw empty refl
    | inr named ↦ rw (named, gone, redeem) refl
  ]

  -- If a call of `consume` returns a record after any history of calls on a new store, then the
  -- history issued the state for that platform, with the record's metadata and time of issue,
  -- the lifetime has not passed, and a `consume` of that state that follows next returns
  -- nothing.
  pub consume-IsIssued :
      (ttl_ms : Option ℕ) (cs : List (Call M)) (now : ℕ) (platform state : String)
      (r : StateRecord M)
      → let s = run cs (new_store ttl_ms) in
        (consume now platform state s).0 ≡ some r
        → Memᴰ (issue_call r.issued_at platform state r.metadata) cs
          × (now < r.issued_at + get_or ttl_ms default_state_ttl_ms)
          × ((t : ℕ) (p : String) → (consume t p state (consume now platform state s).1).0 ≡ none)
  consume-IsIssued ttl_ms cs now platform state r h =
      let i = run-AreIssued cs cs _ (new_store ttl_ms) (λ c m. m) (none-IsIssued cs ttl_ms) in
      let (found, platform', state', soon, gone) = consume-some now platform state _ r i.table h in
      let (mem, expires) = i.issued state r found in
      (rw platform' at mem, rw expires at soon, λ t p. consume-none t p state _ gone)
