-- ===== src/Oauth/Replay.antt =====
-- platform/oauth/state-store.ts: how often a state is redeemed.
use openzigs_social.Prelude.{
  ℕ, ◌+◌, ◌≤◌, String, Option, List, [], ◌∷◌, ap, sym, ◌∙◌, inl, inr, arith, str_eq, eq_iff,
  Bool-cases, Option-cases,
}
use openzigs_social.Prelude.Maps.{get, IsMap, get-set, set-IsMap}
use openzigs_social.Oauth.Store.{
  StateRecord, OauthStateStore, new_store, new_record, issue, consume, prune, Call, issue_call,
  consume_call, prune_call, step, returned, redeems, times_redeemed, issues, times_issued,
}
use openzigs_social.Oauth.Fewer.{IsFewer, prune_records-IsFewer, consume-some, consume-IsFewer}

module _ {M : Type 0} where
  returned-IsFewer :
      (k : String) (m m' : List (String × StateRecord M))
      → IsFewer m m'
      → IsMap m
      → returned (get k m') ≤ returned (get k m)
  unfolding returned
  returned-IsFewer k m m' fewer w = elim (Option-cases (get k m')) [
    | inl none' ↦ rw none' (omega arith)
    | inr (r, here) ↦ rw (here, fewer.found w k r here) (omega arith)
  ]

  step-IsMap : (c : Call M) (s : OauthStateStore M) → IsMap s.records → IsMap (step c s).records
  unfolding step issue prune
  step-IsMap (issue_call now platform state metadata) s w = set-IsMap state _ s.records w
  step-IsMap (consume_call now platform state) s w = (consume-IsFewer now platform state s).table w
  step-IsMap (prune_call now) s w = (prune_records-IsFewer now s.records).table w

  step-redeems :
      (k : String) (c : Call M) (s : OauthStateStore M)
      → IsMap s.records
      → redeems k c s + returned (get k (step c s).records)
        ≤ issues k c + returned (get k s.records)
  unfolding step issue prune redeems issues returned
  step-redeems k (issue_call now platform state metadata) s w = elim (Bool-cases (str_eq state k)) [
    | inl hit ↦
        rw (get-set state k (new_record s.ttl_ms now platform state metadata) s.records, hit)
          (omega arith)
    | inr miss ↦
        rw (get-set state k (new_record s.ttl_ms now platform state metadata) s.records, miss)
          (omega arith)
  ]
  step-redeems k (consume_call now platform state) s w =
      let fewer = returned-IsFewer k _ _ (consume-IsFewer now platform state s) w in
      elim (Bool-cases (str_eq state k)) [
        | inr miss ↦ rw miss (omega arith)
        | inl hit ↦ elim (Option-cases (consume now platform state s).0) [
          | inl none' ↦ rw (hit, none') (omega arith)
          | inr (r, here) ↦
              let (found, platform', state', soon, gone) =
                consume-some now platform state s r w here in
              let same = (eq_iff state k).0 hit in
              rw
                (
                  hit,
                  here,
                  ap (λ x. get x (consume now platform state s).1.records) (sym same) ∙ gone,
                  ap (λ x. get x s.records) (sym same) ∙ found,
                )
                (omega arith)
        ]
      ]
  step-redeems k (prune_call now) s w =
      let fewer = returned-IsFewer k _ _ (prune_records-IsFewer now s.records) w in omega arith

  times_redeemed_le :
      (k : String) (cs : List (Call M)) (s : OauthStateStore M)
      → IsMap s.records
      → times_redeemed k cs s ≤ times_issued k cs + returned (get k s.records)
  unfolding times_redeemed times_issued
  times_redeemed_le k [] s w = omega arith
  times_redeemed_le k (c ∷ cs) s w =
      let rest = times_redeemed_le k cs (step c s) (step-IsMap c s w) in
      let here = step-redeems k c s w in omega arith

  -- In any history of calls on a new store, with any lifetime and any random states, repeated
  -- ones included, the calls of `consume` that return a record for a state are at most as many
  -- as the calls that issued that state.
  pub times_redeemed-run :
      (k : String) (ttl_ms : Option ℕ) (cs : List (Call M))
      → times_redeemed k cs (new_store ttl_ms) ≤ times_issued k cs
  unfolding returned get IsMap
  times_redeemed-run k ttl_ms cs =
      let bound = times_redeemed_le k cs (new_store ttl_ms) tt in omega arith
