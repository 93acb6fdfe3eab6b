-- ===== src/Oauth/Fewer.antt =====
-- Lemmas on platform/oauth/state-store.ts: a call of `consume` and a prune only take records out.
use openzigs_social.Prelude.{
  ℕ, ◌<◌, String, none, some, List, [], ◌∷◌, ◌≡◌, refl, ap, sym, ◌∙◌, inl, inr, arith, str_eq,
  eq_iff, leb, Bool-cases, Option-cases, some_inj,
}
use openzigs_social.Prelude.Maps.{get, remove, IsMap, get-remove, remove-IsMap}
use openzigs_social.Oauth.Store.{
  StateRecord, OauthStateStore, validate, redeem, consume, prune_records,
}

module _ {M : Type 0} where
  validate-some :
      (now : ℕ) (platform state : String) (r a : StateRecord M)
      → validate now platform state r ≡ some a
      → (r ≡ a) × (r.platform ≡ platform) × (r.state ≡ state) × (now < r.expires_at)
  unfolding validate
  validate-some now platform state r a h = elim (Bool-cases (leb r.expires_at now)) [
    | inl late ↦ cc (rw late at h)
    | inr soon ↦ elim (Bool-cases (str_eq r.platform platform)) [
      | inr other ↦ cc (rw (soon, other) at h)
      | inl same ↦ elim (Bool-cases (str_eq r.state state)) [
        | inr other ↦ cc (rw (soon, same, other) at h)
        | inl named ↦ (
          some_inj (rw (soon, same, named) at h),
          (eq_iff r.platform platform).0 same,
          (eq_iff r.state state).0 named,
          ground (arith, soon),
        )
      ]
    ]
  ]

  -- What a record is found under, it was found under before.
  pub record IsFewer (m m' : List (String × StateRecord M)) : Type 0 where
    pub table : IsMap m → IsMap m'
    pub found : IsMap m → (k : String) (r : StateRecord M) → get k m' ≡ some r → get k m ≡ some r

  pub IsFewer-refl : (m : List (String × StateRecord M)) → IsFewer m m
  IsFewer-refl m = record { table = λ w. w; found = λ w k r e. e }

  pub remove-IsFewer : (k : String) (m : List (String × StateRecord M)) → IsFewer m (remove k m)
  remove-IsFewer k m = record {
    table = remove-IsMap k m;
    found = λ w j r e. elim (Bool-cases (str_eq k j)) [
      | inl hit ↦ cc (rw (get-remove k j m w, hit) at e)
      | inr miss ↦ rw (get-remove k j m w, miss) at e
    ];
  }

  pub prune_records-IsFewer :
      (now : ℕ) (m : List (String × StateRecord M)) → IsFewer m (prune_records now m).0
  unfolding prune_records get IsMap
  prune_records-IsFewer now [] = IsFewer-refl []
  prune_records-IsFewer now ((k, r) ∷ m) =
      let rest = prune_records-IsFewer now m in
      let absent : IsMap m → (j : String) → get j m ≡ none → get j (prune_records now m).0 ≡ none =
        λ w j e. elim (Option-cases (get j (prune_records now m).0)) [
          | inl none' ↦ none'
          | inr (a, here) ↦ cc (rest.found w j a here, e)
        ] in
      elim (Bool-cases (leb r.expires_at now)) [
        | inl late ↦ rw late (record {
          table = λ (fresh, w). rest.table w;
          found = λ (fresh, w) j a e. elim (Bool-cases (str_eq k j)) [
            | inl hit ↦
                cc (
                  absent w k fresh,
                  ap (λ x. get x (prune_records now m).0) ((eq_iff k j).0 hit),
                  e,
                )
            | inr miss ↦ rw miss (rest.found w j a e)
          ];
        })
        | inr soon ↦ rw soon (record {
          table = λ (fresh, w). (absent w k fresh, rest.table w);
          found = λ (fresh, w) j a e. elim (Bool-cases (str_eq k j)) [
            | inl hit ↦ rw hit (rw hit at e)
            | inr miss ↦ rw miss (rest.found w j a (rw miss at e))
          ];
        })
      ]

  -- A record that is returned was in the store, for the platform and in time; it is there no more.
  pub consume-some :
      (now : ℕ) (platform state : String) (s : OauthStateStore M) (r : StateRecord M)
      → IsMap s.records
      → (consume now platform state s).0 ≡ some r
      → (get state s.records ≡ some r)
        × (r.platform ≡ platform)
        × (r.state ≡ state)
        × (now < r.expires_at)
        × (get state (consume now platform state s).1.records ≡ none)
  unfolding consume
  consume-some now platform state s r w h = elim (Bool-cases (str_eq state "")) [
    | inl empty ↦ cc (rw empty at h)
    | inr named ↦ elim (Option-cases (get state s.records)) [
      | inl none' ↦ cc (rw (named, none', redeem) at h)
      | inr (a, here) ↦
          let (same, platform', state', soon) =
            validate-some now platform state a r (rw (named, here, redeem) at h) in
          rw (named, here, redeem)
            (
              ap some same,
              ap (λ x. x.platform) (sym same) ∙ platform',
              ap (λ x. x.state) (sym same) ∙ state',
              rw same at soon,
              get-remove state state s.records w ∙ rw ((eq_iff state state).1 refl) refl,
            )
    ]
  ]

  pub consume-IsFewer :
      (now : ℕ) (platform state : String) (s : OauthStateStore M)
      → IsFewer s.records (consume now platform state s).1.records
  unfolding consume
  consume-IsFewer now platform state s = elim (Bool-cases (str_eq state "")) [
    | inl empty ↦ rw empty (IsFewer-refl s.records)
    | inr named ↦ elim (Option-cases (get state s.records)) [
      | inl none' ↦ rw (named, none', redeem) (IsFewer-refl s.records)
      | inr (a, here) ↦ rw (named, here, redeem) (remove-IsFewer state s.records)
    ]
  ]
