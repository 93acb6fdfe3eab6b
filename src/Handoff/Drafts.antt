-- ===== src/Handoff/Drafts.antt =====
-- Lemmas on handoff/handoff-manager.ts: the registered controllers.
use openzigs_social.Prelude.{
  ℕ, String, Bool, true, false, ◌||◌, not, none, some, List, [], ◌∷◌, ◌++◌, ◌≡◌, refl, ap, sym, ◌∙◌,
  inl, inr, arith, ◌==◌, ==_iff, str_eq, eq_iff, if◌then◌else◌, keep, includes, Bool-cases,
  Option-cases,
}
use openzigs_social.Prelude.Maps.{get, remove, get-set, get-remove, set-IsMap, remove-IsMap, IsMap}
use openzigs_social.Handoff.Manager.{
  Registration, HandoffManager, includes_str, put_back, prune, prune_all, abort, or_empty,
  abort_each, abort_all,
}

-- One map is the other with fewer controllers: what is not there in one is not there in the other.
pub record IsLess (m m' : List (String × List ℕ)) : Type 0 where
  pub table : IsMap m → IsMap m'
  pub gone : (t : String) → IsMap m → get t m ≡ none → get t m' ≡ none

put_back-IsLess :
    (t : String) (cs xs : List ℕ) (m : List (String × List ℕ))
    → get t m ≡ some xs
    → IsLess m (put_back t cs m)
put_back-IsLess t [] xs m here = record {
  table = remove-IsMap t m;
  gone = λ j w e. get-remove t j m w ∙ ground (arith, e);
}
put_back-IsLess t (c ∷ cs) xs m here = record {
  table = set-IsMap t (c ∷ cs) m;
  gone = λ j w e. elim (Bool-cases (str_eq t j)) [
    | inl hit ↦ cc (here, ap (λ k. get k m) ((eq_iff t j).0 hit), e)
    | inr miss ↦ get-set t j (c ∷ cs) m ∙ rw miss e
  ];
}

IsLess-refl : (m : List (String × List ℕ)) → IsLess m m
IsLess-refl m = record { table = λ w. w; gone = λ t w e. e }

IsLess-trans : (m m' m'' : List (String × List ℕ)) → IsLess m m' → IsLess m' m'' → IsLess m m''
IsLess-trans m m' m'' a b = record {
  table = λ w. b.table (a.table w);
  gone = λ t w e. b.gone t (a.table w) (a.gone t w e);
}

pub prune-IsLess : (t : String) (c : ℕ) (m : List (String × List ℕ)) → IsLess m (prune t c m)
unfolding prune
prune-IsLess t c m = elim (Option-cases (get t m)) [
  | inl none' ↦ rw (none', prune) (IsLess-refl m)
  | inr (xs, here) ↦ rw (here, prune) (put_back-IsLess t (keep (λ x. not (x == c)) xs) xs m here)
]

prune_all-IsLess :
    (ls : List Registration) (c : ℕ) (m : List (String × List ℕ)) → IsLess m (prune_all ls c m)
unfolding prune_all
prune_all-IsLess [] c m = IsLess-refl m
prune_all-IsLess (l ∷ ls) c m = elim (Bool-cases (l.controller == c)) [
  | inl hit ↦ rw hit (
      IsLess-trans _ _ _ (prune-IsLess l.thread_id c m)
        (prune_all-IsLess ls c (prune l.thread_id c m)))
  | inr miss ↦ rw miss (prune_all-IsLess ls c m)
]

-- A step on the controllers alone.
pub record IsQuieter (m m' : HandoffManager) : Type 0 where
  pub owned : m'.human_owned ≡ m.human_owned
  pub controllers : IsLess m.controllers m'.controllers
  pub aborted : (c : ℕ) → includes c m.aborted ≡ true → includes c m'.aborted ≡ true

pub abort-IsQuieter : (c : ℕ) (m : HandoffManager) → IsQuieter m (abort c m)
unfolding abort
abort-IsQuieter c m = elim (Bool-cases (includes c m.aborted)) [
  | inl old ↦
      rw old (record { owned = refl; controllers = IsLess-refl m.controllers; aborted = λ d h. h })
  | inr new ↦ rw new (record {
    owned = refl;
    controllers = prune_all-IsLess m.listeners c m.controllers;
    aborted = λ d h. ground (arith, h);
  })
]

abort-aborted : (c : ℕ) (m : HandoffManager) → includes c (abort c m).aborted ≡ true
unfolding abort
abort-aborted c m = elim (Bool-cases (includes c m.aborted)) [
  | inl old ↦ rw old old
  | inr new ↦ rw new (ground arith)
]

IsQuieter-refl : (m : HandoffManager) → IsQuieter m m
IsQuieter-refl m = record {
  owned = refl;
  controllers = IsLess-refl m.controllers;
  aborted = λ d h. h;
}

IsQuieter-trans : (m m' m'' : HandoffManager) → IsQuieter m m' → IsQuieter m' m'' → IsQuieter m m''
IsQuieter-trans m m' m'' a b = record {
  owned = b.owned ∙ a.owned;
  controllers = IsLess-trans _ _ _ a.controllers b.controllers;
  aborted = λ c h. b.aborted c (a.aborted c h);
}

-- The controllers of a list are aborted by the loop, and nothing else is lost.
abort_each_lem :
    (cs : List ℕ) (m : HandoffManager)
    → (IsQuieter m (abort_each cs m))
      × ((c : ℕ) → includes c cs ≡ true → includes c (abort_each cs m).aborted ≡ true)
unfolding abort_each
abort_each_lem [] m = (IsQuieter-refl m, λ c h. cc)
abort_each_lem (d ∷ cs) m =
    let m' = if not (includes d m.aborted) then abort d m else m in
    let (quiet, rest) = abort_each_lem cs m' in
    let first : (IsQuieter m m') × (includes d m'.aborted ≡ true) =
      elim (Bool-cases (includes d m.aborted)) [
        | inl old ↦ rw old (IsQuieter-refl m, old)
        | inr new ↦ rw new (abort-IsQuieter d m, abort-aborted d m)
      ] in
    (
      IsQuieter-trans m m' _ first.0 quiet,
      λ c h. elim (Bool-cases (d == c)) [
        | inl hit ↦
            quiet.aborted c (ap (λ x. includes x m'.aborted) (sym ((==_iff d c).0 hit)) ∙ first.1)
        | inr miss ↦ rest c (rw miss at h)
      ],
    )

remove-IsLess : (t : String) (m : List (String × List ℕ)) → IsLess m (remove t m)
remove-IsLess t m = record {
  table = remove-IsMap t m;
  gone = λ j w e. get-remove t j m w ∙ ground (arith, e);
}

pub abort_all_lem :
    (t : String) (m : HandoffManager)
    → (IsQuieter m (abort_all t m))
      × (IsMap m.controllers → get t (abort_all t m).controllers ≡ none)
      × ((c : ℕ)
          → includes c (or_empty (get t m.controllers)) ≡ true
          → includes c (abort_all t m).aborted ≡ true)
unfolding abort_all
abort_all_lem t m = elim (Option-cases (get t m.controllers)) [
  | inl none' ↦ rw (none', abort_all) (IsQuieter-refl m, λ w. none', λ c h. cc)
  | inr (cs, here) ↦
      let (quiet, all') = abort_each_lem cs m in
      let cleared : IsQuieter (abort_each cs m)
          (record (abort_each cs m) { controllers = remove t (abort_each cs m).controllers }) =
        record {
          owned = refl;
          controllers = remove-IsLess t (abort_each cs m).controllers;
          aborted = λ d h. h;
        } in
      rw (here, abort_all)
        (
          IsQuieter-trans m (abort_each cs m) _ quiet cleared,
          λ w.
              get-remove t t (abort_each cs m).controllers (quiet.controllers.table w)
              ∙ rw ((eq_iff t t).1 refl) refl,
          all',
        )
]

pub includes_str-snoc :
    (j t : String) (ts : List String)
    → str_eq t j ≡ false
    → includes_str j (ts ++ t ∷ []) ≡ includes_str j ts
includes_str-snoc j t [] miss = ground (arith, miss)
includes_str-snoc j t (s ∷ ts) miss = ap (λ b. str_eq s j || b) (includes_str-snoc j t ts miss)

pub includes_str-keep :
    (j : String) (p : String → Bool) (ts : List String)
    → includes_str j (keep p ts) ≡ true
    → includes_str j ts ≡ true
includes_str-keep j p [] h = h
includes_str-keep j p (t ∷ ts) h = elim (Bool-cases (p t)) [
  | inl in' ↦ ground (arith, rw in' at h, includes_str-keep j p ts)
  | inr out ↦ ground (arith, includes_str-keep j p ts (rw out at h))
]
