-- ===== src/Prelude/Maps.antt =====
-- A JavaScript `Map` with string keys: an association list in insertion order, where `set` on a
-- key that is there keeps its place.
use openzigs_social.Prelude.{
  String, Option, none, some, List, [], ◌∷◌, ◌≡◌, refl, arith, str_eq, eq_iff, if◌then◌else◌,
  Bool-cases, inl, inr, ◌∙◌,
}

module _ {ℓ} {V : Type ℓ} where
  unfoldable pub get : String → List (String × V) → Option V
  get k [] = none
  get k ((j, v) ∷ m) = if str_eq j k then some v else get k m

  unfoldable pub set : String → V → List (String × V) → List (String × V)
  set k v [] = (k, v) ∷ []
  set k v ((j, w) ∷ m) = if str_eq j k then (k, v) ∷ m else (j, w) ∷ set k v m

  pub get-set :
      (k j : String) (v : V) (m : List (String × V))
      → get j (set k v m) ≡ (if str_eq k j then some v else get j m)
  unfolding get set
  get-set k j v [] = refl
  get-set k j v ((i, w) ∷ m) = ground (arith, eq_iff k j, eq_iff i k, eq_iff i j, get-set k j v m)

  -- `Map.prototype.delete`.
  unfoldable pub remove : String → List (String × V) → List (String × V)
  remove k [] = []
  remove k ((j, v) ∷ m) = if str_eq j k then m else (j, v) ∷ remove k m

  -- A map has each key once.
  unfoldable pub IsMap : List (String × V) → Type ℓ
  unfolding get
  IsMap [] = Unit
  IsMap ((j, v) ∷ m) = (get j m ≡ none) × IsMap m

  pub set-IsMap : (k : String) (v : V) (m : List (String × V)) → IsMap m → IsMap (set k v m)
  unfolding get set IsMap
  set-IsMap k v [] h = (refl, tt)
  set-IsMap k v ((j, w) ∷ m) (fresh, h) = elim (Bool-cases (str_eq j k)) [
    | inl hit ↦ rw hit (rw ((eq_iff j k).0 hit) at fresh, h)
    | inr miss ↦
        rw miss
          (get-set k j v m ∙ ground (arith, eq_iff j k, eq_iff k j, fresh, miss), set-IsMap k v m h)
  ]

  pub get-remove :
      (k j : String) (m : List (String × V))
      → IsMap m
      → get j (remove k m) ≡ (if str_eq k j then none else get j m)
  unfolding get remove IsMap
  get-remove k j [] h = ground arith
  get-remove k j ((i, v) ∷ m) (fresh, h) = elim (Bool-cases (str_eq i k)) [
    | inl hit ↦ rw hit (ground (arith, eq_iff i k, eq_iff i j, eq_iff k j, fresh, hit))
    | inr miss ↦
        rw miss (ground (arith, eq_iff i k, eq_iff i j, eq_iff k j, miss, get-remove k j m h))
  ]

  pub remove-IsMap : (k : String) (m : List (String × V)) → IsMap m → IsMap (remove k m)
  unfolding get remove IsMap
  remove-IsMap k [] h = tt
  remove-IsMap k ((j, v) ∷ m) (fresh, h) = elim (Bool-cases (str_eq j k)) [
    | inl hit ↦ rw hit h
    | inr miss ↦ rw miss (get-remove k j m h ∙ ground (arith, fresh), remove-IsMap k m h)
  ]
