-- ===== src/SocialBrain/Promise.antt =====
-- An upsert against a promise that is made of the inputs alone, for any of the three tables.
use openzigs_social.Prelude.{
  ℕ, suc, String, ◌&&◌, Option, none, some, List, [], ◌∷◌, ◌≡◌, refl, ap, inl, inr, str_eq,
  if◌then◌else◌, Bool-cases, Option-cases,
}
use mathlib.Core.Option
use openzigs_social.Sql.{Table}
use openzigs_social.Sql.Upsert.{find_by, upsert, find_by-upsert}

-- What is promised after inputs, of what was there.
abbrev pub promised :
    {I V : Type 0}
    → (V → List (ℕ × I) → V)
    → (List (ℕ × I) → Option V)
    → Option V
    → List (ℕ × I)
    → Option V
promised later spec none es = spec es
promised later spec (some v) es = some (later v es)

pub promised-nil :
    {I V : Type 0} (later : V → List (ℕ × I) → V) (spec : List (ℕ × I) → Option V)
    → spec [] ≡ none
    → ((v : V) → later v [] ≡ v)
    → (o : Option V) → promised later spec o [] ≡ o
promised-nil later spec nothing same none = nothing
promised-nil later spec nothing same (some v) = ap some (same v)

module _ {Row I V : Type 0} (fst snd : Row → String) (view : Row → V) (later : V → List (ℕ × I) → V)
    (spec : List (ℕ × I) → Option V) (merge : ℕ → I → Row → Row) (make : ℕ → I → ℕ → Row)
    (fst_of snd_of : I → String)
    (fst' : (now : ℕ) (input : I) (r : Row) → fst (merge now input r) ≡ fst r)
    (snd' : (now : ℕ) (input : I) (r : Row) → snd (merge now input r) ≡ snd r)
    (first : (now : ℕ) (input : I) (k : ℕ) → fst (make now input k) ≡ fst_of input)
    (second : (now : ℕ) (input : I) (k : ℕ) → snd (make now input k) ≡ snd_of input)
    (old : (now : ℕ) (input : I) (r : Row) (es : List (ℕ × I))
      → later (view (merge now input r)) es ≡ later (view r) ((now, input) ∷ es))
    (new : (now : ℕ) (input : I) (k : ℕ) (es : List (ℕ × I))
      → some (later (view (make now input k)) es) ≡ spec ((now, input) ∷ es)) where
  pub promised-upsert :
      (now : ℕ) (input : I) (q j : String) (t : Table Row) (es : List (ℕ × I))
      → let t' =
          upsert fst snd (fst_of input) (snd_of input) (merge now input) (make now input) t in
        promised later spec (Option.map view (find_by fst snd q j t'.rows)) es
        ≡ promised later spec
            (Option.map view (find_by fst snd q j t.rows))
            (if str_eq (fst_of input) q && str_eq (snd_of input) j then (now, input) ∷ es else es)
  promised-upsert now input q j t es =
      let found =
        find_by-upsert fst snd (merge now input) (fst' now input) (snd' now input) (fst_of input)
          (snd_of input) (make now input) (first now input) (second now input) q j t in
      rw found (elim (Bool-cases (str_eq (fst_of input) q && str_eq (snd_of input) j)) [
        | inr miss ↦ rw miss refl
        | inl hit ↦ rw hit (elim (Option-cases (find_by fst snd q j t.rows)) [
          | inl none' ↦ rw none' (new now input (suc t.seq) es)
          | inr (r, here) ↦ rw here (ap some (old now input r es))
        ])
      ])
