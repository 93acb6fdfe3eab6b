-- ===== src/AutoReply/Faithful.antt =====
-- Lemmas on routing/pipeline.ts: the audit rows and the texts that were delivered.
use openzigs_social.Prelude.{
  ℕ, String, true, Option, none, some, List, [], ◌∷◌, ◌++◌, ◌≡◌, refl, ap, inl, inr, arith, ◌==◌,
  if◌then◌else◌, Bool-cases,
}
use openzigs_social.AutoReply.Audit.{
  AuditOutcome, pending, sent, rejected, is_pending, AuditRow, AuditFinalizeInput,
}
use openzigs_social.AutoReply.Pipeline.{Delivery}

-- The texts that were delivered for a row.
abbrev pub texts : ℕ → List Delivery → List String
texts k [] = []
texts k (d ∷ ds) = if d.audit_id == k then d.text ∷ texts k ds else texts k ds

-- What a row says was delivered.
abbrev to_list : Option String → List String
to_list none = []
to_list (some s) = s ∷ []

abbrev told_by : AuditOutcome → Option String → List String
told_by sent final_text = to_list final_text
told_by pending final_text = []
told_by rejected final_text = []

abbrev pub told : Option AuditRow → List String
told none = []
told (some r) = told_by r.outcome r.final_text

pub texts-snoc :
    (k : ℕ) (ds : List Delivery) (d : Delivery)
    → texts k (ds ++ d ∷ []) ≡ texts k ds ++ (if d.audit_id == k then d.text ∷ [] else [])
texts-snoc k [] d = ground arith
texts-snoc k (e ∷ ds) d = elim (Bool-cases (e.audit_id == k)) [
  | inl hit ↦ rw hit (ap (λ xs. e.text ∷ xs) (texts-snoc k ds d))
  | inr miss ↦ rw miss (texts-snoc k ds d)
]

abbrev pub rejection : AuditFinalizeInput
rejection = record { outcome = rejected; final_text = none; human_override = none }

pub is_pending-told : (r : AuditRow) → is_pending r.outcome ≡ true → told (some r) ≡ []
is_pending-told r h = by_outcome r.outcome r.final_text h
  where
    by_outcome : (o : AuditOutcome) (f : Option String) → is_pending o ≡ true → told_by o f ≡ []
    by_outcome pending f e = refl
    by_outcome sent f e = cc
    by_outcome rejected f e = refl
