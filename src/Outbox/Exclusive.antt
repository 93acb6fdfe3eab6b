-- ===== src/Outbox/Exclusive.antt =====
-- Lemmas on outbox/repository.ts: a claim after a claim.
use openzigs_social.Prelude.{
  ℕ, true, false, some, List, [], ◌∷◌, map, ◌≡◌, refl, ap, ◌∙◌, inl, inr, Bool-cases, keep,
  mem_of_mem-keep, mem-keep, includes, includes-map, includes-map_of_mem,
}
use openzigs_social.Sql.{find}
use openzigs_social.Sql.Laws.{IsTable, update-IsTable, find-key, find-mem, find_of_mem}
use openzigs_social.Outbox.Types.{OutboxRow, OutboxPost, publishing, to_post}
use openzigs_social.Outbox.Repository.{Outbox, row_id, is_due, due_ids, claim_row, claim_due}
use openzigs_social.Outbox.Claim.{due_ids-due, find-claim_due, find-claimed}

-- The ids that a claim returns.
abbrev pub post_ids : List OutboxPost → List ℕ
post_ids = map (λ p. p.id)

abbrev pub claimed_ids : ℕ → ℕ → Outbox → List ℕ
claimed_ids now limit t = post_ids (claim_due now limit t).0

post_ids-to_post : (rs : List OutboxRow) → post_ids (map to_post rs) ≡ map row_id rs
unfolding to_post
post_ids-to_post [] = refl
post_ids-to_post (r ∷ rs) = ap (◌∷◌ r.id) (post_ids-to_post rs)

pub claim_due-IsTable :
    (now limit : ℕ) (t : Outbox) → IsTable row_id t → IsTable row_id (claim_due now limit t).1
unfolding claim_due
claim_due-IsTable now limit t w =
    update-IsTable row_id (λ r. includes r.id (due_ids now limit t)) (claim_row now) (λ r. refl) t w

-- What the returned ids are: the chosen ones.
pub due_ids_of_claimed :
    (now limit j : ℕ) (t : Outbox)
    → includes j (claimed_ids now limit t) ≡ true
    → IsTable row_id t
    → (includes j (due_ids now limit t) ≡ true)
      × ((r : OutboxRow) × (find row_id j (claim_due now limit t).1.rows ≡ some r))
unfolding claim_due
due_ids_of_claimed now limit j t h w =
    let rows = (claim_due now limit t).1.rows in
    let chosen = λ (r : OutboxRow). includes r.id (due_ids now limit t) in
    let (x, m, e) = includes-map row_id j (keep chosen rows) (rw post_ids-to_post at h) in
    let (m', c) = mem_of_mem-keep chosen x rows m in
    (
      rw e at c,
      (x, rw e at (find_of_mem row_id 0 t.seq rows x (claim_due-IsTable now limit t w) m')),
    )

pub claimed_of_due_ids :
    (now limit j : ℕ) (t : Outbox) (r : OutboxRow)
    → find row_id j t.rows ≡ some r
    → includes j (due_ids now limit t) ≡ true
    → includes j (claimed_ids now limit t) ≡ true
unfolding claim_due
claimed_of_due_ids now limit j t r found h = rw post_ids-to_post (
    rw (← find-key row_id j t.rows r found) (
      includes-map_of_mem row_id {x = claim_row now r} _ (
        mem-keep (λ r. includes r.id (due_ids now limit t)) (claim_row now r) _
          (rw (find-key row_id j t.rows r found) h)
          (find-mem row_id j _ (claim_row now r) (find-claim_due now limit j t ∙ rw (found, h))))))

pub claimed-publishing :
    (now limit j : ℕ) (t : Outbox)
    → IsTable row_id t
    → includes j (claimed_ids now limit t) ≡ true
    → (x : OutboxRow) × (find row_id j (claim_due now limit t).1.rows ≡ some x)
      × (x.status ≡ publishing)
claimed-publishing now limit j t w h =
    let (chosen, (x, found)) = due_ids_of_claimed now limit j t h w in
    let (r, here, e) = find-claimed now limit j t x chosen found in (x, found, ap (λ y. y.status) e)

publishing-not_due : (now : ℕ) (x : OutboxRow) → x.status ≡ publishing → is_due now x ≡ false
unfolding is_due
publishing-not_due now x h = rw h

-- If the table is well-formed, that is its keys rise and stay within the sequence, then no id
-- that one claim returns is returned by the claim that follows it, at whatever times and with
-- whatever limits the two are made.
pub claim_due-IsExclusive :
    (now limit now' limit' j : ℕ) (t : Outbox)
    → IsTable row_id t
    → includes j (claimed_ids now limit t) ≡ true
    → includes j (claimed_ids now' limit' (claim_due now limit t).1) ≡ false
claim_due-IsExclusive now limit now' limit' j t w h =
    let t' = (claim_due now limit t).1 in
    let w' = claim_due-IsTable now limit t w in
    let (x, found, busy) = claimed-publishing now limit j t w h in
    elim (Bool-cases (includes j (claimed_ids now' limit' t'))) [
      | inl again ↦ cc (
        due_ids-due now' limit' t' w' j x found (due_ids_of_claimed now' limit' j t' again w').0,
        publishing-not_due now' x busy,
      )
      | inr once ↦ once
    ]
