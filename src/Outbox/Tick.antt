-- ===== src/Outbox/Tick.antt =====
-- Lemmas on outbox/poller.ts: a whole tick, from the claim to the counts that it returns.
use mathlib.Core.List.{Permᴰ}
use mathlib.Core.Option
use openzigs_social.Prelude.{
  ℕ, ◌+◌, ◌-◌, ◌≤◌, Bool, true, false, ltb, some, List, [], ◌∷◌, map, ◌≡◌, refl, ap, sym, ◌∙◌, ◌⊎◌,
  inl, inr, arith, ◌==◌, ==_iff, if◌then◌else◌, length, keep, Bool-cases, map_fixed, includes,
}
use openzigs_social.Effects.{Result, ok}
use openzigs_social.Sql.{find}
use openzigs_social.Sql.Laws.{IsTable, Rising}
use openzigs_social.Retry.Backoff.{Ending, value, exhausted}
use openzigs_social.Retry.Dlq.{entry_id}
use openzigs_social.Outbox.Types.{
  OutboxError, OutboxRow, OutboxPost, OutboxStatus, publishing, published, failed, to_post,
}
use openzigs_social.Outbox.Repository.{Outbox, row_id, claim_due, due_ids}
use openzigs_social.Outbox.Exclusive.{
  post_ids, claimed_ids, claim_due-IsTable, claimed-publishing, claimed_of_due_ids,
}
use openzigs_social.Outbox.Claim.{find-claim_due}
use openzigs_social.Outbox.Poller.{
  OutboxPublisher, PublishError, PublishResult, World, TickResult, tick_result, tick,
}
use openzigs_social.Outbox.Settle.{retried, ended_row, is_value, dead_count}
use openzigs_social.Outbox.Settled.{
  AreClaimed, final_row, final_rows, failures, results, publish_all-AreSettled,
}

-- How many of the posts have an id.
abbrev pub posts_with : ℕ → List OutboxPost → ℕ
posts_with j [] = 0
posts_with j (p ∷ ps) = (if p.id == j then 1 else 0) + posts_with j ps

includes-posts_with :
    (j : ℕ) (ps : List OutboxPost) → includes j (post_ids ps) ≡ ltb 0 (posts_with j ps)
includes-posts_with j [] = ground arith
includes-posts_with j (p ∷ ps) = ground (arith, includes-posts_with j ps)

posts_with-perm :
    (j : ℕ) {ps qs : List OutboxPost} → Permᴰ ps qs → posts_with j qs ≡ posts_with j ps
posts_with-perm j Permᴰ.nil = refl
posts_with-perm j (Permᴰ.cons e p) = rw e (omega (arith, posts_with-perm j p))
posts_with-perm j (Permᴰ.swap e e') = rw (e, e') (omega arith)
posts_with-perm j (Permᴰ.trans p q) = posts_with-perm j q ∙ posts_with-perm j p

length-perm : {ps qs : List OutboxPost} → Permᴰ ps qs → length qs ≡ length ps
length-perm Permᴰ.nil = refl
length-perm (Permᴰ.cons e p) = omega (arith, length-perm p)
length-perm (Permᴰ.swap e e') = omega arith
length-perm (Permᴰ.trans p q) = length-perm q ∙ length-perm p

-- The rows of a table give each id at most once.
posts_with-rows :
    (j : ℕ) (p : OutboxRow → Bool) (lo hi : ℕ) (rs : List OutboxRow)
    → Rising row_id lo hi rs
    → (posts_with j (map to_post (keep p rs)) ≤ 1)
      × (j ≤ lo → posts_with j (map to_post (keep p rs)) ≡ 0)
unfolding to_post
posts_with-rows j p lo hi [] w = (omega arith, λ h. refl)
posts_with-rows j p lo hi (r ∷ rs) (low, w) =
    let (once, none') = posts_with-rows j p r.id hi rs w in
    elim (Bool-cases (p r)) [
      | inl in' ↦ rw in' (elim (Bool-cases (r.id == j)) [
        | inl hit ↦ rw hit (
          omega (arith, none' (omega (arith, (==_iff r.id j).0 hit))),
          λ h. ground (arith, hit, low, h),
        )
        | inr miss ↦
            rw miss (omega (arith, once), λ h. omega (arith, low, none' (omega (arith, h, low))))
      ])
      | inr out ↦ rw out (once, λ h. none' (omega (arith, h, low)))
    ]

claimed-once :
    (now limit j : ℕ) (t : Outbox) → IsTable row_id t → posts_with j (claim_due now limit t).0 ≤ 1
unfolding claim_due
claimed-once now limit j t w =
    let t' = (claim_due now limit t).1 in
    (posts_with-rows j (λ r. includes r.id (due_ids now limit t)) 0 t'.seq t'.rows
      (claim_due-IsTable now limit t w)).0

-- A row that is not claimed stays as it was.
unclaimed_same :
    (now limit j : ℕ) (t : Outbox)
    → includes j (claimed_ids now limit t) ≡ false
    → find row_id j (claim_due now limit t).1.rows ≡ find row_id j t.rows
unclaimed_same now limit j t h =
    find-claim_due now limit j t
    ∙ sym (
        map_fixed _ _ (λ r found. elim (Bool-cases (includes j (due_ids now limit t))) [
          | inl due ↦ cc (claimed_of_due_ids now limit j t r found due, h)
          | inr left ↦ rw left refl
        ]))

-- Whether a status is the end of a publishing.
abbrev pub IsEnded : OutboxStatus → Type 0
IsEnded s = (s ≡ published) ⊎ (s ≡ failed)

ended_row-IsEnded :
    (now calls : ℕ) (e : Ending PublishError PublishResult) (r : OutboxRow)
    → IsEnded (ended_row now calls e r).status
ended_row-IsEnded now calls (value v) r = inl refl
ended_row-IsEnded now calls (exhausted n e) r = inr refl

module _ (publisher : OutboxPublisher) (schedule : List ℕ) (is_transient : PublishError → Bool)
    (now : ℕ) where
  AreClaimed-of_posts :
      (t : Outbox) (ps : List OutboxPost)
      → ((j : ℕ) → posts_with j ps ≤ 1)
      → ((j : ℕ)
          → 1 ≤ posts_with j ps
          → (r : OutboxRow) × (find row_id j t.rows ≡ some r) × (r.status ≡ publishing))
      → AreClaimed publisher schedule is_transient now ps t
  AreClaimed-of_posts t [] once busy = tt
  AreClaimed-of_posts t (p ∷ ps) once busy = (
    busy p.id (ground arith),
    includes-posts_with p.id ps ∙ ground (arith, once p.id),
    AreClaimed-of_posts t ps (λ j. omega (arith, once j)) (λ j h. busy j (omega (arith, h))),
  )

  final_rows-kept :
      (ps : List OutboxPost) (j : ℕ) (r : OutboxRow)
      → IsEnded r.status
      → IsEnded (final_rows publisher schedule is_transient now ps j r).status
  final_rows-kept [] j r h = h
  final_rows-kept (p ∷ ps) j r h =
      final_rows-kept ps j
        (if p.id == j then final_row publisher schedule is_transient now p r else r)
        (elim (Bool-cases (p.id == j)) [
          | inl hit ↦ rw hit (ended_row-IsEnded now _ _ r)
          | inr miss ↦ rw miss h
        ])

  final_rows-IsEnded :
      (ps : List OutboxPost) (j : ℕ) (r : OutboxRow)
      → includes j (post_ids ps) ≡ true
      → IsEnded (final_rows publisher schedule is_transient now ps j r).status
  final_rows-IsEnded [] j r h = cc
  final_rows-IsEnded (p ∷ ps) j r h =
      let r' = if p.id == j then final_row publisher schedule is_transient now p r else r in
      elim (Bool-cases (p.id == j)) [
        | inl hit ↦ final_rows-kept ps j r' (rw hit (ended_row-IsEnded now _ _ r))
        | inr miss ↦ final_rows-IsEnded ps j r' (rw miss at h)
      ]

  pub final_rows-same :
      (ps : List OutboxPost) (j : ℕ) (r : OutboxRow)
      → includes j (post_ids ps) ≡ false
      → final_rows publisher schedule is_transient now ps j r ≡ r
  final_rows-same [] j r h = refl
  final_rows-same (p ∷ ps) j r h = elim (Bool-cases (p.id == j)) [
    | inl hit ↦ cc (rw hit at h)
    | inr miss ↦ rw miss (final_rows-same ps j r (rw miss at h))
  ]

  dead_count_lem :
      (e : Ending PublishError PublishResult) → (if is_value e then 1 else 0) + dead_count e ≡ 1
  dead_count_lem (value v) = omega arith
  dead_count_lem (exhausted n e) = omega arith

  results-failures :
      (ps : List OutboxPost)
      → length (keep (λ b. b) (results publisher schedule is_transient now ps))
          + failures publisher schedule is_transient now ps
        ≡ length ps
  results-failures [] = omega arith
  results-failures (p ∷ ps) =
      let e = (retried publisher schedule is_transient now p).ending in
      elim (Bool-cases (is_value e)) [
        | inl won ↦ rw won (omega (arith, results-failures ps, rw won at (dead_count_lem e)))
        | inr lost ↦ rw lost (omega (arith, results-failures ps, rw lost at (dead_count_lem e)))
      ]

module _ (publisher : OutboxPublisher) (schedule : List ℕ) (is_transient : PublishError → Bool)
    (finish : List OutboxPost → List OutboxPost) where
  -- What a tick leaves of the row `j`, and its counts.
  pub record IsTicked (now limit : ℕ) (w : World) (res : Result OutboxError TickResult) (w' : World)
      : Type 0 where
    pub counts :
        (r : TickResult) × (res ≡ ok r)
        × (r.claimed ≡ length (claim_due now limit w.outbox).0)
        × (r.published + r.failed ≡ r.claimed)
        × (w'.dlq.seq ≡ w.dlq.seq + r.failed)
    pub ended :
        (j : ℕ)
        → includes j (claimed_ids now limit w.outbox) ≡ true
        → (r : OutboxRow) × (find row_id j w'.outbox.rows ≡ some r) × IsEnded r.status
    pub others :
        (j : ℕ)
        → includes j (claimed_ids now limit w.outbox) ≡ false
        → find row_id j w'.outbox.rows ≡ find row_id j w.outbox.rows

  -- If both tables are well-formed and the posts that the tick claims finish in an order that is
  -- a permutation of them, then the tick returns the number of claimed posts, split into
  -- published and failed ones, it adds as many dead letters as it counts failures, every claimed
  -- row is `published` or `failed` after it, and every other row is as it was.
  pub tick-IsTicked :
      (now limit : ℕ) (w : World)
      → IsTable row_id w.outbox
      → IsTable entry_id w.dlq
      → Permᴰ (claim_due now limit w.outbox).0 (finish (claim_due now limit w.outbox).0)
      → let (res, w') = tick publisher schedule is_transient finish now limit w in
        IsTicked now limit w res w'
  unfolding tick tick_result
  tick-IsTicked now limit w table dead perm =
      let (claimed, t) = claim_due now limit w.outbox in
      let w₁ : World = record w { outbox = t } in
      let ps = finish claimed in
      let same : (j : ℕ) → includes j (post_ids ps) ≡ includes j (post_ids claimed) = λ j.
        includes-posts_with j ps
        ∙ ap (ltb 0) (posts_with-perm j perm)
        ∙ sym (includes-posts_with j claimed) in
      let are : AreClaimed publisher schedule is_transient now ps t =
        AreClaimed-of_posts publisher schedule is_transient now t ps
          (λ j. omega (arith, claimed-once now limit j w.outbox table, posts_with-perm j perm))
          (λ j h.
            claimed-publishing now limit j w.outbox table
              (sym (same j) ∙ includes-posts_with j ps ∙ ground (arith, h))) in
      let all = publish_all-AreSettled publisher schedule is_transient now ps w₁ dead are in
      record {
        counts =
            let won = length (keep (λ b. b) (results publisher schedule is_transient now ps)) in
            let total = results-failures publisher schedule is_transient now ps in
            (
              record { claimed = length claimed; published = won; failed = length claimed - won },
              rw all.result refl,
              refl,
              omega (arith, total, length-perm perm),
              omega (arith, total, length-perm perm, all.dlq_seq),
            );
        ended = λ j h.
            let (r, found, busy) = claimed-publishing now limit j w.outbox table h in
            (
              final_rows publisher schedule is_transient now ps j r,
              all.rows j ∙ ap (Option.map _) found,
              final_rows-IsEnded publisher schedule is_transient now ps j r (same j ∙ h),
            );
        others = λ j h.
            all.rows j
            ∙ sym (
                map_fixed _ _
                  (λ r _. final_rows-same publisher schedule is_transient now ps j r (same j ∙ h)))
            ∙ unclaimed_same now limit j w.outbox h;
      }
