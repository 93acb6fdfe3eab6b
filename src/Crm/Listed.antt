-- ===== src/Crm/Listed.antt =====
-- Lemmas on listContacts of crm/repository.ts: the page scores each identity as `enrich` does.
use openzigs_social.Prelude.{
  ℕ, zero, suc, String, true, ◌&&◌, Option, List, [], ◌∷◌, ◌≡◌, refl, ap, ◌∙◌, inl, inr, arith, map,
  keep, take, ◌==◌, ==_iff, get_or, Memᴰ, All, All-of_mem, length, includes, length-map, Bool-cases,
}
use mathlib.Core.List.{map-map}
use openzigs_social.Sql.Order.{sort_by}
use openzigs_social.Sql.Newest.{sort_newest}
use openzigs_social.Sql.Stable.{keep-sort_by, keep-sort_by_own, keep-sort_newest}
use openzigs_social.SocialBrain.Types.{MessageRow}
use openzigs_social.Crm.Email.{Runtime}
use openzigs_social.Crm.LeadScore.{LeadScoreWeights, Scoring, score_lead}
use openzigs_social.Crm.Types.{CrmContact, LinkRow, Crm, LinkedAccount, ScoredContact}
use openzigs_social.Crm.Repository.{
  at_text, since, is_owned, is_recent, by_social, by_crm, accounts, linked_accounts,
  engagement_count, recent_bodies, score_contact, enrich,
}
use openzigs_social.Crm.Sync.{sync}
use openzigs_social.Crm.Listing.{
  map_get, push_all, set_all, joined, top_rows, row_at, row_crm, batch_links, batch_engagement,
  batch_recent_bodies, page, score_page, list_contacts,
}
use openzigs_social.Crm.Batched.{
  of_key, push_all_lem, count_groups_lem, batch_accounts-own, joined-own, keep-includes,
  top_rows-own, sort_newest-map,
}

map-take : {A B : Type 0} (f : A → B) (n : ℕ) (xs : List A) → take n (map f xs) ≡ map f (take n xs)
map-take f zero xs = refl
map-take f (suc n) [] = refl
map-take f (suc n) (x ∷ xs) = ap (λ rest. f x ∷ rest) (map-take f n xs)

of_key-map :
    {A : Type 0} (k : ℕ) (f : MessageRow → A) (xs : List (ℕ × MessageRow))
    → of_key k (map (λ r. (r.0, f (r.1))) xs) ≡ map (λ r. (r.0, f (r.1))) (of_key k xs)
of_key-map k f [] = refl
of_key-map k f (x ∷ xs) = elim (Bool-cases (x.0 == k)) [
  | inl hit ↦ rw hit (ap (λ rest. (x.0, f (x.1)) ∷ rest) (of_key-map k f xs))
  | inr miss ↦ rw miss (of_key-map k f xs)
]

map-agree :
    {A B : Type 0} (f g : A → B) (xs : List A) → All (λ x. f x ≡ g x) xs → map f xs ≡ map g xs
map-agree f g [] h = refl
map-agree f g (x ∷ xs) h = rw (h.0) (ap (λ rest. g x ∷ rest) (map-agree f g xs h.1))

module _ (ids : List ℕ) (k : ℕ) (on_page : includes k ids ≡ true) (db : Crm) where
  abbrev links_of_page : List LinkRow
  links_of_page = keep (λ l. includes (by_crm l) ids) db.links.rows

  links-own : get_or (map_get k (push_all (batch_links ids db) [])) [] ≡ linked_accounts k db
  unfolding batch_links linked_accounts
  links-own =
      push_all_lem k _
      ∙ batch_accounts-own db k _
      ∙ ap (accounts db) (
          keep-sort_by_own by_crm k (sort_by by_social links_of_page)
          ∙ keep-sort_by by_social (λ l. by_crm l == k) links_of_page
          ∙ ap (sort_by by_social) (keep-includes ids k on_page db.links.rows))

  module _ (now : ℕ) (w : LeadScoreWeights) where
    abbrev rows : List (ℕ × MessageRow)
    rows = joined ids db.links.rows (since now w) db.brain.messages.rows

    abbrev own : List MessageRow
    own = keep (λ m. is_owned k db.links.rows m && is_recent (since now w) m) db.brain.messages.rows

    abbrev sorted : List (ℕ × MessageRow)
    sorted = sort_newest row_at rows

    engagement-own :
        get_or (map_get k (set_all (batch_engagement ids (since now w) db) [])) 0
        ≡ engagement_count now w k db
    unfolding batch_engagement engagement_count
    engagement-own =
        count_groups_lem k _
        ∙ ap length (joined-own ids k on_page db.links.rows (since now w) db.brain.messages.rows)
        ∙ length-map (λ m. (k, m)) own

    bodies-own :
        get_or (map_get k (push_all (batch_recent_bodies ids (since now w) 50 db) [])) []
        ≡ recent_bodies now w k db
    unfolding batch_recent_bodies recent_bodies
    bodies-own =
        push_all_lem k _
        ∙ ap (map (λ r. r.1)) (of_key-map k (λ m. m.body) (sort_by row_crm (top_rows 50 [] sorted)))
        ∙ map-map (λ r. r.1) (λ r. (r.0, r.1.body))
            (of_key k (sort_by row_crm (top_rows 50 [] sorted)))
        ∙ ap (map body_of) (
            keep-sort_by_own row_crm k (top_rows 50 [] sorted)
            ∙ top_rows-own 50 k sorted
            ∙ ap (take 50) (
                keep-sort_newest row_at (λ r. r.0 == k) rows
                ∙ ap (sort_newest row_at)
                    (joined-own ids k on_page db.links.rows (since now w) db.brain.messages.rows)
                ∙ sort_newest-map (λ m. (k, m)) row_at own)
            ∙ map-take (λ m. (k, m)) 50 (sort_newest at_text own))
        ∙ map-map body_of (λ m. (k, m)) (take 50 (sort_newest at_text own))
      where
        body_of : ℕ × MessageRow → String
        body_of r = r.1.body

includes-map :
    (c : CrmContact) (cs : List CrmContact) → Memᴰ c cs → includes c.id (map (λ x. x.id) cs) ≡ true
includes-map c [] m = elim m [ ]
includes-map c (x ∷ cs) (Memᴰ.head e) = rw (← e) (rw ((==_iff c.id c.id).1 refl) refl)
includes-map c (x ∷ cs) (Memᴰ.tail m) = ground (arith, includes-map c cs m)

module _ (scoring : Scoring) (now : ℕ) (w : LeadScoreWeights) where
  abbrev scored : CrmContact → List LinkedAccount → ℕ → List String → ScoredContact
  scored c links count bodies = record {
    contact = c;
    linked_accounts = links;
    engagement_count = count;
    lead_score =
        score_lead scoring
          (record {
            engagement_count = count;
            follower_count = c.follower_count;
            recent_messages = bodies;
          })
          w;
  }

  score_page_lem :
      (contacts : List CrmContact) (db : Crm)
      → score_page scoring now w contacts db ≡ map (enrich scoring now w db) contacts
  unfolding score_page enrich score_contact
  score_page_lem contacts db = map-agree _ _ contacts (
      All-of_mem _ contacts (λ c m.
        let ids = map (λ x. x.id) contacts in
        let on_page = includes-map c contacts m in
        λ i.
          scored c (links-own ids c.id on_page db i) (engagement-own ids c.id on_page db now w i)
            (bodies-own ids c.id on_page db now w i)))

module _ (js : Runtime) (scoring : Scoring) (now : ℕ) (w : LeadScoreWeights) where
  -- For any weights, limit, offset and store, `listContacts`, which groups the results of three
  -- statements for a page in memory, returns the page of the synced store with each identity
  -- scored as `enrich` scores it alone, with the same linked accounts, engagement and recent
  -- bodies in the same order; and the store is left as `sync` leaves it.
  pub list_contacts-enrich :
      (limit offset : Option ℕ) (db : Crm)
      → list_contacts js scoring now w limit offset db ≡ (
        map (enrich scoring now w (sync js now db)) (page limit offset (sync js now db)),
        sync js now db,
      )
  unfolding list_contacts
  list_contacts-enrich limit offset db =
      ap (λ l. (l, sync js now db))
        (score_page_lem scoring now w (page limit offset (sync js now db)) (sync js now db))
