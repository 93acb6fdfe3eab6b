-- ===== src/Crm/Listing.antt =====
-- crm/repository.ts: listContacts, whose aggregates come from three statements for the whole page. A Map
-- is a list of entries.
use openzigs_social.Prelude.{
  ℕ, suc, String, ◌&&◌, Option, none, some, get_or, List, [], ◌∷◌, ◌++◌, map, keep, take, drop, leb,
  ◌==◌, if◌then◌else◌, length, includes,
}
use openzigs_social.Sql.{find}
use openzigs_social.Sql.Order.{sort_by}
use openzigs_social.Sql.Newest.{sort_newest}
use openzigs_social.SocialBrain.Types.{MessageRow}
use openzigs_social.SocialBrain.Repository as Brain
use openzigs_social.Crm.Email.{Runtime}
use openzigs_social.Crm.LeadScore.{LeadScoreWeights, Scoring, score_lead}
use openzigs_social.Crm.Types.{ContactRow, CrmContact, LinkRow, Crm, LinkedAccount, ScoredContact}
use openzigs_social.Crm.Repository.{
  at_text, since, owner_of, owner, by_social, by_crm, to_account, is_recent,
}
use openzigs_social.Crm.Sync.{sync, normalize_limit}

module _ {A : Type 0} where
  unfoldable pub map_get : ℕ → List (ℕ × A) → Option A
  map_get k [] = none
  map_get k (e ∷ es) = if e.0 == k then some (e.1) else map_get k es

  unfoldable pub map_set : ℕ → A → List (ℕ × A) → List (ℕ × A)
  map_set k a [] = (k, a) ∷ []
  map_set k a (e ∷ es) = if e.0 == k then (k, a) ∷ es else e ∷ map_set k a es

-- `const list = map.get(key) ?? []; list.push(value); map.set(key, list)` for each row.
unfoldable pub push_all : {A : Type 0} → List (ℕ × A) → List (ℕ × List A) → List (ℕ × List A)
unfolding map_get map_set
push_all [] m = m
push_all (r ∷ rs) m = push_all rs (map_set r.0 (get_or (map_get r.0 m) [] ++ r.1 ∷ []) m)

unfoldable pub set_all : {A : Type 0} → List (ℕ × A) → List (ℕ × A) → List (ℕ × A)
unfolding map_set
set_all [] m = m
set_all (r ∷ rs) m = set_all rs (map_set r.0 r.1 m)

abbrev pub batch_accounts : Crm → List LinkRow → List (ℕ × LinkedAccount)
batch_accounts db [] = []
batch_accounts db (l ∷ ls) =
    elim (find Brain.contact_id l.social_contact_id db.brain.contacts.rows) [
      | none ↦ batch_accounts db ls
      | some c ↦ (by_crm l, to_account l c) ∷ batch_accounts db ls
    ]

unfoldable pub batch_links : List ℕ → Crm → List (ℕ × LinkedAccount)
unfolding sort_by
batch_links ids db =
    batch_accounts db
      (sort_by by_crm (sort_by by_social (keep (λ l. includes (by_crm l) ids) db.links.rows)))

-- The messages of the window, each with the identity of the page that it belongs to.
abbrev pub joined : List ℕ → List LinkRow → ℕ → List MessageRow → List (ℕ × MessageRow)
joined ids ls start [] = []
joined ids ls start (m ∷ ms) = elim (owner_of ls m.contact_id) [
  | none ↦ joined ids ls start ms
  | some k ↦
      if includes k ids && is_recent start m
      then (k, m) ∷ joined ids ls start ms
      else joined ids ls start ms
]

-- GROUP BY the identity, with COUNT(*).
unfoldable pub count_groups : List (ℕ × MessageRow) → List (ℕ × ℕ) → List (ℕ × ℕ)
unfolding map_get map_set
count_groups [] groups = groups
count_groups (r ∷ rs) groups =
    count_groups rs (map_set r.0 (suc (get_or (map_get r.0 groups) 0)) groups)

unfoldable pub batch_engagement : List ℕ → ℕ → Crm → List (ℕ × ℕ)
unfolding count_groups owner
batch_engagement ids start db =
    count_groups (joined ids db.links.rows start db.brain.messages.rows) []

-- ROW_NUMBER() OVER (PARTITION BY the identity) with rn <= @limit, where `seen` are the identities of the
-- rows before.
abbrev pub row_number : ℕ → List ℕ → ℕ
row_number k seen = suc (length (keep (λ j. j == k) seen))

unfoldable pub top_rows : ℕ → List ℕ → List (ℕ × MessageRow) → List (ℕ × MessageRow)
top_rows limit seen [] = []
top_rows limit seen (r ∷ rs) =
    let rest = top_rows limit (r.0 ∷ seen) rs in
    if leb (row_number r.0 seen) limit then r ∷ rest else rest

abbrev pub row_at : ℕ × MessageRow → ℕ
row_at r = at_text (r.1)

abbrev pub row_crm : ℕ × MessageRow → ℕ
row_crm r = r.0

-- The rows are by their times, so those of one identity are by their numbers.
unfoldable pub batch_recent_bodies : List ℕ → ℕ → ℕ → Crm → List (ℕ × String)
unfolding sort_by sort_newest top_rows owner
batch_recent_bodies ids start limit db =
    map (λ r. (r.0, r.1.body))
      (sort_by row_crm (
        top_rows limit []
          (sort_newest row_at (joined ids db.links.rows start db.brain.messages.rows))))

abbrev pub updated_at : ContactRow → ℕ
updated_at r = r.updated_at

-- ORDER BY updated_at DESC, id DESC LIMIT @limit OFFSET @offset
unfoldable pub page : Option ℕ → Option ℕ → Crm → List CrmContact
unfolding sort_newest normalize_limit
page limit offset db =
    take (normalize_limit limit 100)
      (drop (get_or offset 0) (sort_newest updated_at db.crm_contacts.rows))

module _ (scoring : Scoring) where
  abbrev pub score_row :
      LeadScoreWeights
      → List (ℕ × List LinkedAccount)
      → List (ℕ × ℕ)
      → List (ℕ × List String)
      → CrmContact
      → ScoredContact
  score_row w links counts bodies contact =
      let engagement_count = get_or (map_get contact.id counts) 0 in
      record {
        contact = contact;
        linked_accounts = get_or (map_get contact.id links) [];
        engagement_count = engagement_count;
        lead_score =
            score_lead scoring
              (record {
                engagement_count = engagement_count;
                follower_count = contact.follower_count;
                recent_messages = get_or (map_get contact.id bodies) [];
              })
              w;
      }

  unfoldable pub score_page : ℕ → LeadScoreWeights → List CrmContact → Crm → List ScoredContact
  unfolding batch_links batch_engagement batch_recent_bodies push_all set_all map_get score_lead
  score_page now w contacts db =
      let ids = map (λ c. c.id) contacts in
      let start = since now w in
      map
        (score_row w (push_all (batch_links ids db) []) (set_all (batch_engagement ids start db) [])
          (push_all (batch_recent_bodies ids start 50 db) []))
        contacts

module _ (js : Runtime) (scoring : Scoring) where
  unfoldable pub list_contacts :
      ℕ → LeadScoreWeights → Option ℕ → Option ℕ → Crm → List ScoredContact × Crm
  unfolding sync page score_page
  list_contacts now w limit offset db =
      let synced = sync js now db in
      (score_page scoring now w (page limit offset synced) synced, synced)
