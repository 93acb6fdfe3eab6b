-- ===== src/Crm/Gdpr.antt =====
-- crm/gdpr.ts: deleteContact. The tables of messages and identities are those of the CRM; of
-- platform_insights_raw the columns that are read.
use openzigs_social.Prelude.{
  ℕ, ◌-◌, String, Bool, false, not, ◌&&◌, ltb, Option, none, some, List, map, keep, any, ◌==◌,
  str_eq, if◌then◌else◌, length, includes, is_some,
}
use openzigs_social.Effects.{Exec, ok, err}
use openzigs_social.Sql.{Table, delete_where}
use openzigs_social.SocialBrain.Types.{MessageRow}
use openzigs_social.AutoReply.Audit.{AuditTable, delete_by_contact}
use openzigs_social.Crm.Types.{Crm}
use openzigs_social.Crm.Repository.{by_crm, accounts, get_contact, merge_count}
use openzigs_social.Crm.Sync as Sync

pub record InsightRow : Type 0 where
  pub id : ℕ
  pub platform : String
  pub object_id : String

pub record Store : Type 0 where
  pub crm : Crm
  pub audits : AuditTable
  pub insights : Table InsightRow

pub record RowCounts : Type 0 where
  pub contacts : ℕ
  pub social_messages : ℕ
  pub auto_reply_audit : ℕ
  pub platform_insights_raw : ℕ
  pub merged_contacts : Option ℕ

pub record Receipt : Type 0 where
  pub deleted_at : ℕ
  pub contact_id : ℕ
  pub rows_deleted : RowCounts

-- The statuses 404 and 409.
pub data GdprDeleteError : Type 0 where
  not_found : ℕ → GdprDeleteError
  has_merges : ℕ → ℕ → GdprDeleteError

abbrev pub of_contacts : List ℕ → MessageRow → Bool
of_contacts cs m = elim m.contact_id [ none ↦ false | some c ↦ includes c cs ]

abbrev pub of_objects : List String → InsightRow → Bool
of_objects os r = any (λ o. str_eq o r.object_id) os

-- Rows that a DELETE takes from a table.
abbrev pub removed : {A : Type 0} → Table A → Table A → ℕ
removed t t' = length t.rows - length t'.rows

-- `text` is how SQLite compares the number of a contact with a TEXT column.
module _ (text : ℕ → String) where
  unfoldable pub purge : ℕ → Bool → Store → RowCounts × Store
  unfolding delete_where delete_by_contact Sync.delete_contact
  purge k cascade_merges store =
      let db = store.crm in
      let linked = accounts db (keep (λ l. by_crm l == k) db.links.rows) in
      let messages' =
        delete_where (of_contacts (map (λ a. a.social_contact_id) linked)) db.brain.messages in
      let insights' =
        delete_where (of_objects (map (λ a. a.platform_contact_id) linked)) store.insights in
      let (audit_deleted, audits') = delete_by_contact (text k) store.audits in
      let merges' =
        if cascade_merges then delete_where (λ m. m.survivor_id == k) db.merges else db.merges in
      let db' =
        Sync.delete_contact k
          (record db { brain = record (db.brain) { messages = messages' }; merges = merges' }) in
      (
        record {
          contacts = removed db.crm_contacts db'.crm_contacts;
          social_messages = removed db.brain.messages messages';
          auto_reply_audit = audit_deleted;
          platform_insights_raw = removed store.insights insights';
          merged_contacts = if cascade_merges then some (removed db.merges merges') else none;
        },
        record { crm = db'; audits = audits'; insights = insights' },
      )

  unfoldable pub delete_contact : ℕ → ℕ → Bool → Exec Store GdprDeleteError Receipt
  unfolding get_contact purge
  delete_contact now k cascade_merges store =
      if not (is_some (get_contact k store.crm))
      then (err (not_found k), store)
      else let merges = merge_count k store.crm in
        if not cascade_merges && ltb 0 merges
        then (err (has_merges k merges), store)
        else let (counts, store') = purge k cascade_merges store in
          (ok (record { deleted_at = now; contact_id = k; rows_deleted = counts }), store')
