-- ===== src/AutoReply/Audit.antt =====
-- routing/audit-repository.ts: the methods of AutoReplyAuditRepository. Each takes the reading of
-- `this.now()` that it makes.
use openzigs_social.Prelude.{
  ℕ, ◌+◌, ◌-◌, String, Bool, true, false, ◌&&◌, ◌||◌, not, Option, none, some, get_or, or_else, min,
  List, [], map, leb, ltb, ◌==◌, str_eq, if◌then◌else◌, keep, take, includes, length,
}
use openzigs_social.Effects.{Exec, or_throw, modify, ◌>>=◌, ◌>>◌}
use openzigs_social.Sql.{Table, insert, update_where, delete_where, find}
use openzigs_social.Sql.Newest.{sort_newest}
use openzigs_social.Retry.Backoff.{Fraction}
use openzigs_social.AutoReply.Decision.{RoutingAction}

pub data AuditOutcome : Type 0 where
  pending sent rejected : AuditOutcome

abbrev pub is_pending : AuditOutcome → Bool
is_pending pending = true
is_pending _ = false

pub record AuditRow : Type 0 where
  pub id : ℕ
  pub thread_id : String
  pub contact_id : Option String
  pub platform : String
  pub prompt : String
  pub draft_text : String
  pub final_text : Option String
  pub confidence : Fraction
  pub voice_match : Fraction
  pub tone_match : Fraction
  pub banned_hits : List String
  pub decision : RoutingAction
  pub model : Option String
  pub human_override : Bool
  pub outcome : AuditOutcome
  pub created_at : ℕ
  pub updated_at : ℕ

-- `toAudit` keeps each field, with NULL for one that is left out.
abbrev pub AutoReplyAudit : Type 0
AutoReplyAudit = AuditRow

pub record AuditRecordInput : Type 0 where
  pub thread_id : String
  pub contact_id : Option String
  pub platform : Option String
  pub prompt : String
  pub draft_text : String
  pub confidence : Fraction
  pub voice_match : Fraction
  pub tone_match : Fraction
  pub banned_hits : Option (List String)
  pub decision : RoutingAction
  pub model : Option String
  pub outcome : Option AuditOutcome
  pub final_text : Option String

pub record AuditFinalizeInput : Type 0 where
  pub outcome : AuditOutcome
  pub final_text : Option String
  pub human_override : Option Bool

pub record AuditPruneInput : Type 0 where
  pub older_than : Option ℕ
  pub max_rows : Option ℕ

pub record AuditFilter : Type 0 where
  pub thread_id : Option String
  pub since : Option ℕ
  pub until : Option ℕ
  pub limit : Option ℕ

abbrev pub AuditTable : Type 0
AuditTable = Table AuditRow

-- AuditNotFoundError
pub data AuditError : Type 0 where
  not_found : ℕ → AuditError

abbrev pub Method : Type 0 → Type 0
Method A = Exec AuditTable AuditError A

abbrev pub row_id : AuditRow → ℕ
row_id r = r.id

unfoldable pub get : ℕ → AuditTable → Option AutoReplyAudit
get k t = find row_id k t.rows

unfoldable pub get_or_throw : ℕ → Method AutoReplyAudit
unfolding get
get_or_throw k t = or_throw (not_found k) (get k t) t

-- INSERT INTO auto_reply_audit
abbrev pub new_row : ℕ → AuditRecordInput → ℕ → AuditRow
new_row now input k = record {
  id = k;
  thread_id = input.thread_id;
  contact_id = input.contact_id;
  platform = get_or input.platform "";
  prompt = input.prompt;
  draft_text = input.draft_text;
  final_text = input.final_text;
  confidence = input.confidence;
  voice_match = input.voice_match;
  tone_match = input.tone_match;
  banned_hits = get_or input.banned_hits [];
  decision = input.decision;
  model = input.model;
  human_override = false;
  outcome = get_or input.outcome pending;
  created_at = now;
  updated_at = now;
}

unfoldable pub add : ℕ → AuditRecordInput → Method AutoReplyAudit
unfolding get_or_throw insert
add now input t = let t' = insert (new_row now input) t in get_or_throw t'.seq t'

abbrev pub finalized_row : ℕ → AuditFinalizeInput → AutoReplyAudit → AuditRow → AuditRow
finalized_row now input existing r = record r {
  outcome = input.outcome;
  final_text = or_else input.final_text existing.final_text;
  human_override = get_or input.human_override false || existing.human_override;
  updated_at = now;
}

unfoldable pub finalize : ℕ → ℕ → AuditFinalizeInput → Method AutoReplyAudit
unfolding get_or_throw update_where
finalize now k input = do
  existing ← get_or_throw k
  modify (update_where (λ r. r.id == k) (finalized_row now input existing))
  get_or_throw k

unfoldable pub normalize_limit : Option ℕ → ℕ
normalize_limit none = 100
normalize_limit (some n) = if n == 0 then 100 else min n 500

abbrev pub holds {ℓ} : {A : Type ℓ} → (A → Bool) → Option A → Bool
holds test none = true
holds test (some a) = test a

abbrev pub matches : AuditFilter → AuditRow → Bool
matches filter r =
    holds (λ t. str_eq r.thread_id t) filter.thread_id
    && (holds (λ since. leb since r.created_at) filter.since
        && holds (λ until. leb r.created_at until) filter.until)

-- ORDER BY created_at DESC, id DESC
unfoldable pub newest_first : List AuditRow → List AuditRow
unfolding sort_newest
newest_first rows = sort_newest (λ r. r.created_at) rows

unfoldable pub list : AuditFilter → AuditTable → List AutoReplyAudit
unfolding newest_first normalize_limit
list filter t = take (normalize_limit filter.limit) (newest_first (keep (matches filter) t.rows))

abbrev pub changes : AuditTable → AuditTable → ℕ
changes t t' = length t.rows - length t'.rows

abbrev pub is_contact : String → Option String → Bool
is_contact c none = false
is_contact c (some d) = str_eq d c

-- Each DELETE with the number of rows that it deleted.
unfoldable pub delete_by_contact : String → AuditTable → ℕ × AuditTable
unfolding delete_where
delete_by_contact c t =
    let t' = delete_where (λ r. is_contact c r.contact_id) t in (changes t t', t')

unfoldable pub prune_older : Option ℕ → AuditTable → AuditTable
unfolding delete_where
prune_older none t = t
prune_older (some cutoff) t = delete_where (λ r. ltb r.created_at cutoff) t

unfoldable pub newest_ids : ℕ → AuditTable → List ℕ
unfolding newest_first
newest_ids cap' t = map row_id (take cap' (newest_first t.rows))

unfoldable pub prune_cap : Option ℕ → AuditTable → AuditTable
unfolding delete_where newest_ids
prune_cap none t = t
prune_cap (some cap') t =
    let kept = newest_ids cap' t in delete_where (λ r. not (includes r.id kept)) t

unfoldable pub prune : AuditPruneInput → AuditTable → ℕ × AuditTable
unfolding prune_older prune_cap
prune input t =
    let t1 = prune_older input.older_than t in
    let t2 = prune_cap input.max_rows t1 in (changes t t1 + changes t1 t2, t2)
