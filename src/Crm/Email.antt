-- ===== src/Crm/Email.antt =====
-- crm/email.ts: emails and audience sizes in what a platform tells of a contact.
use openzigs_social.Prelude.{
  ℕ, ◌/◌, String, Option, none, some, or_else, List, [], ◌∷◌, ◌++◌, any, str_eq, if◌then◌else◌,
}
use openzigs_social.SocialBrain.Types.{
  Json, null, bool, number, negative, text, array, object, Items, no_items, item, Fields, no_fields,
  field,
}

-- The functions of the JavaScript runtime: `trim().toLowerCase()`, `matchAll(EMAIL_RE)`, and
-- `Number.parseInt(value, 10)` where it gives a number that is not negative.
pub record Runtime : Type 0 where
  pub trim_lower : String → String
  pub match_emails : String → List String
  pub parse_int : String → Option ℕ

-- Object.values and arrays, in order.
abbrev mutual
  pub collect_strings : Json → List String
  collect_strings null = []
  collect_strings (bool b) = []
  collect_strings (number n) = []
  collect_strings (negative n) = []
  collect_strings (text s) = s ∷ []
  collect_strings (array items) = collect_items items
  collect_strings (object fs) = collect_fields fs

  pub collect_items : Items → List String
  collect_items no_items = []
  collect_items (item j items) = collect_strings j ++ collect_items items

  pub collect_fields : Fields → List String
  collect_fields no_fields = []
  collect_fields (field k j fs) = collect_strings j ++ collect_fields fs

abbrev pub get_field : String → Fields → Option Json
get_field k no_fields = none
get_field k (field j v fs) = if str_eq j k then some v else get_field k fs

module _ (js : Runtime) where
  unfoldable pub normalize_email : Option String → Option String
  normalize_email none = none
  normalize_email (some raw) =
      let trimmed = js.trim_lower raw in if str_eq trimmed "" then none else some trimmed

  -- The inner loop over the matches, with the emails so far, which are those seen too.
  unfoldable pub add_emails : List String → List String → List String
  unfolding normalize_email
  add_emails [] out = out
  add_emails (m ∷ ms) out = add_emails ms (elim (normalize_email (some m)) [
    | none ↦ out
    | some email ↦ if any (λ s. str_eq s email) out then out else out ++ email ∷ []
  ])

  unfoldable pub extract_from : List String → List String → List String
  unfolding add_emails
  extract_from [] out = out
  extract_from (t ∷ ts) out = extract_from ts (add_emails (js.match_emails t) out)

  abbrev pub extract_emails : List String → List String
  extract_emails texts = extract_from texts []

  abbrev head : List String → Option String
  head [] = none
  head (x ∷ xs) = some x

  abbrev pub strings_of : Option Fields → List String
  strings_of none = []
  strings_of (some fs) = collect_fields fs

  unfoldable pub discover_email : Option Fields → List String → Option String
  unfolding extract_from
  discover_email metadata bodies =
      or_else (head (extract_emails (strings_of metadata))) (head (extract_emails bodies))

  -- What one key gives: none goes on with the next.
  abbrev pub follower_value : Option Json → Option ℕ
  follower_value (some (number f)) = some (f.num / f.den)
  follower_value (some (text s)) = js.parse_int s
  follower_value _ = none

  abbrev pub first_value : List String → Fields → ℕ
  first_value [] fs = 0
  first_value (k ∷ ks) fs = elim (follower_value (get_field k fs)) [
    | some n ↦ n
    | none ↦ first_value ks fs
  ]

  unfoldable pub discover_follower_count : Option Fields → ℕ
  discover_follower_count none = 0
  discover_follower_count (some fs) =
      first_value ("followerCount" ∷ "followers" ∷ "follower_count" ∷ "followersCount" ∷ []) fs
