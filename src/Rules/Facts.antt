-- ===== src/Rules/Facts.antt =====
-- inbox/rules/engine.ts: the facts of a message, its contact and its thread. The other columns of
-- the three rows are not read.
use openzigs_social.Prelude.{
  leb, ◌∙◌, eq_iff, str_eq, ℕ, String, Bool, false, Option, none, some, get_or, List, [], ◌∷◌, ◌≡◌,
  refl, inl, inr, Option-cases,
}
use mathlib.Core.Option
use openzigs_social.Prelude.Maps.{get, set, get-set}
use openzigs_social.Rules.Types.{Scalar, string, number, boolean, Facts, scalar, gte}
use openzigs_social.Rules.Engine.{
  Runtime, as_number, evaluate_comparison, compare_by, compare_numbers,
}

pub data Json : Type 0 where
  scalar_json : Scalar → Json
  object_json : Json

abbrev pub Metadata : Type 0
Metadata = Option (List (String × Json))

pub record SocialMessage : Type 0 where
  pub platform : String
  pub direction : String
  pub body : String
  pub metadata : Metadata

pub record SocialContact : Type 0 where
  pub handle : Option String
  pub display_name : Option String
  pub metadata : Metadata

pub record SocialThread : Type 0 where
  pub platform : String
  pub subject : Option String

unfoldable pub read_meta : Metadata → String → Option Json
read_meta none key = none
read_meta (some m) key = get key m

abbrev string_json : Option Json → Option String
string_json (some (scalar_json (string s))) = some s
string_json _ = none

unfoldable pub read_meta_string : Metadata → String → Option String
read_meta_string m key = string_json (read_meta m key)

abbrev boolean_json : Option Json → Option Bool
boolean_json (some (scalar_json (boolean b))) = some b
boolean_json _ = none

abbrev number_json : Runtime → Option Json → Option ℕ
number_json js (some (scalar_json s)) = as_number js s
number_json js _ = none

unfoldable pub read_meta_number : Runtime → Metadata → String → Option ℕ
read_meta_number js m key = number_json js (read_meta m key)

-- `facts[key] = value`, where an undefined value leaves no fact.
unfoldable pub put_fact : String → Option Scalar → Facts → Facts
put_fact key none facts = facts
put_fact key (some v) facts = set key v facts

unfoldable pub message_facts : SocialMessage → Facts
message_facts m =
    let kind = get_or (read_meta_string m.metadata "kind") "dm" in
    ("platform", string m.platform)
    ∷ ("direction", string m.direction)
    ∷ ("kind", string kind)
    ∷ ("message.body", string m.body)
    ∷ ("message.platform", string m.platform)
    ∷ ("message.kind", string kind)
    ∷ ("message.direction", string m.direction)
    ∷ []

unfoldable pub contact_facts : Runtime → Option SocialContact → Facts → Facts
contact_facts js none facts = facts
contact_facts js (some c) facts =
    put_fact "author.verified" (Option.map boolean (boolean_json (read_meta c.metadata "verified")))
      (put_fact "author.followerCount"
        (Option.map number (read_meta_number js c.metadata "followerCount"))
        (put_fact "author.displayName" (Option.map string c.display_name)
          (put_fact "author.handle" (Option.map string c.handle) facts)))

unfoldable pub thread_facts : Option SocialThread → Facts → Facts
thread_facts none facts = facts
thread_facts (some t) facts =
    put_fact "thread.subject" (Option.map string t.subject)
      (put_fact "thread.platform" (some (string t.platform)) facts)

unfoldable pub build_facts :
    Runtime → SocialMessage → Option SocialContact → Option SocialThread → Facts
build_facts js message contact thread =
    thread_facts thread (contact_facts js contact (message_facts message))

get-put_other :
    (k j : String) (v : Option Scalar) (facts : Facts)
    → str_eq k j ≡ false
    → get j (put_fact k v facts) ≡ get j facts
unfolding put_fact
get-put_other k j none facts h = refl
get-put_other k j (some v) facts h = get-set k j v facts ∙ rw h refl

get-put_same :
    (k : String) (v : Option Scalar) (facts : Facts)
    → get k facts ≡ none
    → get k (put_fact k v facts) ≡ v
unfolding put_fact
get-put_same k none facts h = h
get-put_same k (some v) facts h = get-set k k v facts ∙ rw ((eq_iff k k).1 refl) refl

get-thread_facts :
    (j : String) (thread : Option SocialThread) (facts : Facts)
    → str_eq "thread.subject" j ≡ false
    → str_eq "thread.platform" j ≡ false
    → get j (thread_facts thread facts) ≡ get j facts
unfolding thread_facts
get-thread_facts j none facts a b = refl
get-thread_facts j (some t) facts a b =
    get-put_other "thread.subject" j (Option.map string t.subject) _ a
    ∙ get-put_other "thread.platform" j (some (string t.platform)) facts b

-- The count of followers that a message's facts hold.
abbrev pub followers : Runtime → Option SocialContact → Option ℕ
followers js none = none
followers js (some c) = read_meta_number js c.metadata "followerCount"

get-followers :
    (js : Runtime) (message : SocialMessage) (contact : Option SocialContact)
    (thread : Option SocialThread)
    → get "author.followerCount" (build_facts js message contact thread)
      ≡ Option.map number (followers js contact)
unfolding build_facts contact_facts message_facts get
get-followers js message none thread =
    get-thread_facts "author.followerCount" thread (message_facts message) refl refl
get-followers js message (some c) thread =
    get-thread_facts "author.followerCount" thread
      (contact_facts js (some c) (message_facts message)) refl refl
    ∙ get-put_other "author.verified" "author.followerCount" _ _ refl
    ∙ get-put_same "author.followerCount" (Option.map number (followers js (some c))) _ (
        get-put_other "author.displayName" "author.followerCount" _ _ refl
        ∙ get-put_other "author.handle" "author.followerCount" _ _ refl)

abbrev pub at_least : ℕ → Option ℕ → Bool
at_least n none = false
at_least n (some m) = leb n m

-- On the facts built from a message, its contact and its thread, the comparison of
-- `author.followerCount` with a number by `gte` holds just if the contact is there, its metadata
-- gives a count, and the count is at least the number.
evaluate_comparison-followers :
    (js : Runtime) (message : SocialMessage) (contact : Option SocialContact)
    (thread : Option SocialThread) (n : ℕ)
    → evaluate_comparison js
        (record { field = "author.followerCount"; op = gte; value = some (scalar (number n)) })
        (build_facts js message contact thread)
      ≡ at_least n (followers js contact)
unfolding evaluate_comparison compare_by compare_numbers as_number
evaluate_comparison-followers js message contact thread n =
    rw (get-followers js message contact thread) (elim (Option-cases (followers js contact)) [
      | inl none' ↦ rw none' refl
      | inr (m, here) ↦ rw here refl
    ])
