-- ===== src/Personality/Rulebook.antt =====
-- personality/rulebook-repository.ts: the one row of the rulebook, with its lists decoded.
use openzigs_social.Prelude.{
  ℕ, String, ◌||◌, Option, none, some, List, [], ◌∷◌, any, str_eq, if◌then◌else◌,
}
use openzigs_social.Personality.Profiler.{BrandVoiceRulebook, empty_rulebook, Text}

pub record RulebookRow : Type 0 where
  pub tone : String
  pub banned_words : List String
  pub exemplars : List String
  pub updated_at : ℕ

abbrev pub RulebookTable : Type 0
RulebookTable = Option RulebookRow

abbrev pub to_rulebook : RulebookRow → BrandVoiceRulebook
to_rulebook row = record {
  tone = row.tone;
  banned_words = row.banned_words;
  exemplars = row.exemplars;
}

unfoldable pub get : RulebookTable → BrandVoiceRulebook
get none = empty_rulebook
get (some row) = to_rulebook row

module _ (js : Text) where
  -- The loop of `dedupe`, with the set of the keys that were seen.
  unfoldable pub dedupe : List String → List String → List String
  dedupe seen [] = []
  dedupe seen (raw ∷ values) =
      let value = js.trim raw in
      let key = js.to_lower_case value in
      let skipped = dedupe seen values in
      let rest = dedupe (key ∷ seen) values in
      if str_eq value "" || any (λ s. str_eq s key) seen then skipped else value ∷ rest

  unfoldable pub normalize_rulebook : BrandVoiceRulebook → BrandVoiceRulebook
  unfolding dedupe
  normalize_rulebook input = record {
    tone = js.trim input.tone;
    banned_words = dedupe [] input.banned_words;
    exemplars = dedupe [] input.exemplars;
  }

  unfoldable pub save : ℕ → BrandVoiceRulebook → RulebookTable → BrandVoiceRulebook × RulebookTable
  unfolding normalize_rulebook
  save now input t =
      let r = normalize_rulebook input in
      (
        r,
        some (record {
          tone = r.tone;
          banned_words = r.banned_words;
          exemplars = r.exemplars;
          updated_at = now;
        }),
      )
