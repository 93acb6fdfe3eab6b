-- ===== src/PostLimits/Tests.antt =====
-- A post on X.
use openzigs_social.Prelude.{true, none, some, [], ◌∷◌, ◌≡◌, ◌↔◌}
use openzigs_social.Effects.{ok}
use openzigs_social.PostLimits.{
  Text, PostMedia, post_limits_for, validate_post, IsAccepted, validate_post_iff,
}

-- A runtime for the text "hello".
abbrev js : Text
js = record { to_lower = λ s. s; has_text = λ s. true; length_of = λ s. 5 }

abbrev image : PostMedia
image = record { url = "u"; type = "image/png"; alt_text = none; bytes = some 4000 }

validate_post_iff_example :
    (validate_post js "twitter" "hello" (image ∷ []) ≡ ok none)
    ↔ IsAccepted js (post_limits_for js "twitter") "hello" (image ∷ [])
validate_post_iff_example = validate_post_iff js "twitter" "hello" (image ∷ [])
