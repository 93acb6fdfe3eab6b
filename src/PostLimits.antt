-- ===== src/PostLimits.antt =====
-- outbox/post-limits.ts: the limits of a feed post. `toLowerCase`, `trim().length > 0` and
-- `length`, which counts UTF-16 units, are parameters.
mod Tests
use openzigs_social.Prelude.{
  ℕ, ◌≤◌, String, Bool, true, false, ◌&&◌, not, Option, none, some, get_or, List, [], ◌∷◌, ◌++◌,
  any, all, All, Memᴰ, ◌≡◌, ◌↔◌, refl, ap, ◌⊎◌, inl, inr, arith, ltb, leb, ◌==◌, str_eq,
  if◌then◌else◌, length, Bool-cases, Option-cases,
}
use openzigs_social.Prelude.Maps.{get}
use openzigs_social.Effects.{Result, ok, err}

pub record PlatformPostLimits : Type 0 where
  pub label : String
  pub char_limit : ℕ
  pub max_media : ℕ
  pub media_types : List String
  pub max_media_bytes : ℕ
  pub alt_text_supported : Bool

abbrev pub image_types : List String
image_types = "image/jpeg" ∷ "image/png" ∷ "image/gif" ∷ "image/webp" ∷ []

abbrev pub video_types : List String
video_types = "video/mp4" ∷ "video/quicktime" ∷ []

abbrev pub all_types : List String
all_types = image_types ++ video_types

abbrev five_mb : ℕ
five_mb = 5242880

abbrev twenty_mb : ℕ
twenty_mb = 20971520

abbrev limits : String → ℕ → ℕ → List String → ℕ → Bool → PlatformPostLimits
limits label char_limit max_media media_types max_media_bytes alt_text_supported = record {
  label = label;
  char_limit = char_limit;
  max_media = max_media;
  media_types = media_types;
  max_media_bytes = max_media_bytes;
  alt_text_supported = alt_text_supported;
}

abbrev pub post_limits : List (String × PlatformPostLimits)
post_limits =
    ("instagram", limits "Instagram" 2200 10 all_types twenty_mb true)
    ∷ ("facebook", limits "Facebook" 63206 10 all_types twenty_mb true)
    ∷ ("threads", limits "Threads" 500 10 all_types twenty_mb true)
    ∷ ("linkedin", limits "LinkedIn" 3000 9 image_types twenty_mb true)
    ∷ ("pinterest", limits "Pinterest" 500 1 image_types twenty_mb true)
    ∷ ("tiktok", limits "TikTok" 2200 1 video_types twenty_mb false)
    ∷ ("twitter", limits "X (Twitter)" 280 4 all_types five_mb true)
    ∷ []

abbrev pub default_post_limits : PlatformPostLimits
default_post_limits = limits "Unknown" 280 0 [] 0 false

pub record PostMedia : Type 0 where
  pub url : String
  pub type : String
  pub alt_text : Option String
  pub bytes : Option ℕ

-- The reasons, in place of their texts.
pub data Reason : Type 0 where
  post_is_empty : Reason
  too_many_characters : (limit : ℕ) (label : String) → Reason
  too_many_attachments : (label : String) (limit : ℕ) → Reason
  type_not_accepted : (label type : String) → Reason
  media_too_large : (limit : ℕ) (label : String) → Reason

pub record Text : Type 0 where
  pub to_lower : String → String
  pub has_text : String → Bool
  pub length_of : String → ℕ

-- What an index into the object POST_LIMITS finds: an entry of its own, or a member that it inherits
-- from Object.prototype, of which every field of the limits is undefined.
pub data FoundLimits : Type 0 where
  entry : PlatformPostLimits → FoundLimits
  inherited : FoundLimits

abbrev pub object_prototype : List String
object_prototype =
    "constructor" ∷ "__proto__" ∷ "hasOwnProperty" ∷ "isPrototypeOf" ∷ "propertyIsEnumerable"
    ∷ "toLocaleString" ∷ "toString" ∷ "valueOf" ∷ "__defineGetter__" ∷ "__defineSetter__"
    ∷ "__lookupGetter__" ∷ "__lookupSetter__" ∷ []

unfoldable pub post_limits_for : Text → String → FoundLimits
unfolding get
post_limits_for js platform =
    let key = js.to_lower platform in
    elim (get key post_limits) [
      | some l ↦ entry l
      | none ↦
          if any (λ s. str_eq s key) object_prototype then inherited else entry default_post_limits
    ]

abbrev pub accepts : PlatformPostLimits → PostMedia → Bool
accepts l item = any (λ t. str_eq t item.type) l.media_types

abbrev pub is_large : ℕ → Option ℕ → Bool
is_large max none = false
is_large max (some b) = ltb max b

-- The loop over the media; `none` is `{ ok: true }`.
unfoldable pub validate_media : PlatformPostLimits → List PostMedia → Option Reason
validate_media l [] = none
validate_media l (item ∷ media) =
    let rest = validate_media l media in
    if not (accepts l item)
    then some (type_not_accepted l.label item.type)
    else if is_large l.max_media_bytes item.bytes
    then some (media_too_large l.max_media_bytes l.label)
    else rest

unfoldable pub validate_with : Text → PlatformPostLimits → String → List PostMedia → Option Reason
unfolding validate_media
validate_with js l body media =
    if not (js.has_text body) && (length media == 0)
    then some post_is_empty
    else if ltb l.char_limit (js.length_of body)
    then some (too_many_characters l.char_limit l.label)
    else if ltb l.max_media (length media)
    then some (too_many_attachments l.label l.max_media)
    else validate_media l media

-- `limits.mediaTypes.includes` on limits that have no such field.
pub data TypeError : Type 0 where
  media_types_undefined : TypeError

-- No comparison with `undefined` holds.
abbrev pub validate_inherited : Text → String → List PostMedia → Result TypeError (Option Reason)
validate_inherited js body [] = ok (if not (js.has_text body) then some post_is_empty else none)
validate_inherited js body (item ∷ media) = err media_types_undefined

abbrev pub validate_found :
    Text → FoundLimits → String → List PostMedia → Result TypeError (Option Reason)
validate_found js (entry l) body media = ok (validate_with js l body media)
validate_found js inherited body media = validate_inherited js body media

unfoldable pub validate_post :
    Text → String → String → List PostMedia → Result TypeError (Option Reason)
unfolding post_limits_for validate_with
validate_post js platform body media = validate_found js (post_limits_for js platform) body media

-- A post that keeps to the limits.
pub record IsWithin (js : Text) (l : PlatformPostLimits) (body : String) (media : List PostMedia)
    : Type 0 where
  pub some_content : (js.has_text body ≡ true) ⊎ (1 ≤ length media)
  pub characters : js.length_of body ≤ l.char_limit
  pub attachments : length media ≤ l.max_media
  pub each :
      (item : PostMedia)
      → Memᴰ item media
      → (accepts l item ≡ true) × ((b : ℕ) → item.bytes ≡ some b → b ≤ l.max_media_bytes)

not_large : (max : ℕ) (o : Option ℕ) → is_large max o ≡ false → (b : ℕ) → o ≡ some b → b ≤ max
not_large max o small b e = ground (arith, rw e at small)

is_large-bounded :
    (max : ℕ) (o : Option ℕ) → ((b : ℕ) → o ≡ some b → b ≤ max) → is_large max o ≡ false
is_large-bounded max none h = refl
is_large-bounded max (some b) h = ground (arith, h b refl)

validate_media-each :
    (l : PlatformPostLimits) (media : List PostMedia) (item : PostMedia)
    → validate_media l media ≡ none
    → Memᴰ item media
    → (accepts l item ≡ true) × ((b : ℕ) → item.bytes ≡ some b → b ≤ l.max_media_bytes)
unfolding validate_media
validate_media-each l [] item h m = elim m [ ]
validate_media-each l (x ∷ media) item h m = elim (Bool-cases (accepts l x)) [
  | inr refused ↦ cc (rw refused at h)
  | inl accepted ↦ elim (Bool-cases (is_large l.max_media_bytes x.bytes)) [
    | inl large ↦ cc (rw (accepted, large) at h)
    | inr small ↦ elim m [
      | Memᴰ.head e ↦ rw e (accepted, not_large l.max_media_bytes x.bytes small)
      | Memᴰ.tail m' ↦ validate_media-each l media item (rw (accepted, small) at h) m'
    ]
  ]
]

validate_media_of_each :
    (l : PlatformPostLimits) (media : List PostMedia)
    → ((item : PostMedia)
        → Memᴰ item media
        → (accepts l item ≡ true) × ((b : ℕ) → item.bytes ≡ some b → b ≤ l.max_media_bytes))
    → validate_media l media ≡ none
unfolding validate_media
validate_media_of_each l [] h = refl
validate_media_of_each l (x ∷ media) h =
    let (accepted, small) = h x (Memᴰ.head refl) in
    rw (accepted, is_large-bounded l.max_media_bytes x.bytes small)
      (validate_media_of_each l media (λ item m. h item (Memᴰ.tail m)))

module _ (js : Text) (l : PlatformPostLimits) (body : String) (media : List PostMedia) where
  IsWithin-of_valid : validate_with js l body media ≡ none → IsWithin js l body media
  unfolding validate_with
  IsWithin-of_valid h = elim (Bool-cases (not (js.has_text body) && (length media == 0))) [
    | inl empty ↦ cc (rw empty at h)
    | inr content ↦ elim (Bool-cases (ltb l.char_limit (js.length_of body))) [
      | inl long ↦ cc (rw (content, long) at h)
      | inr short ↦ elim (Bool-cases (ltb l.max_media (length media))) [
        | inl many ↦ cc (rw (content, short, many) at h)
        | inr few ↦ record {
          some_content = elim (Bool-cases (js.has_text body)) [
            | inl said ↦ inl said
            | inr blank ↦ inr (ground (arith, rw blank at content))
          ];
          characters = ground (arith, short);
          attachments = ground (arith, few);
          each = λ item m. validate_media-each l media item (rw (content, short, few) at h) m;
        }
      ]
    ]
  ]

  valid-of_within : IsWithin js l body media → validate_with js l body media ≡ none
  unfolding validate_with
  valid-of_within w =
      let content : (not (js.has_text body) && (length media == 0)) ≡ false = elim w.some_content [
        | inl said ↦ rw said refl
        | inr some' ↦ ground (arith, some')
      ] in
      let short : ltb l.char_limit (js.length_of body) ≡ false = ground (arith, w.characters) in
      let few : ltb l.max_media (length media) ≡ false = ground (arith, w.attachments) in
      rw (content, short, few) (validate_media_of_each l media w.each)

-- A post that is accepted: within the limits of the platform or, where the limits are inherited, with
-- any text and no media.
abbrev pub IsAccepted : Text → FoundLimits → String → List PostMedia → Type 0
IsAccepted js (entry l) body media = IsWithin js l body media
IsAccepted js inherited body media = (js.has_text body ≡ true) × (media ≡ [])

ok-inj : (o p : Option Reason) → ◌≡◌ {A = Result TypeError (Option Reason)} (ok o) (ok p) → o ≡ p
ok-inj o p h = ap value_of h
  where
    value_of : Result TypeError (Option Reason) → Option Reason
    value_of (ok x) = x
    value_of (err e) = o

validate_inherited_iff :
    (js : Text) (body : String) (media : List PostMedia)
    → (validate_inherited js body media ≡ ok none) ↔ IsAccepted js inherited body media
validate_inherited_iff js body [] = elim (Bool-cases (js.has_text body)) [
  | inl said ↦ rw said (λ h. (refl, refl), λ h. refl)
  | inr blank ↦ rw blank (λ h. cc (ok-inj _ _ h), λ h. cc (h.0))
]
validate_inherited_iff js body (item ∷ media) = (λ h. cc h, λ h. cc (h.1))

validate_found_iff :
    (js : Text) (found : FoundLimits) (body : String) (media : List PostMedia)
    → (validate_found js found body media ≡ ok none) ↔ IsAccepted js found body media
validate_found_iff js (entry l) body media = (
  λ h. IsWithin-of_valid js l body media (ok-inj _ _ h),
  λ h. ap ok (valid-of_within js l body media h),
)
validate_found_iff js inherited body media = validate_inherited_iff js body media

-- A post is valid just if it has text or media, its length, its number of attachments and the
-- size of each are within the limits of its platform, and the type of each attachment is
-- accepted; on a platform whose name is that of a member which POST_LIMITS inherits, it is valid
-- just if it has text and no media.
pub validate_post_iff :
    (js : Text) (platform body : String) (media : List PostMedia)
    → (validate_post js platform body media ≡ ok none)
      ↔ IsAccepted js (post_limits_for js platform) body media
unfolding validate_post
validate_post_iff js platform body media =
    validate_found_iff js (post_limits_for js platform) body media
