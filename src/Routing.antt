-- ===== src/Routing.antt =====
-- copilot/smart-router.ts and copilot/privacy.ts. A provider is of any type; the length of a
-- message's content is its `content.length`.
use openzigs_social.Prelude.{
  ℕ, String, str_eq, is_some, ◌+◌, ◌/◌, ◌<◌, ◌≤◌, Bool, true, false, Option, none, some, get_or,
  List, [], ◌∷◌, ◌≡◌, refl, ◌⊎◌, inl, inr, arith, leb, if◌then◌else◌, Bool-cases, Option-cases,
}

pub data PrivacyMode : Type 0 where
  off session global : PrivacyMode

unfoldable pub forces_local : PrivacyMode → Bool
forces_local off = false
forces_local session = true
forces_local global = true

unfoldable pub privacy_mode_of : String → Option PrivacyMode
privacy_mode_of s =
    if str_eq s "off"
    then some off
    else if str_eq s "session"
    then some session
    else if str_eq s "global"
    then some global
    else none

-- `isPrivacyMode` of a text; of any other value it is false.
abbrev pub is_privacy_mode : String → Bool
is_privacy_mode s = is_some (privacy_mode_of s)

-- PrivacyController is its mode.
abbrev pub set_mode : PrivacyMode → PrivacyMode → PrivacyMode
set_mode mode current = mode

-- PrivacyController.assertCloudAllowed: `false` is the throw.
unfoldable pub assert_cloud_allowed : PrivacyMode → Bool
assert_cloud_allowed global = false
assert_cloud_allowed off = true
assert_cloud_allowed session = true

pub data RouteDecision : Type 0 where
  local cloud : RouteDecision

pub data RouteReason : Type 0 where
  privacy threshold no_cloud default_cloud : RouteReason

abbrev pub sum : List ℕ → ℕ
sum [] = 0
sum (n ∷ ns) = n + sum ns

-- Math.ceil(chars / 4)
unfoldable pub estimate_tokens : List ℕ → ℕ
estimate_tokens lengths = (sum lengths + 3) / 4

module _ (Provider : Type 0) where
  pub record SmartRouter : Type 0 where
    pub local_provider : Provider
    pub cloud_provider : Option Provider
    pub controller : Option PrivacyMode
    pub cloud_threshold_tokens : ℕ
    pub fallback_mode : PrivacyMode

  pub record RouteResult : Type 0 where
    pub provider : Provider
    pub decision : RouteDecision
    pub estimated_tokens : ℕ
    pub reason : RouteReason

abbrev pub default_cloud_threshold_tokens : ℕ
default_cloud_threshold_tokens = 4096

module _ {Provider : Type 0} where
  -- new SmartRouter
  unfoldable pub new_router :
      Provider
      → Option Provider
      → Option PrivacyMode
      → Option ℕ
      → Option PrivacyMode
      → SmartRouter Provider
  new_router local_provider cloud_provider controller cloud_threshold_tokens privacy_mode = record {
    local_provider = local_provider;
    cloud_provider = cloud_provider;
    controller = controller;
    cloud_threshold_tokens = get_or cloud_threshold_tokens default_cloud_threshold_tokens;
    fallback_mode = get_or privacy_mode off;
  }

  abbrev pub mode_of : SmartRouter Provider → PrivacyMode
  mode_of router = get_or router.controller router.fallback_mode

  abbrev to_local : SmartRouter Provider → ℕ → RouteReason → RouteResult Provider
  to_local router tokens reason = record {
    provider = router.local_provider;
    decision = local;
    estimated_tokens = tokens;
    reason = reason;
  }

  abbrev to_cloud : SmartRouter Provider → ℕ → Provider → RouteResult Provider
  to_cloud router tokens p =
      if leb tokens router.cloud_threshold_tokens
      then to_local router tokens threshold
      else record {
        provider = p;
        decision = cloud;
        estimated_tokens = tokens;
        reason = default_cloud;
      }

  unfoldable pub route : SmartRouter Provider → List ℕ → RouteResult Provider
  route router lengths =
      let tokens = estimate_tokens lengths in
      if forces_local (mode_of router)
      then to_local router tokens privacy
      else elim router.cloud_provider [
        | none ↦ to_local router tokens no_cloud
        | some p ↦ to_cloud router tokens p
      ]

  -- A route is to the cloud just with a mode that does not force local, to the cloud provider
  -- that is there, and with an estimate above the threshold; otherwise it is to the local
  -- provider, and the mode forces local, there is no cloud provider or the estimate is within
  -- the threshold.
  route_lem :
      (router : SmartRouter Provider) (lengths : List ℕ)
      → (((route router lengths).decision ≡ cloud)
          × (forces_local (mode_of router) ≡ false)
          × (router.cloud_provider ≡ some (route router lengths).provider)
          × (router.cloud_threshold_tokens < estimate_tokens lengths))
        ⊎ (((route router lengths).decision ≡ local)
            × ((route router lengths).provider ≡ router.local_provider)
            × ((forces_local (mode_of router) ≡ true)
                ⊎ (router.cloud_provider ≡ none)
                ⊎ (estimate_tokens lengths ≤ router.cloud_threshold_tokens)))
  unfolding route
  route_lem router lengths = elim (Bool-cases (forces_local (mode_of router))) [
    | inl private ↦ inr (rw private (refl, refl, inl refl))
    | inr free ↦ elim (Option-cases router.cloud_provider) [
      | inl none' ↦ inr (rw (free, none') (refl, refl, inr (inl refl)))
      | inr (p, here) ↦
          elim (Bool-cases (leb (estimate_tokens lengths) router.cloud_threshold_tokens)) [
            | inl small ↦
                inr (rw (free, here) (rw small (refl, refl, inr (inr (ground (arith, small))))))
            | inr large ↦ inl (rw (free, here) (rw large (refl, refl, refl, ground (arith, large))))
          ]
    ]
  ]
