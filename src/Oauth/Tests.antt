-- ===== src/Oauth/Tests.antt =====
-- A consent is finished, and then its callback is replayed.
use openzigs_social.Prelude.{
  ℕ, ◌≤◌, ◌<◌, ◌+◌, String, none, some, List, [], ◌∷◌, Memᴰ, ◌≡◌, refl, get_or,
}
use openzigs_social.Prelude.Maps.{get, set, remove}
use openzigs_social.Oauth.Store.{
  default_state_ttl_ms, StateRecord, new_store, issue, validate, consume, prune_records, prune,
  Call, issue_call, consume_call, prune_call, step, run, times_redeemed, times_issued, redeems,
  returned,
}
use openzigs_social.Oauth.Replay.{times_redeemed-run}
use openzigs_social.Oauth.Issued.{consume-IsIssued}

abbrev replayed : List (Call ℕ)
replayed =
    issue_call 100 "x" "s1" (some 7)
    ∷ issue_call 120 "meta" "s2" none
    ∷ consume_call 200 "x" "s1"
    ∷ consume_call 210 "x" "s1"
    ∷ prune_call 300
    ∷ []

redeemed_once : times_redeemed "s1" replayed (new_store (some 1000)) ≡ 1
unfolding times_redeemed redeems returned step issue consume validate get set remove prune
    prune_records
redeemed_once = refl

times_redeemed-run_example :
    times_redeemed "s1" replayed (new_store (some 1000)) ≤ times_issued "s1" replayed
times_redeemed-run_example = times_redeemed-run "s1" (some 1000) replayed

abbrev second : StateRecord ℕ
second = record {
  platform = "meta";
  state = "s2";
  metadata = none;
  issued_at = 120;
  expires_at = 1120;
}

redeemed : (consume 900 "meta" "s2" (run replayed (new_store (some 1000)))).0 ≡ some second
unfolding run step issue consume validate get set remove prune prune_records
redeemed = refl

consume-IsIssued_example :
    let s = run replayed (new_store (some 1000)) in
    Memᴰ (issue_call 120 "meta" "s2" none) replayed
    × (900 < 120 + get_or (some 1000) default_state_ttl_ms)
    × ((t : ℕ) (p : String) → (consume t p "s2" (consume 900 "meta" "s2" s).1).0 ≡ none)
consume-IsIssued_example = consume-IsIssued (some 1000) replayed 900 "meta" "s2" second redeemed
