-- ===== src/Dispatcher/Tests.antt =====
-- A message on a thread that a human owns.
use openzigs_social.Prelude.{ℕ, String, false, none, [], ◌∷◌, ◌≡◌, refl}
use openzigs_social.Effects.{ok}
use openzigs_social.Handoff.Manager.{new_manager, is_human_owned}
use openzigs_social.Dispatcher.{
  InboundDm, inbox_message, inbox_skipped, DmWorld, DmRule, dispatch, run_rules, human_owned_guard,
}

abbrev message : InboundDm
message = record {
  platform = "instagram";
  thread_id = "t1";
  message_id = "m1";
  text = "hi";
  contact_id = none;
  sender = none;
  received_at = 5;
}

abbrev world : DmWorld ℕ String
world = record { handoff = record new_manager { human_owned = "t1" ∷ [] }; emitted = []; rest = 0 }

-- A rule that counts in the rest of the world.
abbrev counts : DmRule ℕ String
counts m w = (ok false, record w { rest = 1 })

skipped : dispatch (human_owned_guard ∷ counts ∷ []) message world ≡ (
  ok (record { completed = false; rules_run = 1 }),
  record world { emitted = inbox_message message ∷ inbox_skipped "t1" ∷ [] },
)
unfolding dispatch run_rules human_owned_guard is_human_owned
skipped = refl
