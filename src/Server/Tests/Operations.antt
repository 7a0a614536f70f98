-- ===== src/Server/Tests/Operations.antt =====
-- Examples for the error monitor, the configuration, the diagnostics and the pushes.
use little_love.Prelude.{
  ℕ, ◌≡◌, ◌≢◌, ◌↔◌, String, true, false, Option, none, some, List, [], ◌∷◌, ◌==◌, string_Eq, arith,
  if◌then◌else◌,
}
use little_love.Server.Scrub.{Event, text, object, done, entry}
use little_love.Server.World.{World, PushMessage, voip, drop_token}
use little_love.Server.Scenario.{world}
use little_love.Server.Config.{Outcomes}
use little_love.Server.Diag.{status_ok, not_found, error_test}
use little_love.Server.Diag.Tokens.{error_test_iff}
use little_love.Server.Push.{ApnsSender, Payload, response, failure, compose, send}
use little_love.Server.Push.Outcomes.{IsDead, send-drop_token}

-- Finds no pattern anywhere.
abbrev same_text : String → String → String → String
same_text pattern_ replacement s = s

-- What stands beside the texts is a number here.
abbrev event : Event ℕ ℕ ℕ ℕ
event = record {
  message = some "login failed";
  logentry = some (record { message = "failed for {}"; other = 1 });
  transaction = none;
  exception = record { value = some "already exists"; other = 2 } ∷ [];
  breadcrumbs =
      record {
        message = some "typing";
        entries = entry "username" (text "alice") (entry "room" (text "kitchen") done);
        other = 3;
      }
      ∷ [];
  extra = entry "nested" (object (entry "Token" (text "abc") done)) done;
  tags = ("user", "alice") ∷ [];
  server_name = some "host";
  other = 4;
}

abbrev vars : String → Option String
vars k =
    if k == "PORT"
    then some "8080"
    else if k == "TURN_KEY_ID"
    then some "k"
    else if k == "TURN_API_TOKEN"
    then some "t"
    else none

abbrev outcomes : Outcomes
outcomes = record { connects = λ url. true; presigner = λ cfg. true; sender = λ cfg. true }

abbrev running : World
running = record world { store = false; r2 = false; push = false; turn = true }

abbrev secret : List ℕ
secret = 115 ∷ 51 ∷ []

error_test_iff_example :
    (((expected : List ℕ) × (some secret ≡ some expected)
        × (some secret ≡ some expected)
        × (expected ≢ []))
      ↔ (error_test (some secret) (some secret) ≡ (status_ok, true)))
    × (error_test (some secret) (some secret) ≢ (status_ok, true)
        → error_test (some secret) (some secret) ≡ (not_found, false))
error_test_iff_example = error_test_iff (some secret) (some secret) (omega arith) (omega arith)

abbrev sender : ApnsSender
sender = record {
  sandbox = λ p. failure;
  production = λ p. response 410;
  topic = "app";
  voip_topic = "app.voip";
}

abbrev call : PushMessage
call = record {
  token = "t";
  environment = "production";
  room_id = "room";
  badge = 0;
  push_type = voip;
  call_id = some "c";
  video = true;
}

send-drop_token_example : (send (λ r. some r) (λ k v. true) sender call ≡ drop_token) ↔ (
    (payload : Payload) × (compose (λ r. some r) (λ k v. true) sender call ≡ some payload)
    × (payload.device_token ≡ call.token)
    × IsDead (
        if call.environment == "production"
        then sender.production payload
        else sender.sandbox payload))
send-drop_token_example = send-drop_token (λ r. some r) (λ k v. true) sender call
