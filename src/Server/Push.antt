-- ===== src/Server/Push.antt =====
-- server/src/push.rs: the notification that APNs is sent, and what its answer means for the token. The
-- HTTP clients are parameters, and so are `CollapseId::new` and `add_custom_data`, of the crate a2.
pub mod Outcomes
use little_love.Prelude.{
  ℕ, String, Bool, true, false, not, ◌&&◌, ◌||◌, Option, none, some, List, [], ◌∷◌, ◌++◌, ◌==◌,
  nat_Eq, string_Eq, if◌then◌else◌,
}
use little_love.Server.Scrub.{Value, text, bool}
use little_love.Server.World.{
  PushKind, alert, voip, PushMessage, SendOutcome, delivered, drop_token, transient,
}

abbrev push_title : String
push_title = "Little Love"

abbrev push_body : String
push_body = "💜 Your partner sent you a message"

-- `a2::PushType`
pub data PushType : Type 0 where
  type_alert type_voip : PushType

unfoldable pub apns_push_type : PushKind → PushType
apns_push_type alert = type_alert
apns_push_type voip = type_voip

-- What a2 builds: the visible part, the options, and the custom data in the order it was added.
pub record Banner : Type 0 where
  pub title : String
  pub body : String
  pub sound : String
  pub badge : ℕ
  pub mutable_content : Bool

pub record Payload : Type 0 where
  pub device_token : String
  pub banner : Option Banner
  pub apns_topic : String
  pub apns_push_type : PushType
  pub apns_collapse_id : Option String
  pub custom : List (String × Value)

-- An accepted notification, an error that APNs gives a reason for, or any other failure.
pub data Reply : Type 0 where
  response : ℕ → Reply
  response_error : ℕ → Option String → Reply
  failure : Reply

pub record ApnsSender : Type 0 where
  pub sandbox : Payload → Reply
  pub production : Payload → Reply
  pub topic : String
  pub voip_topic : String

abbrev pub is_dead_reason : Option String → Bool
is_dead_reason none = false
is_dead_reason (some r) = r == "BadDeviceToken" || r == "DeviceTokenNotForTopic"

unfoldable pub classify : ℕ → Option String → SendOutcome
classify code reason =
    if code == 200
    then delivered
    else if code == 410
    then drop_token
    else if code == 400 && is_dead_reason reason
    then drop_token
    else transient

unfoldable pub outcome : Reply → SendOutcome
unfolding classify
outcome (response code) = classify code none
outcome (response_error code reason) = classify code reason
outcome failure = transient

unfoldable pub topic_for : ApnsSender → PushKind → String
topic_for sender alert = sender.topic
topic_for sender voip = sender.voip_topic

unfoldable pub client_for : ApnsSender → String → Payload → Reply
client_for sender environment =
    if environment == "production" then sender.production else sender.sandbox

module _ (collapse_id : String → Option String) (accepts : String → Value → Bool)
    (sender : ApnsSender) where
  -- `add_custom_data`
  abbrev pub add_custom_data : String → Value → Payload → Option Payload
  add_custom_data k v p =
      if accepts k v then some (record p { custom = p.custom ++ (k, v) ∷ [] }) else none

  abbrev pub add_all : List (String × Value) → Payload → Option Payload
  add_all [] p = some p
  add_all ((k, v) ∷ more) p = elim (add_custom_data k v p) [ none ↦ none | some q ↦ add_all more q ]

  unfoldable pub build : PushMessage → Payload
  unfolding topic_for apns_push_type
  build msg = elim msg.push_type [
    | alert ↦ record {
      device_token = msg.token;
      banner = some (record {
        title = push_title;
        body = push_body;
        sound = "default";
        badge = msg.badge;
        mutable_content = true;
      });
      apns_topic = topic_for sender alert;
      apns_push_type = apns_push_type alert;
      apns_collapse_id = collapse_id msg.room_id;
      custom = [];
    }
    | voip ↦ record {
      device_token = msg.token;
      banner = none;
      apns_topic = topic_for sender voip;
      apns_push_type = apns_push_type voip;
      apns_collapse_id = none;
      custom = [];
    }
  ]

  abbrev pub custom_data : PushMessage → List (String × Value)
  custom_data msg = ("room_id", text msg.room_id) ∷ (elim msg.call_id [
    | none ↦ []
    | some call_id ↦ ("call_id", text call_id) ∷ ("video", bool msg.video) ∷ []
  ])

  -- The payload with its custom data, unless a2 refuses some of it.
  unfoldable pub compose : PushMessage → Option Payload
  unfolding build
  compose msg = add_all (custom_data msg) (build msg)

  unfoldable pub send : PushMessage → SendOutcome
  unfolding compose client_for outcome
  send msg = elim (compose msg) [
    | none ↦ transient
    | some payload ↦ outcome (client_for sender msg.environment payload)
  ]
