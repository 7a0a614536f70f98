-- ===== src/Server/Scenario.antt =====
-- Two accounts that pair by an invite: the state that the examples start from.
use little_love.Prelude.{
  ℕ, zero, suc, String, true, false, none, some, List, [], ◌∷◌, ◌++◌, ◌==◌, string_Eq,
  if◌then◌else◌,
}
use little_love.Crypto.Wordlist.{codes}
use little_love.Server.Db
use little_love.Server.Db.{Db}
use little_love.Server.Accounts.{AccountRecord}
use little_love.Server.HashMap
use little_love.Server.Wire
use little_love.Server.Wire.{RoomClientFrame, no_servers}
use little_love.Server.World.{World, Env, delivered}
use little_love.Server.System.{Event, sign_up, connect, receive}

abbrev pub env : Env
env = record {
  text_lt = λ a b. false;
  b64_encode = λ b. "key";
  b64_decode = λ s. some (if s == "key" then zeros 32 else zeros 64);
  unicode = record { trim = λ s. s; to_lowercase = λ s. s };
  sha256 = λ b. b;
  ed25519 = record { valid_key = λ k. true; verify_strict = λ k m s. true };
  ulid = name;
  random = λ n. zeros 8;
  qr_png_base64 = λ c. none;
  presign_put = λ k. k;
  presign_get = λ k. k;
  push_outcome = λ n m. delivered;
  ice_servers = λ n. none;
}
  where
    zeros : ℕ → List ℕ
    zeros zero = []
    zeros (suc n) = 0 ∷ zeros n

    name : ℕ → String
    name zero = "room"
    name (suc n) = "blob"

abbrev pub world : World
world = record {
  db = Db.empty;
  store = true;
  r2 = true;
  push = true;
  turn = true;
  routing = HashMap.empty;
  pending_calls = HashMap.empty;
  open_rx = λ c. false;
  queued = [];
  tasks = [];
  pushes = [];
  now = 0;
  ulids = 0;
  invites_drawn = 0;
  turn_requests = 0;
  faults = [];
}

-- Ana opens a room for two, and Ben joins by its code.
abbrev pub pairing : List Event
pairing =
    sign_up (record { username = "ana"; ed25519_pub = "key"; x25519_pub = "key" })
    ∷ sign_up (record { username = "ben"; ed25519_pub = "key"; x25519_pub = "key" })
    ∷ connect 1 [] (some (record { username = "ana"; signature = "sig" }))
    ∷ connect 2 [] (some (record { username = "ben"; signature = "sig" }))
    ∷ receive 1 (Wire.RoomClientFrame.create_room (some "us") true)
    ∷ receive 2
        (Wire.RoomClientFrame.consume_invite (codes "abandon-abandon-abandon-abandon") "sig")
    ∷ []

abbrev key : List ℕ
key =
    0 ∷ 0 ∷ 0 ∷ 0 ∷ 0 ∷ 0 ∷ 0 ∷ 0 ∷ 0 ∷ 0 ∷ 0 ∷ 0 ∷ 0 ∷ 0 ∷ 0 ∷ 0 ∷ 0 ∷ 0 ∷ 0 ∷ 0 ∷ 0 ∷ 0 ∷ 0 ∷ 0
    ∷ 0 ∷ 0 ∷ 0 ∷ 0 ∷ 0 ∷ 0 ∷ 0 ∷ 0 ∷ []

-- A room with one member left, which holds a message that its other member has not read.
abbrev pub full_room : Db
full_room = record Db.empty {
  accounts =
      record {
        id = 1;
        username = "ana";
        ed25519_pub = key;
        x25519_pub = key;
        created_at = 0;
        partner_account_id = none;
        last_seen_at = none;
      }
      ∷ [];
  rooms = record { id = "room"; created_at = 0; name = "us" } ∷ [];
  room_members = record { room_id = "room"; account_id = 1; joined_at = 0 } ∷ [];
  messages =
      record {
        id = "m1";
        room_id = "room";
        from_account_id = 1;
        recipient_account_id = 2;
        body = "hi";
        ts = 5;
        read_at = none;
      }
      ∷ [];
}

abbrev pub ana : AccountRecord
ana = record {
  id = 1;
  username = "ana";
  ed25519_pub = key;
  x25519_pub = key;
  partner_account_id = none;
}

-- Then Ana writes to Ben, with a copy to herself.
abbrev pub writing : List Event
writing = pairing ++ receive 1 (Wire.RoomClientFrame.send "room" (("key", "hi") ∷ []) "c1") ∷ []
