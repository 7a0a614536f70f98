-- ===== src/Server/Tests/Sending.antt =====
-- Examples for `handle_send`: Ana writes to Ben, with a copy to herself.
use little_love.Prelude.{◌==◌, none, some, List, [], ◌∷◌, nat_Eq, list_Eq, if◌then◌else◌}
use little_love.Server.Db
use little_love.Server.Db.{Db, Account, Room}
use little_love.Server.Accounts.{AccountRecord}
use little_love.Server.World.{World, Env}
use little_love.Server.Rooms.Queries.{Member, members_for_room}
use little_love.Server.Scenario as Scenario
use little_love.Server.Ws.Sending.{Bodies}

abbrev env : Env
env = record Scenario.env { b64_encode = λ bytes. if bytes == 1 ∷ [] then "ana's" else "ben's" }

abbrev ana : Account
ana = record {
  id = 1;
  username = "ana";
  ed25519_pub = [];
  x25519_pub = 1 ∷ [];
  created_at = 0;
  partner_account_id = some 2;
  last_seen_at = none;
}

abbrev ben : Account
ben = record ana { id = 2; username = "ben"; x25519_pub = 2 ∷ []; partner_account_id = some 1 }

abbrev me : AccountRecord
me = record {
  id = 1;
  username = "ana";
  ed25519_pub = [];
  x25519_pub = 1 ∷ [];
  partner_account_id = some 2;
}

abbrev room : Room
room = record { id = "room"; created_at = 0; name = "us" }

abbrev w : World
w = record Scenario.world {
  db = record Db.empty {
    accounts = ana ∷ ben ∷ [];
    rooms = room ∷ [];
    room_members =
        record { room_id = "room"; account_id = 1; joined_at = 0 }
        ∷ record { room_id = "room"; account_id = 2; joined_at = 1 }
        ∷ [];
  };
  ulids = 1;
}

abbrev bodies : Bodies
bodies = ("ben's", "hi") ∷ ("ana's", "hi") ∷ []

abbrev members : List Member
members = members_for_room "room" w.db
