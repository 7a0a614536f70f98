-- ===== src/Server/Ws/Sending/Stores.antt =====
-- A frame of `handle_send` in server/src/ws.rs that addresses those whom it should is stored.
use little_love.Prelude.{◌≡◌, ◌≢◌, ◌⊎◌, String, List, nat_Eq, string_Eq, map, Has}
use little_love.Server.Db.{Db}
use little_love.Server.Accounts.{AccountRecord}
use little_love.Server.Rooms.Queries.{Member}
use little_love.Server.World.{World, Env}
use little_love.Server.Ws.Sending.{Bodies, other_members}
use little_love.Server.Ws.Sending.Effect.{keys}

-- The frame has a body for the key of each other member, and for no other key but one's own.
pub record Addresses (env : Env) (me : AccountRecord) (members : List Member) (bodies : Bodies)
    : Type 0 where
  pub everybody :
      (m : Member)
      → Has m members
      → m.account_id ≢ me.id
      → Has (env.b64_encode m.x25519_pub) (keys bodies)
  pub nobody_else :
      (key : String)
      → Has key (keys bodies)
      → (key ≡ env.b64_encode me.x25519_pub)
        ⊎ ((m : Member) × Has m members
            × (m.account_id ≢ me.id)
            × (key ≡ env.b64_encode m.x25519_pub))

module _ (env : Env) (me : AccountRecord) (members : List Member) (bodies : Bodies)
    (a : Addresses env me members bodies) where
  abbrev key_of : Member → String
  key_of m = env.b64_encode m.x25519_pub

  abbrev own : String
  own = env.b64_encode me.x25519_pub

  abbrev others : List String
  others = map key_of (other_members me members)
