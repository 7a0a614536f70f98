-- ===== src/Server/Rooms/Queries.antt =====
-- The queries of server/src/rooms.rs.
use little_love.Prelude.{
  ℕ, String, Bool, ◌&&◌, Option, none, some, List, [], ◌∷◌, map, ltb, ◌==◌, nat_Eq, string_Eq, any,
  find, retain, if◌then◌else◌,
}
use little_love.Server.Db.{Db, Account, Room, RoomMember}
use little_love.Server.Accounts.{by_id}
use little_love.Server.Sql.{order_by}
use little_love.Server.Wire

pub record Member : Type 0 where
  pub account_id : ℕ
  pub username : String
  pub ed25519_pub : List ℕ
  pub x25519_pub : List ℕ

pub record RoomDetail : Type 0 where
  pub room_id : String
  pub name : String
  pub members : List Member
  pub created_at : ℕ

-- JOIN accounts a ON a.id = m.account_id
unfoldable pub join_accounts : List Account → List RoomMember → List Account
join_accounts accounts [] = []
join_accounts accounts (m ∷ ms) = elim (find (by_id m.account_id) accounts) [
  | none ↦ join_accounts accounts ms
  | some a ↦ a ∷ join_accounts accounts ms
]

abbrev pub member_of : Account → Member
member_of a = record {
  account_id = a.id;
  username = a.username;
  ed25519_pub = a.ed25519_pub;
  x25519_pub = a.x25519_pub;
}

-- `Member::into_wire`; the argument is base64.
unfoldable pub into_wire : (List ℕ → String) → Member → Wire.Member
into_wire encode m = record {
  account_id = m.account_id;
  username = m.username;
  ed25519_pub = encode m.ed25519_pub;
  x25519_pub = encode m.x25519_pub;
}

abbrev pub in_room : String → RoomMember → Bool
in_room room_id m = m.room_id == room_id

unfoldable pub members_for_room : String → Db → List Member
unfolding join_accounts order_by
members_for_room room_id db = map member_of (
    join_accounts db.accounts
      (order_by (λ m n. ltb m.joined_at n.joined_at) (retain (in_room room_id) db.room_members)))

abbrev pub detail_of : Db → Room → RoomDetail
detail_of db r = record {
  room_id = r.id;
  name = r.name;
  members = members_for_room r.id db;
  created_at = r.created_at;
}

-- `RoomDetail::into_wire`
unfoldable pub detail_into_wire : (List ℕ → String) → RoomDetail → Wire.RoomDetail
unfolding into_wire
detail_into_wire encode d = record {
  room_id = d.room_id;
  name = d.name;
  members = map (into_wire encode) d.members;
  created_at = d.created_at;
}

unfoldable pub room_detail : String → Db → Option RoomDetail
room_detail room_id db = elim (find (λ r. r.id == room_id) db.rooms) [
  | none ↦ none
  | some r ↦ some (detail_of db r)
]

unfoldable pub partner_account_id_for : ℕ → Db → Option ℕ
partner_account_id_for account_id db = elim (find (by_id account_id) db.accounts) [
  | none ↦ none
  | some a ↦ a.partner_account_id
]

-- accounts a JOIN accounts p ON a.partner_account_id = p.id WHERE a.id = $1
unfoldable pub partner_username_for : ℕ → Db → Option String
unfolding partner_account_id_for
partner_username_for account_id db = elim (partner_account_id_for account_id db) [
  | none ↦ none
  | some p ↦ elim (find (by_id p) db.accounts) [ none ↦ none | some a ↦ some a.username ]
]

unfoldable pub account_id_by_username : String → Db → Option ℕ
account_id_by_username username db = elim (find (λ a. a.username == username) db.accounts) [
  | none ↦ none
  | some a ↦ some a.id
]

unfoldable pub is_member : String → ℕ → Db → Bool
is_member room_id account_id db =
    any (λ m. m.room_id == room_id && m.account_id == account_id) db.room_members

unfoldable pub member_usernames : String → Db → List String
unfolding join_accounts
member_usernames room_id db =
    map (λ a. a.username) (join_accounts db.accounts (retain (in_room room_id) db.room_members))

-- A room and the account's membership joined, for ORDER BY r.created_at ASC.
rooms_joined : ℕ → List RoomMember → List Room → List Room
rooms_joined account_id members [] = []
rooms_joined account_id members (r ∷ rs) =
    let rest = rooms_joined account_id members rs in
    if any (λ m. m.room_id == r.id && m.account_id == account_id) members then r ∷ rest else rest

-- The loop that fetches each room's detail.
details : List Room → Db → List RoomDetail
unfolding room_detail
details [] db = []
details (r ∷ rs) db = elim (room_detail r.id db) [
  | none ↦ details rs db
  | some d ↦ d ∷ details rs db
]

unfoldable pub list_rooms_for_account : ℕ → Db → List RoomDetail
unfolding rooms_joined order_by details
list_rooms_for_account account_id db =
    details
      (order_by (λ r s. ltb r.created_at s.created_at)
        (rooms_joined account_id db.room_members db.rooms))
      db
