-- ===== src/Server/Couples.antt =====
-- What the tables of server/migrations say about couples: the links of `accounts.partner_account_id`,
-- who shares a room, and whom an invite lets in.
pub mod Tables
pub mod Accounts
pub mod Seats
pub mod Leaving
pub mod Invites
pub mod Messages
pub mod Pairing
pub mod Consuming
pub mod Joining
pub mod Letters
pub mod Writing
pub mod Privacy
pub mod Reachable
use little_love.Prelude.{
  ℕ, String, Bool, true, false, ◌&&◌, ◌≡◌, ◌≢◌, List, some, none, ◌≤◌, any, ◌==◌, nat_Eq, string_Eq,
}
use little_love.Server.Db.{Db, Account, Invite, Room, RoomMember}
use little_love.Server.Rooms.Links.{link, DistinctIds}
use little_love.Server.Rooms.Mutations.{in_some_room}
use little_love.Server.World.{Act}
use little_love.Server.World.Triples.{Keeps}

abbrev pub seated : String → ℕ → List RoomMember → Bool
seated room_id account_id = any (λ m. m.room_id == room_id && m.account_id == account_id)

abbrev pub invites_to : ℕ → String → List Invite → Bool
invites_to inviter room_id = any (λ i. i.inviter_id == inviter && in_some_room room_id i.room_id)

abbrev pub room_exists : String → List Room → Bool
room_exists room_id = any (λ r. r.id == room_id)

-- Ids are distinct and below the next one; partners point at each other.
pub record Linked (accounts : List Account) (next : ℕ) : Type 0 where
  pub distinct : DistinctIds accounts
  pub fresh : (id : ℕ) → next ≤ id → link id accounts ≡ none
  pub reciprocal :
      (a b : ℕ) → link a accounts ≡ some (some b) → (link b accounts ≡ some (some a)) × (a ≢ b)

-- Two members of one room are partners; whoever sits in a room that an invite is for is the inviter
-- or the inviter's partner; and rooms that are referred to exist.
pub record Shared (accounts : List Account) (rooms : List Room) (members : List RoomMember)
    (invites : List Invite) : Type 0 where
  pub couples :
      (r : String) (a b : ℕ)
      → seated r a members ≡ true
      → seated r b members ≡ true
      → a ≢ b
      → link a accounts ≡ some (some b)
  pub invited :
      (r : String) (i a : ℕ)
      → invites_to i r invites ≡ true
      → seated r a members ≡ true
      → a ≢ i
      → link a accounts ≡ some (some i)
  pub one_inviter :
      (r : String) (i j : ℕ) → invites_to i r invites ≡ true → invites_to j r invites ≡ true → i ≡ j
  pub member_room : (r : String) (a : ℕ) → seated r a members ≡ true → room_exists r rooms ≡ true
  pub invite_room :
      (r : String) (i : ℕ) → invites_to i r invites ≡ true → room_exists r rooms ≡ true

abbrev pub KeepsCouples : Db → Type 0
KeepsCouples db =
    Linked db.accounts db.next_account_id × Shared db.accounts db.rooms db.room_members db.invites

abbrev pub Safe : {A : Type 0} → Act A → Type 0
Safe = Keeps KeepsCouples

-- An account may take a seat when it is a partner of whoever sits there or invites there.
pub record MayJoin (accounts : List Account) (members : List RoomMember) (invites : List Invite)
    (r : String) (a : ℕ) : Type 0 where
  pub with_members : (m : ℕ) → seated r m members ≡ true → m ≢ a → link m accounts ≡ some (some a)
  pub with_inviter :
      (i : ℕ) → invites_to i r invites ≡ true → a ≢ i → link a accounts ≡ some (some i)
