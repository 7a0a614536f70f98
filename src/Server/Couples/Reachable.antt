-- ===== src/Server/Couples/Reachable.antt =====
-- Couples over the events of the server.
use little_love.Prelude.{ℕ, ◌≡◌, ◌≢◌, refl, true, String, some, List, [], nat_Eq, arith}
use little_love.Server.Db
use little_love.Server.Db.{Db, Result, ok, err}
use little_love.Server.Accounts.{insert_account}
use little_love.Server.Rooms.Links.{IsMonogamous, partner_account_id_for-link}
use little_love.Server.Rooms.Queries.{is_member, partner_account_id_for}
use little_love.Server.World.{World, Env, execute}
use little_love.Server.World.Triples.{Keeps-execute}
use little_love.Server.Ws.Guards.Keeping.{guard_rules}
use little_love.Server.Rest.{CreateAccountRequest, create_account}
use little_love.Server.System.{reached, Event}
use little_love.Server.Couples.{KeepsCouples}
use little_love.Server.Keeping.Events.{Handlers, run-Keeps}
use little_love.Server.Keeping.Sending.{handle_send-Keeps}
use little_love.Server.Couples.{KeepsCouples, Safe}
use little_love.Server.Couples.Accounts.{insert_account-KeepsCouples, Linked-IsMonogamous}
use little_love.Server.Couples.Messages.{couples_Mail, couples_Quiet}
use little_love.Server.Couples.Pairing.{handle_create_room-Safe, handle_create_invite-Safe}
use little_love.Server.Couples.Joining.{handle_consume_invite-Safe}

insert_account-Safe :
    (username : String) (ed x : List ℕ) (now : ℕ)
    → Safe (execute (insert_account username ed x now))
insert_account-Safe username ed x now =
    Keeps-execute (insert_account username ed x now) (insert_account-KeepsCouples username ed x now)

create_account-Safe : (env : Env) (req : CreateAccountRequest) → Safe (create_account env req)
unfolding create_account
create_account-Safe env req = search (guard_rules, insert_account-Safe) depth 20

pub couples_Handlers : Handlers KeepsCouples
couples_Handlers = record {
  sign_up = create_account-Safe;
  create_invite = handle_create_invite-Safe;
  consume_invite = handle_consume_invite-Safe;
  create_room = handle_create_room-Safe;
  send = handle_send-Keeps couples_Mail;
}

pub empty-KeepsCouples : KeepsCouples Db.empty
empty-KeepsCouples = (
  record { distinct = tt; fresh = λ id h. refl; reciprocal = λ a b h. absurd (cc h) },
  record {
    couples = λ r a b h. absurd (cc h);
    invited = λ r i a h. absurd (cc h);
    one_inviter = λ r i j h. absurd (cc h);
    member_room = λ r a h. absurd (cc h);
    invite_room = λ r i h. absurd (cc h);
  },
)

-- From an empty database, whatever clients send, whenever they come and go and whichever database
-- calls fail: partners always point at each other and nobody is their own partner.
pub reached-IsMonogamous :
    (env : Env) (events : List Event) (w : World) → IsMonogamous (reached env events w)
reached-IsMonogamous env events w = Linked-IsMonogamous (reached env events w) (
    (run-Keeps couples_Quiet couples_Handlers env events
      (record { world = record w { db = Db.empty }; sessions = [] }) empty-KeepsCouples).0)

-- From an empty database, whatever clients send and whichever database calls fail: two different
-- members of one room are each other's partner.
pub room_members_are_partners :
    (env : Env) (events : List Event) (w : World) (room_id : String) (a b : ℕ)
    → is_member room_id a (reached env events w) ≡ true
    → is_member room_id b (reached env events w) ≡ true
    → a ≢ b
    → partner_account_id_for a (reached env events w) ≡ some b
unfolding is_member
room_members_are_partners env events w room_id a b ha hb ne =
    let k =
      run-Keeps couples_Quiet couples_Handlers env events
        (record { world = record w { db = Db.empty }; sessions = [] }) empty-KeepsCouples in
    ground (
      arith,
      k.1.couples room_id a b ha hb ne,
      partner_account_id_for-link a (reached env events w),
    )
