-- ===== src/Server/Couples/Privacy.antt =====
-- Whom a subscription of server/src/ws.rs hears from.
use little_love.Prelude.{
  ℕ, ◌≡◌, ◌⊎◌, ◌∙◌, inl, inr, true, String, Option, some, List, [], nat_Eq, string_Eq, retain, All,
  All-retain_both, All-map, arith,
}
use little_love.Server.Db
use little_love.Server.Db.{StoredMessage, Db, Account, RoomMember, Result, ok, err, Result-cases}
use little_love.Server.Sql.{All-order_by}
use little_love.Server.Store.{messages_for_recipient, row_of, replayed}
use little_love.Server.Rooms.Links.{partner_account_id_for-link}
use little_love.Server.Rooms.Queries.{partner_account_id_for}
use little_love.Server.World.{World, Env}
use little_love.Server.Rest.{create_account}
use little_love.Server.Ws.Rooms.{handle_create_room}
use little_love.Server.Ws.Pairing.{handle_create_invite, handle_consume_invite}
use little_love.Server.System.{Event, reached}
use little_love.Server.Keeping.{Quiet}
use little_love.Server.Keeping.Pairing.{
  create_account-Keeps, handle_create_invite-Keeps, handle_consume_invite-Keeps,
  handle_create_room-Keeps,
}
use little_love.Server.Keeping.Events.{Handlers, Quiet-both, Keeps-both, run-Keeps}
use little_love.Server.Couples.{KeepsCouples, Linked}
use little_love.Server.Couples.Reachable.{couples_Handlers, empty-KeepsCouples}
use little_love.Server.Couples.Messages.{couples_Quiet}
use little_love.Server.Couples.Letters.{MayWrite, Private, letters_Quiet, letters_Pairs}
use little_love.Server.Couples.Writing.{Sound, handle_send-Sound}

Sound-Quiet : Quiet Sound
Sound-Quiet = Quiet-both couples_Quiet letters_Quiet

Sound-Handlers : Handlers Sound
Sound-Handlers = record {
  sign_up = λ env req.
      Keeps-both KeepsCouples Private (create_account env req) (couples_Handlers.sign_up env req)
        (create_account-Keeps letters_Pairs env req);
  create_invite = λ env me tx.
      Keeps-both KeepsCouples Private (handle_create_invite env me tx)
        (couples_Handlers.create_invite env me tx)
        (handle_create_invite-Keeps letters_Pairs env me tx);
  consume_invite = λ env me code signature tx.
      Keeps-both KeepsCouples Private (handle_consume_invite env me code signature tx)
        (couples_Handlers.consume_invite env me code signature tx)
        (handle_consume_invite-Keeps letters_Pairs env me code signature tx);
  create_room = λ env me requested wanted tx.
      Keeps-both KeepsCouples Private (handle_create_room env me requested wanted tx)
        (couples_Handlers.create_room env me requested wanted tx)
        (handle_create_room-Keeps letters_Pairs env me requested wanted tx);
  send = handle_send-Sound;
}

reached-Sound : (env : Env) (events : List Event) (w : World) → Sound (reached env events w)
reached-Sound env events w =
    run-Keeps Sound-Quiet Sound-Handlers env events
      (record { world = record w { db = Db.empty }; sessions = [] }) (empty-KeepsCouples, tt)

-- From oneself, or from the partner.
abbrev pub IsFromPartner : Db → ℕ → ℕ → Type 0
IsFromPartner db reader sender =
    (sender ≡ reader) ⊎ (partner_account_id_for reader db ≡ some sender)

from_partner :
    (db : Db) (env : Env) (room_id : String) (since : Option String)
    → Linked db.accounts db.next_account_id
    → (reader : ℕ) (m : StoredMessage)
    → MayWrite db.accounts m.from_account_id m.recipient_account_id
    → replayed env.text_lt room_id reader since m ≡ true
    → IsFromPartner db reader m.from_account_id
from_partner db env room_id since l reader m may e =
    let mine : m.recipient_account_id ≡ reader = ground (arith, e) in
    elim may [
      | inl own ↦ inl (own ∙ mine)
      | inr partner ↦ inr (
          ground (
            arith,
            mine,
            partner_account_id_for-link reader db,
            l.reciprocal m.from_account_id m.recipient_account_id partner,
          ))
    ]

-- From an empty database, whatever clients send, whenever they come and go and whichever database
-- calls fail: what a subscription replays comes from the subscriber or from the subscriber's partner.
pub replay_is_private :
    (env : Env) (events : List Event) (w : World) (room_id : String) (reader : ℕ)
    (since : Option String)
    → All
        (λ row. IsFromPartner (reached env events w) reader row.from_account_id)
        (messages_for_recipient env.text_lt room_id reader since (reached env events w))
unfolding messages_for_recipient
replay_is_private env events w room_id reader since =
    let db = reached env events w in
    let sound = reached-Sound env events w in
    All-map (λ row. IsFromPartner db reader row.from_account_id) (row_of db.messages) _
      (All-order_by _ (λ m. IsFromPartner db reader m.from_account_id)
        (retain (replayed env.text_lt room_id reader since) db.messages)
        (All-retain_both (λ m. MayWrite db.accounts m.from_account_id m.recipient_account_id)
          (λ m. IsFromPartner db reader m.from_account_id)
          (replayed env.text_lt room_id reader since) db.messages
          (λ m may e. from_partner db env room_id since sound.0.0 reader m may e) sound.1))
