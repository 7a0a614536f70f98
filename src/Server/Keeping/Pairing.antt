-- ===== src/Server/Keeping/Pairing.antt =====
-- The handlers that pair accounts, seat members and sign accounts up: server/src/ws.rs and
-- server/src/accounts.rs.
use little_love.Prelude.{ℕ, String, Bool, Option, none, some, List}
use little_love.Crypto.Invite
use little_love.Server.Db.{
  Db, Result, ok, err, io, unique_violation, foreign_key_violation, check_violation,
}
use little_love.Server.Accounts.{AccountRecord, insert_account}
use little_love.Server.Invites.{
  InviteRow, InviteState, pending, expired, consumed, create_invite_record, mark_consumed,
}
use little_love.Server.Wire.{PendingInvite}
use little_love.Server.Rooms.Pairing.{
  PairResult, paired, pair_error, db_error, monogamy, set_partner_link,
}
use little_love.Server.Rooms.Mutations.{
  CreateResult, created, create_error, create_room_with_members, insert_member,
}
use little_love.Server.World.{Env, update, execute, commit, returning}
use little_love.Server.World.Triples.{
  Keeps, Keeps-update, Keeps-commit, Keeps-execute, Keeps-returning, Keeps-pure,
}
use little_love.Server.Ws.Guards.Keeping.{guard_rules}
use little_love.Server.Ws.Pairing.{
  handle_create_invite, decoded, or_not_found, need_pending, or_bad_signature, need_paired,
  or_not_created, resolve_room, need_detail, pending_invite, consumable, welcome, join_room,
  handle_consume_invite,
}
use little_love.Server.Ws.Rooms.{
  auto_partner, stored_invite, room_invite, announce_room, handle_create_room,
}
use little_love.Server.Rest.{CreateAccountRequest, create_account}
use little_love.Server.Keeping.{Pairs}

module _ {P : Db → Type 0} where
  decoded-Keeps : (r : Invite.Result (List ℕ)) (tx : ℕ) → Keeps P (decoded r tx)
  unfolding decoded
  decoded-Keeps (Invite.ok t) tx = search guard_rules
  decoded-Keeps (Invite.err e) tx = search guard_rules

  or_not_found-Keeps : {A : Type 0} (o : Option A) (tx : ℕ) → Keeps P (or_not_found o tx)
  unfolding or_not_found
  or_not_found-Keeps (some a) tx = Keeps-pure a
  or_not_found-Keeps none tx = search guard_rules

  need_pending-Keeps : (s : InviteState) (tx : ℕ) → Keeps P (need_pending s tx)
  unfolding need_pending
  need_pending-Keeps pending tx = search guard_rules
  need_pending-Keeps expired tx = search guard_rules
  need_pending-Keeps consumed tx = search guard_rules

  or_bad_signature-Keeps : (o : Option (List ℕ)) (tx : ℕ) → Keeps P (or_bad_signature o tx)
  unfolding or_bad_signature
  or_bad_signature-Keeps (some b) tx = Keeps-pure b
  or_bad_signature-Keeps none tx = search guard_rules

  need_paired-Keeps : (r : Result PairResult) (tx : ℕ) → Keeps P (need_paired r tx)
  unfolding need_paired
  need_paired-Keeps (ok paired) tx = search guard_rules
  need_paired-Keeps (ok (pair_error (monogamy e))) tx = search guard_rules
  need_paired-Keeps (ok (pair_error (db_error unique_violation))) tx = search guard_rules
  need_paired-Keeps (ok (pair_error (db_error io))) tx = search guard_rules
  need_paired-Keeps (ok (pair_error (db_error foreign_key_violation))) tx = search guard_rules
  need_paired-Keeps (ok (pair_error (db_error check_violation))) tx = search guard_rules
  need_paired-Keeps (err e) tx = search guard_rules

  or_not_created-Keeps :
      (r : Result CreateResult) (room_id : String) (tx : ℕ) → Keeps P (or_not_created r room_id tx)
  unfolding or_not_created
  or_not_created-Keeps (ok created) room_id tx = Keeps-pure room_id
  or_not_created-Keeps (ok (create_error e)) room_id tx = search guard_rules
  or_not_created-Keeps (err e) room_id tx = search guard_rules

  need_detail-Keeps : (room_id : String) (tx : ℕ) → Keeps P (need_detail room_id tx)
  unfolding need_detail
  need_detail-Keeps room_id tx = search guard_rules depth 20

  pending_invite-Keeps : (env : Env) (code : List ℕ) (tx : ℕ) → Keeps P (pending_invite env code tx)
  unfolding pending_invite
  pending_invite-Keeps env code tx =
      search (guard_rules, decoded-Keeps, or_not_found-Keeps, need_pending-Keeps) depth 20

  consumable-Keeps :
      (env : Env) (me : AccountRecord) (invite : InviteRow) (canonical : List ℕ)
      (signature : String) (tx : ℕ)
      → Keeps P (consumable env me invite canonical signature tx)
  unfolding consumable
  consumable-Keeps env me invite canonical signature tx =
      search (guard_rules, or_bad_signature-Keeps, or_not_found-Keeps) depth 20

  auto_partner-Keeps :
      (me : AccountRecord) (wanted : Bool) (tx : ℕ) → Keeps P (auto_partner me wanted tx)
  unfolding auto_partner
  auto_partner-Keeps me wanted tx = search guard_rules depth 20

  stored_invite-Keeps :
      (env : Env) (code : List ℕ) (expires tx : ℕ) (stored : Result (Unit {0}))
      → Keeps P (stored_invite env code expires tx stored)
  unfolding stored_invite
  stored_invite-Keeps env code expires tx stored = search guard_rules depth 20

  announce_room-Keeps :
      (env : Env) (room_id : String) (tx : ℕ) (invite : Option PendingInvite)
      → Keeps P (announce_room env room_id tx invite)
  unfolding announce_room
  announce_room-Keeps env room_id tx invite = search (guard_rules, need_detail-Keeps) depth 20

module _ {P : Db → Type 0} (p : Pairs P) where
  invite-Keeps :
      (inviter : ℕ) (hash : List ℕ) (expires : ℕ) (room : Option String)
      → Keeps P (execute (create_invite_record inviter hash expires room))
  invite-Keeps inviter hash expires room =
      Keeps-execute (create_invite_record inviter hash expires room)
        (p.invites inviter hash expires room)

  consume-Keeps : (hash : List ℕ) (now : ℕ) → Keeps P (update (mark_consumed hash now))
  consume-Keeps hash now = Keeps-update (mark_consumed hash now) (p.consumes hash now)

  link-Keeps : (a b : ℕ) → Keeps P (returning (set_partner_link a b))
  link-Keeps a b = Keeps-returning (set_partner_link a b) (p.links a b)

  create-Keeps :
      (room_id : String) (host : ℕ) (partner : Option ℕ) (name : String) (now : ℕ)
      → Keeps P (returning (create_room_with_members room_id host partner name now))
  create-Keeps room_id host partner name now =
      Keeps-returning (create_room_with_members room_id host partner name now)
        (p.creates room_id host partner name now)

  seat-Keeps : (room_id : String) (id now : ℕ) → Keeps P (commit (insert_member room_id id now))
  seat-Keeps room_id id now = Keeps-commit (insert_member room_id id now) (p.seats room_id id now)

  sign_up-Keeps :
      (username : String) (ed x : List ℕ) (now : ℕ)
      → Keeps P (execute (insert_account username ed x now))
  sign_up-Keeps username ed x now =
      Keeps-execute (insert_account username ed x now) (p.signs_up username ed x now)

  pub handle_create_invite-Keeps :
      (env : Env) (me : AccountRecord) (tx : ℕ) → Keeps P (handle_create_invite env me tx)
  unfolding handle_create_invite
  handle_create_invite-Keeps env me tx = search (guard_rules, invite-Keeps) depth 20

  room_invite-Keeps :
      (env : Env) (me : AccountRecord) (room_id : String) (wanted : Bool) (tx : ℕ)
      → Keeps P (room_invite env me room_id wanted tx)
  unfolding room_invite
  room_invite-Keeps env me room_id wanted tx =
      search (guard_rules, invite-Keeps, stored_invite-Keeps) depth 20

  pub handle_create_room-Keeps :
      (env : Env) (me : AccountRecord) (requested : Option String) (wanted : Bool) (tx : ℕ)
      → Keeps P (handle_create_room env me requested wanted tx)
  unfolding handle_create_room
  handle_create_room-Keeps env me requested wanted tx =
      search
        (
          guard_rules, auto_partner-Keeps, create-Keeps, or_not_created-Keeps, room_invite-Keeps,
          announce_room-Keeps,
        )
        depth 24

  resolve_room-Keeps :
      (env : Env) (room : Option String) (inviter tx : ℕ)
      → Keeps P (resolve_room env room inviter tx)
  unfolding resolve_room
  resolve_room-Keeps env (some room_id) inviter tx = Keeps-pure room_id
  resolve_room-Keeps env none inviter tx =
      search (guard_rules, create-Keeps, or_not_created-Keeps) depth 20

  welcome-Keeps :
      (env : Env) (me : AccountRecord) (hash : List ℕ) (room : String) (now tx : ℕ)
      (joined : Result (Unit {0}))
      → Keeps P (welcome env me hash room now tx joined)
  unfolding welcome
  welcome-Keeps env me hash room now tx joined =
      search (guard_rules, consume-Keeps, need_detail-Keeps) depth 20

  join_room-Keeps :
      (env : Env) (me : AccountRecord) (inviter : ℕ) (hash : List ℕ) (tx : ℕ)
      → Keeps P (join_room env me inviter hash tx)
  unfolding join_room
  join_room-Keeps env me inviter hash tx =
      search (guard_rules, resolve_room-Keeps, seat-Keeps, welcome-Keeps) depth 20

  pub handle_consume_invite-Keeps :
      (env : Env) (me : AccountRecord) (code : List ℕ) (signature : String) (tx : ℕ)
      → Keeps P (handle_consume_invite env me code signature tx)
  unfolding handle_consume_invite
  handle_consume_invite-Keeps env me code signature tx =
      search
        (
          guard_rules, pending_invite-Keeps, consumable-Keeps, link-Keeps, need_paired-Keeps,
          join_room-Keeps,
        )
        depth 24

  pub create_account-Keeps :
      (env : Env) (req : CreateAccountRequest) → Keeps P (create_account env req)
  unfolding create_account
  create_account-Keeps env req = search (guard_rules, sign_up-Keeps) depth 20
