-- ===== src/Server/Invites.antt =====
-- server/src/invites.rs: the invite rows and their states.
pub mod Revocation
use little_love.Prelude.{
  ℕ, ◌+◌, ◌*◌, String, Bool, true, false, not, ◌&&◌, Option, none, some, List, [], ◌∷◌, ◌++◌, map,
  ltb, ◌==◌, nat_Eq, string_Eq, list_Eq, any, find, retain, if◌then◌else◌,
}
use little_love.Server.Db.{Db, Invite, Result, ok, err, unique_violation, foreign_key_violation}
use little_love.Server.Accounts.{by_id}

-- One hour, in milliseconds.
abbrev pub invite_ttl : ℕ
invite_ttl = 60 * 60 * 1000

pub record InviteRow : Type 0 where
  pub token_hash : List ℕ
  pub inviter_id : ℕ
  pub expires_at : ℕ
  pub consumed_at : Option ℕ

pub data InviteState : Type 0 where
  pending expired consumed : InviteState

unfoldable pub state : InviteRow → ℕ → InviteState
state row now = elim row.consumed_at [
  | some t ↦ consumed
  | none ↦ if ltb row.expires_at now then expired else pending
]

abbrev pub is_unconsumed : Invite → Bool
is_unconsumed i = elim i.consumed_at [ none ↦ true | some t ↦ false ]

-- DELETE FROM invites WHERE inviter_id = $1 AND consumed_at IS NULL
unfoldable pub revoke : ℕ → List Invite → List Invite
revoke inviter_id = retain (λ i. not (i.inviter_id == inviter_id && is_unconsumed i))

abbrev pub has_hash : List ℕ → Invite → Bool
has_hash token_hash i = i.token_hash == token_hash

-- The foreign key of invites.room_id; NULL refers to nothing.
abbrev pub room_known : Option String → Db → Bool
room_known none db = true
room_known (some room_id) db = any (λ r. r.id == room_id) db.rooms

-- The transaction as one step. In the program its DELETE and INSERT run under READ COMMITTED and lock
-- nothing, so two creations for one inviter that overlap in time can both leave their rows.
unfoldable pub create_invite_record : ℕ → List ℕ → ℕ → Option String → Db → Result (Unit {0}) × Db
unfolding revoke
create_invite_record inviter_id token_hash expires_at room_id db =
    let kept = revoke inviter_id db.invites in
    if any (has_hash token_hash) kept
    then (err unique_violation, db)
    else if any (by_id inviter_id) db.accounts && room_known room_id db
    then (
      ok tt,
      record db {
        invites =
            kept
            ++ record {
              token_hash = token_hash;
              inviter_id = inviter_id;
              expires_at = expires_at;
              consumed_at = none;
              room_id = room_id;
            }
              ∷ [];
      },
    )
    else (err foreign_key_violation, db)

unfoldable pub room_for_invite : List ℕ → Db → Option String
room_for_invite token_hash db = elim (find (has_hash token_hash) db.invites) [
  | none ↦ none
  | some i ↦ i.room_id
]

abbrev pub row_of : Invite → InviteRow
row_of i = record {
  token_hash = i.token_hash;
  inviter_id = i.inviter_id;
  expires_at = i.expires_at;
  consumed_at = i.consumed_at;
}

unfoldable pub lookup_invite : List ℕ → Db → Option InviteRow
lookup_invite token_hash db = elim (find (has_hash token_hash) db.invites) [
  | none ↦ none
  | some i ↦ some (row_of i)
]

unfoldable pub mark_consumed : List ℕ → ℕ → Db → Db
mark_consumed token_hash when db = record db {
  invites =
      map
        (λ i.
          if has_hash token_hash i && is_unconsumed i
          then record i { consumed_at = some when }
          else i)
        db.invites;
}

unfoldable pub default_expiry : ℕ → ℕ
default_expiry now = now + invite_ttl
