-- ===== src/Server/Invites/Revocation.antt =====
-- What `create_invite_record` of server/src/invites.rs does to the invites.
use little_love.Prelude.{
  ℕ, ◌≡◌, ◌≢◌, refl, Bool, not, ◌&&◌, String, Option, none, List, [], ◌∷◌, retain, arith,
  retain-append, ◌==◌, nat_Eq, list_Eq,
}
use mathlib.Core.List.{append-nil}
use little_love.Server.Db.{Db, Invite, ok}
use little_love.Server.Invites.{is_unconsumed, revoke, create_invite_record}

abbrev pub open_invite_of : ℕ → Invite → Bool
open_invite_of inviter i = i.inviter_id == inviter && is_unconsumed i

abbrev pub of_others : ℕ → Invite → Bool
of_others inviter i = not (i.inviter_id == inviter)

revoked :
    (inviter : ℕ) (rows : List Invite) → retain (open_invite_of inviter) (revoke inviter rows) ≡ []
unfolding revoke
revoked inviter [] = refl
revoked inviter (i ∷ rows) = ground (arith, revoked inviter rows)

others_kept :
    (inviter : ℕ) (rows : List Invite)
    → retain (of_others inviter) (revoke inviter rows) ≡ retain (of_others inviter) rows
unfolding revoke
others_kept inviter [] = refl
others_kept inviter (i ∷ rows) = ground (arith, others_kept inviter rows)

abbrev pub row : ℕ → List ℕ → ℕ → Option String → Invite
row inviter token_hash expires_at room_id = record {
  token_hash = token_hash;
  inviter_id = inviter;
  expires_at = expires_at;
  consumed_at = none;
  room_id = room_id;
}

-- After a success the new row is the inviter's only unconsumed invite and everybody else's invites are
-- as they were; after an error no table has changed.
pub create_invite_record_effect :
    (inviter : ℕ) (token_hash : List ℕ) (expires_at : ℕ) (room_id : Option String) (db : Db)
    → let (answer, after) = create_invite_record inviter token_hash expires_at room_id db in
      (answer ≡ ok tt
        → (retain (open_invite_of inviter) after.invites
            ≡ row inviter token_hash expires_at room_id ∷ [])
          × (retain (of_others inviter) after.invites ≡ retain (of_others inviter) db.invites))
      × (answer ≢ ok tt → after ≡ db)
unfolding create_invite_record
create_invite_record_effect inviter token_hash expires_at room_id db =
    let new = row inviter token_hash expires_at room_id in
    (
      λ e. (
        ground (
          arith,
          e,
          retain-append (open_invite_of inviter) (revoke inviter db.invites) (new ∷ []),
          revoked inviter db.invites,
        ),
        ground (
          arith,
          e,
          retain-append (of_others inviter) (revoke inviter db.invites) (new ∷ []),
          others_kept inviter db.invites,
          append-nil (retain (of_others inviter) db.invites),
        ),
      ),
      λ e. ground (arith, e),
    )
