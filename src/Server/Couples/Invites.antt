-- ===== src/Server/Couples/Invites.antt =====
-- Couples and the statements of server/src/invites.rs.
use little_love.Prelude.{
  ℕ, ◌≡◌, ◌⊎◌, inl, inr, sym, ap, subst, ◌∙◌, String, true, false, not, ◌&&◌, Option, none, some,
  List, [], ◌∷◌, ◌++◌, map, arith, eq_iff, ◌==◌, nat_Eq, string_Eq, list_Eq, any, any-append,
  any-retain, any-map_same, Bool-cases, if◌then◌else◌,
}
use little_love.Server.Db.{Db, Invite}
use little_love.Server.Accounts.{by_id}
use little_love.Server.Invites.{
  create_invite_record, mark_consumed, revoke, is_unconsumed, has_hash, room_known,
}
use little_love.Server.Rooms.Mutations.{in_some_room}
use little_love.Server.Couples.{seated, invites_to, room_exists, Shared, KeepsCouples}
use little_love.Server.Couples.Tables.{Shared-fewer}

abbrev consume_row : List ℕ → ℕ → Invite → Invite
consume_row token_hash when i =
    if has_hash token_hash i && is_unconsumed i then record i { consumed_at = some when } else i

pub mark_consumed-KeepsCouples :
    (token_hash : List ℕ) (when : ℕ) (db : Db)
    → KeepsCouples db
    → KeepsCouples (mark_consumed token_hash when db)
unfolding mark_consumed
mark_consumed-KeepsCouples token_hash when db (l, s) = (
  l,
  Shared-fewer db.room_members (map (consume_row token_hash when) db.invites) (λ q a h. h)
      (λ q i h.
        sym (
          any-map_same (λ x. x.inviter_id == i && in_some_room q x.room_id)
            (consume_row token_hash when) db.invites (λ x. ground arith))
        ∙ h)
      s,
)

-- An invite to no room lets nobody in; one to a room needs the room to hold only the inviter, and no
-- other invite to it.
abbrev pub MayInvite : ℕ → Option String → Db → Type 0
MayInvite inviter room db =
    (r : String)
    → room ≡ some r
    → ((m : ℕ) → seated r m db.room_members ≡ true → m ≡ inviter)
      × ((i : ℕ) → invites_to i r db.invites ≡ false)

revoke_fewer :
    (inviter : ℕ) (r : String) (i : ℕ) (invites : List Invite)
    → invites_to i r (revoke inviter invites) ≡ true
    → invites_to i r invites ≡ true
unfolding revoke
revoke_fewer inviter r i invites =
    any-retain (λ x. x.inviter_id == i && in_some_room r x.room_id)
      (λ x. not (x.inviter_id == inviter && is_unconsumed x)) invites

abbrev new_invite : ℕ → List ℕ → ℕ → Option String → Invite
new_invite inviter token_hash expires_at room = record {
  token_hash = token_hash;
  inviter_id = inviter;
  expires_at = expires_at;
  consumed_at = none;
  room_id = room;
}

some_room : (r : String) (room : Option String) → in_some_room r room ≡ true → room ≡ some r
some_room r none h = cc
some_room r (some q) h = ap some ((eq_iff q r).0 h)

-- An invite to `r` after the new one is an old one, or the new one.
invites_after :
    (inviter : ℕ) (token_hash : List ℕ) (expires_at : ℕ) (room : Option String) (r : String) (i : ℕ)
    (db : Db)
    → invites_to i r
        (revoke inviter db.invites ++ new_invite inviter token_hash expires_at room ∷ [])
      ≡ true
    → (invites_to i r db.invites ≡ true) ⊎ ((inviter ≡ i) × (room ≡ some r))
invites_after inviter token_hash expires_at room r i db h =
    elim (Bool-cases (invites_to i r (revoke inviter db.invites))) [
      | inl e ↦ inl (revoke_fewer inviter r i db.invites e)
      | inr e ↦
          let both : (inviter ≡ i) × (in_some_room r room ≡ true) = ground (
            arith,
            any-append (λ x. x.inviter_id == i && in_some_room r x.room_id)
                (revoke inviter db.invites) (new_invite inviter token_hash expires_at room ∷ []),
          ) in
          inr (both.0, some_room r room both.1)
    ]

room_known_exists :
    (r : String) (room : Option String) (db : Db)
    → room_known room db ≡ true
    → room ≡ some r
    → room_exists r db.rooms ≡ true
room_known_exists r none db h e = cc
room_known_exists r (some q) db h e = subst (λ x. room_known x db ≡ true) e h

module _ (inviter : ℕ) (token_hash : List ℕ) (expires_at : ℕ) (room : Option String) (db : Db)
    (k : KeepsCouples db) (may : MayInvite inviter room db) where
  Shared-invite :
      room_known room db ≡ true
      → Shared db.accounts db.rooms db.room_members
          (revoke inviter db.invites ++ new_invite inviter token_hash expires_at room ∷ [])
  Shared-invite known = record {
    couples = k.1.couples;
    invited = λ r i a hi ha ne. elim (invites_after inviter token_hash expires_at room r i db hi) [
      | inl old ↦ k.1.invited r i a old ha ne
      | inr (e, f) ↦ absurd (ne ((may r f).0 a ha ∙ e))
    ];
    one_inviter = λ r i j hi hj. elim (invites_after inviter token_hash expires_at room r i db hi) [
      | inl old ↦ elim (invites_after inviter token_hash expires_at room r j db hj) [
        | inl other ↦ k.1.one_inviter r i j old other
        | inr (e, f) ↦ absurd (cc (old, (may r f).1 i))
      ]
      | inr (e, f) ↦ elim (invites_after inviter token_hash expires_at room r j db hj) [
        | inl other ↦ absurd (cc (other, (may r f).1 j))
        | inr (g, _) ↦ sym e ∙ g
      ]
    ];
    member_room = k.1.member_room;
    invite_room = λ r i hi. elim (invites_after inviter token_hash expires_at room r i db hi) [
      | inl old ↦ k.1.invite_room r i old
      | inr (e, f) ↦ room_known_exists r room db known f
    ];
  }

  pub create_invite_record-KeepsCouples :
      KeepsCouples (create_invite_record inviter token_hash expires_at room db).1
  unfolding create_invite_record
  create_invite_record-KeepsCouples =
      elim (Bool-cases (any (has_hash token_hash) (revoke inviter db.invites))) [
        | inl e ↦ rw e k
        | inr e ↦ elim (Bool-cases (any (by_id inviter) db.accounts && room_known room db)) [
          | inr f ↦ rw (e, f) k
          | inl f ↦ rw (e, f) (k.0, Shared-invite (ground arith))
        ]
      ]
