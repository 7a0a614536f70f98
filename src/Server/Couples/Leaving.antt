-- ===== src/Server/Couples/Leaving.antt =====
-- Couples and renaming and leaving a room.
use little_love.Prelude.{
  ℕ, ◌≡◌, ◌≢◌, inl, inr, subst, ◌∙◌, String, true, not, ◌&&◌, map, arith, eq_iff, length, ◌==◌,
  nat_Eq, string_Eq, retain, any-retain, any-dropped, any-kept, any-map_same, Bool-cases,
  if◌then◌else◌,
}
use little_love.Server.Db.{Db, Room, ok, Result-cases}
use little_love.Server.Rooms.Queries.{in_room}
use little_love.Server.Rooms.Mutations.{
  in_some_room, rename_room, delete_room, delete_member, leave_room,
}
use little_love.Server.Couples.{Shared, KeepsCouples}
use little_love.Server.Couples.Tables.{Shared-rooms, Shared-fewer, Shared-drop_room}

pub rename_room-KeepsCouples :
    (r name : String) (db after : Db)
    → rename_room r name db ≡ ok after
    → KeepsCouples db
    → KeepsCouples after
unfolding rename_room
rename_room-KeepsCouples r name db after e (l, s) =
    let rename : Room → Room = λ x. if x.id == r then record x { name = name } else x in
    let same : record db { rooms = map rename db.rooms } ≡ after = ground arith in
    subst KeepsCouples same (
      l,
      Shared-rooms (map rename db.rooms)
          (λ q h. any-map_same (λ x. x.id == q) rename db.rooms (λ x. ground arith) ∙ h) s,
    )

delete_member-KeepsCouples :
    (r : String) (a : ℕ) (db : Db) → KeepsCouples db → KeepsCouples (delete_member r a db)
unfolding delete_member
delete_member-KeepsCouples r a db (l, s) = (
  l,
  Shared-fewer (retain (λ m. not (m.room_id == r && m.account_id == a)) db.room_members) db.invites
      (λ q b.
        any-retain (λ m. m.room_id == q && m.account_id == b)
          (λ m. not (m.room_id == r && m.account_id == a)) db.room_members)
      (λ q i h. h) s,
)

delete_room_ok :
    (r : String) (db after : Db)
    → delete_room r db ≡ ok after
    → (after.rooms ≡ retain (λ x. not (x.id == r)) db.rooms)
      × ((after.room_members ≡ retain (λ m. not (in_room r m)) db.room_members)
          × ((after.invites ≡ retain (λ i. not (in_some_room r i.room_id)) db.invites)
              × ((after.accounts ≡ db.accounts) × (after.next_account_id ≡ db.next_account_id))))
unfolding delete_room
delete_room_ok r db after e = ground arith

other_room : (q r s : String) → s ≢ r → (q == s) ≡ true → not (q == r) ≡ true
other_room q r s ne h = ground (arith, eq_iff q s, eq_iff q r)

Shared-rest :
    (r : String) (db : Db)
    → Shared db.accounts db.rooms db.room_members db.invites
    → Shared db.accounts
        (retain (λ x. not (x.id == r)) db.rooms)
        (retain (λ m. not (in_room r m)) db.room_members)
        (retain (λ i. not (in_some_room r i.room_id)) db.invites)
Shared-rest r db s =
    Shared-drop_room r (retain (λ x. not (x.id == r)) db.rooms)
      (λ q ne h.
        any-kept (λ x. x.id == q) (λ x. not (x.id == r)) db.rooms (λ x. other_room x.id r q ne) ∙ h)
      (λ a.
        any-dropped (λ m. m.room_id == r && m.account_id == a) (λ m. not (in_room r m))
          db.room_members (λ m h. ground arith))
      (λ i.
        any-dropped (λ x. x.inviter_id == i && in_some_room r x.room_id)
          (λ x. not (in_some_room r x.room_id)) db.invites (λ x h. ground arith))
      (Shared-fewer (retain (λ m. not (in_room r m)) db.room_members)
        (retain (λ i. not (in_some_room r i.room_id)) db.invites)
        (λ q a.
          any-retain (λ m. m.room_id == q && m.account_id == a) (λ m. not (in_room r m))
            db.room_members)
        (λ q i.
          any-retain (λ x. x.inviter_id == i && in_some_room q x.room_id)
            (λ x. not (in_some_room r x.room_id)) db.invites)
        s)

delete_room-KeepsCouples :
    (r : String) (db after : Db)
    → delete_room r db ≡ ok after
    → KeepsCouples db
    → KeepsCouples after
delete_room-KeepsCouples r db after e (l, s) =
    let (e₁, (e₂, (e₃, (e₄, e₅)))) = delete_room_ok r db after e in
    rw (e₁, e₂, e₃, e₄, e₅) (l, Shared-rest r db s)

pub leave_room-KeepsCouples :
    (r : String) (a : ℕ) (db : Db) → KeepsCouples db → KeepsCouples (leave_room r a db).1
unfolding leave_room
leave_room-KeepsCouples r a db k =
    let left = delete_member-KeepsCouples r a db k in
    elim (Bool-cases (length (retain (in_room r) (delete_member r a db).room_members) == 0)) [
      | inr e ↦
          let same : delete_member r a db ≡ (leave_room r a db).1 = ground (arith, e) in
          subst KeepsCouples same left
      | inl e ↦ elim (Result-cases (delete_room r (delete_member r a db))) [
        | inr (x, f) ↦
            let same : db ≡ (leave_room r a db).1 = ground (arith, e, f) in
            subst KeepsCouples same k
        | inl (after, f) ↦
            let same : after ≡ (leave_room r a db).1 = ground (arith, e, f) in
            subst KeepsCouples same (delete_room-KeepsCouples r (delete_member r a db) after f left)
      ]
    ]
