-- ===== src/Server/Rooms/Leaving.antt =====
-- What `leave_room` of server/src/rooms.rs does, and when the database refuses it.
use little_love.Prelude.{
  ℕ, ◌≡◌, ◌⊎◌, ◌↔◌, refl, ap, true, false, not, ◌&&◌, String, Bool, List, [], ◌∷◌, length, retain,
  any, All, Has, any-Has, any-elim, any-retain, Bool-cases, inl, inr, arith, eq_iff, ◌==◌, nat_Eq,
  string_Eq,
}
use little_love.Server.Db.{
  Db, DbError, Room, RoomMember, StoredMessage, ok, err, foreign_key_violation,
}
use little_love.Server.Rooms.Queries.{in_room, is_member}
use little_love.Server.Rooms.Mutations.{LeaveOutcome, leave_room, delete_member, delete_room}

-- Nobody but this account sits in the room.
abbrev pub IsAlone : String → ℕ → Db → Type 0
IsAlone room_id id db = All (λ m. m.room_id ≡ room_id → m.account_id ≡ id) db.room_members

-- The room is there, and so is a message in it.
abbrev pub HoldsMessage : String → Db → Type 0
HoldsMessage room_id db =
    ((r : Room) × Has r db.rooms × (r.id ≡ room_id))
    × ((m : StoredMessage) × Has m db.messages × (m.room_id ≡ room_id))

abbrev stays : String → ℕ → RoomMember → Bool
stays room_id id m = not (m.room_id == room_id && m.account_id == id)

abbrev left_in : String → ℕ → List RoomMember → ℕ
left_in room_id id members = length (retain (in_room room_id) (retain (stays room_id id) members))

alone_iff :
    (room_id : String) (id : ℕ) (members : List RoomMember)
    → (left_in room_id id members ≡ 0) ↔ All (λ m. m.room_id ≡ room_id → m.account_id ≡ id) members
alone_iff room_id id [] = ((λ e. tt), (λ h. refl))
alone_iff room_id id (m ∷ members) =
    let rest = alone_iff room_id id members in
    let same = eq_iff m.room_id room_id in
    (
      (λ e. elim (Bool-cases (m.room_id == room_id)) [
        | inl f ↦ elim (Bool-cases (m.account_id == id)) [
          | inl g ↦ ((λ h. ground (arith, g)), rest.0 (ground (arith, e, f, g)))
          | inr g ↦ ground (arith, e, f, g)
        ]
        | inr f ↦ ((λ h. ground (arith, f, same, h)), rest.0 (ground (arith, e, f)))
      ]),
      (λ h. elim (Bool-cases (m.room_id == room_id)) [
        | inl f ↦
            let here : m.account_id ≡ id = h.0 (same.0 f) in ground (arith, f, here, rest.1 h.1)
        | inr f ↦ ground (arith, f, rest.1 h.1)
      ]),
    )

-- The one who leaves is gone.
delete_member-is_member :
    (room_id : String) (id : ℕ) (members : List RoomMember)
    → any (λ m. m.room_id == room_id && m.account_id == id) (retain (stays room_id id) members)
      ≡ false
delete_member-is_member room_id id [] = refl
delete_member-is_member room_id id (m ∷ members) =
    ground (arith, delete_member-is_member room_id id members)

any_kept :
    (p q : RoomMember → Bool) (members : List RoomMember)
    → any p members ≡ false
    → any p (retain q members) ≡ false
any_kept p q members e = elim (Bool-cases (any p (retain q members))) [
  | inl f ↦ ground (arith, e, any-retain p q members f)
  | inr f ↦ f
]

known_iff :
    (room_id : String) (db : Db)
    → ((any (λ r. r.id == room_id) db.rooms && any (λ m. m.room_id == room_id) db.messages) ≡ true)
      ↔ HoldsMessage room_id db
known_iff room_id db = (
  (λ e.
      let (r, r_in, f) = any-elim (λ r. r.id == room_id) db.rooms (ground (arith, e)) in
      let (m, m_in, g) = any-elim (λ m. m.room_id == room_id) db.messages (ground (arith, e)) in
      ((r, r_in, (eq_iff r.id room_id).0 f), (m, m_in, (eq_iff m.room_id room_id).0 g))),
  (λ h.
      let (r, r_in, f) = h.0 in
      let (m, m_in, g) = h.1 in
      ground (
        arith,
        any-Has (λ r. r.id == room_id) r db.rooms ((eq_iff r.id room_id).1 f) r_in,
        any-Has (λ m. m.room_id == room_id) m db.messages ((eq_iff m.room_id room_id).1 g) m_in,
      )),
)

-- The two ways in which the transaction can end.
leave_room_ends :
    (room_id : String) (id : ℕ) (db : Db)
    → (IsAlone room_id id db
        × HoldsMessage room_id db
        × (leave_room room_id id db ≡ (err foreign_key_violation, db)))
      ⊎ (¬ (IsAlone room_id id db × HoldsMessage room_id db)
          × ((o : LeaveOutcome) × ((leave_room room_id id db).0 ≡ ok o))
          × (is_member room_id id (leave_room room_id id db).1 ≡ false))
unfolding leave_room delete_room delete_member is_member
leave_room_ends room_id id db =
    let known =
      any (λ r. r.id == room_id) db.rooms && any (λ m. m.room_id == room_id) db.messages in
    let alone = alone_iff room_id id db.room_members in
    let holds = known_iff room_id db in
    let gone = delete_member-is_member room_id id db.room_members in
    elim (Bool-cases (left_in room_id id db.room_members == 0)) [
      | inl e ↦ elim (Bool-cases known) [
        | inl f ↦ inl (alone.0 (ground (arith, e)), holds.0 f, ground (arith, e, f))
        | inr f ↦ inr (
          (λ both. absurd (cc (f, holds.1 both.1))),
          (record { room_deleted = true }, ground (arith, e, f)),
          ground (
            arith,
            e,
            f,
            any_kept (λ m. m.room_id == room_id && m.account_id == id)
                (λ m. not (in_room room_id m)) (retain (stays room_id id) db.room_members) gone,
          ),
        )
      ]
      | inr e ↦ inr (
        (λ both. ground (arith, e, alone.1 both.0)),
        (record { room_deleted = false }, ground (arith, e)),
        ground (arith, e, gone),
      )
    ]

-- Somebody leaves a room. The database refuses it, by a foreign key violation, exactly when nobody else
-- sits in the room and the room holds a message; there is no other failure, and a failure changes no
-- table; after a success the account is not a member of the room.
pub leave_room_cases :
    (room_id : String) (id : ℕ) (db : Db)
    → (((leave_room room_id id db).0 ≡ err foreign_key_violation)
        ↔ (IsAlone room_id id db × HoldsMessage room_id db))
      × ((e : DbError)
          → (leave_room room_id id db).0 ≡ err e
          → leave_room room_id id db ≡ (err foreign_key_violation, db))
      × ((o : LeaveOutcome)
          → (leave_room room_id id db).0 ≡ ok o
          → is_member room_id id (leave_room room_id id db).1 ≡ false)
leave_room_cases room_id id db = elim (leave_room_ends room_id id db) [
  | inl (alone, holds, e) ↦
      (((λ _. (alone, holds)), (λ _. ap (λ r. r.0) e)), (λ x f. e), (λ o f. ground (arith, e, f)))
  | inr (not_both, (o, e), gone) ↦ (
    ((λ f. ground (arith, e, f)), (λ both. absurd (not_both both))),
    (λ x f. ground (arith, e, f)),
    (λ o' f. gone),
  )
]
