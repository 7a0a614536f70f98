-- ===== src/Server/Couples/Seats.antt =====
-- Couples and the rooms of server/src/rooms.rs that are created and joined.
use little_love.Prelude.{
  ℕ, ◌≡◌, ◌≢◌, ◌⊎◌, inl, inr, refl, sym, ap, ◌∙◌, String, true, false, Option, none, some, List, [],
  ◌∷◌, ◌++◌, arith, ◌==◌, nat_Eq, string_Eq, any-append, All, subst, Bool-cases,
}
use little_love.Server.Db.{Db, ok, Result-cases}
use little_love.Server.Rooms.Links.{link}
use little_love.Server.Rooms.Queries.{is_member}
use little_love.Server.Rooms.Mutations.{
  created, insert_member, insert_members, insert_room, seats, create_room_with_members,
}
use little_love.Server.Couples.{seated, invites_to, room_exists, KeepsCouples, MayJoin}
use little_love.Server.Couples.Tables.{Shared-rooms, Shared-join, seat, old_or_new}

abbrev with_seat : String → ℕ → ℕ → Db → Db
with_seat r a now db = record db { room_members = db.room_members ++ seat r a now ∷ [] }

insert_member_cases :
    (r : String) (a now : ℕ) (db after : Db)
    → insert_member r a now db ≡ ok after
    → (after ≡ db) ⊎ ((after ≡ with_seat r a now db) × (room_exists r db.rooms ≡ true))
unfolding insert_member
insert_member_cases r a now db after e = elim (Bool-cases (is_member r a db)) [
  | inl m ↦ inl (ground (arith, m))
  | inr m ↦ inr (ground (arith, m), ground (arith, m))
]

-- Whoever may join keeps couples by joining.
pub insert_member-KeepsCouples :
    (r : String) (a now : ℕ) (db after : Db)
    → insert_member r a now db ≡ ok after
    → MayJoin db.accounts db.room_members db.invites r a
    → KeepsCouples db
    → KeepsCouples after
insert_member-KeepsCouples r a now db after e j (l, s) =
    elim (insert_member_cases r a now db after e) [
      | inl same ↦ rw same (l, s)
      | inr (joined, known) ↦ rw joined (l, Shared-join l s r a now j known)
    ]

abbrev with_room : String → String → ℕ → Db → Db
with_room r name now db = record db {
  rooms = db.rooms ++ record { id = r; created_at = now; name = name } ∷ [];
}

insert_room_cases :
    (r name : String) (now : ℕ) (db after : Db)
    → insert_room r name now db ≡ ok after
    → (after ≡ with_room r name now db) × (room_exists r db.rooms ≡ false)
unfolding insert_room
insert_room_cases r name now db after e = (ground arith, ground arith)

-- A room that does not exist has no members and no invites.
no_seat :
    (r : String) (a : ℕ) (db : Db)
    → KeepsCouples db
    → room_exists r db.rooms ≡ false
    → seated r a db.room_members ≡ false
no_seat r a db (l, s) e = ground (arith, s.member_room r a)

no_invite :
    (r : String) (i : ℕ) (db : Db)
    → KeepsCouples db
    → room_exists r db.rooms ≡ false
    → invites_to i r db.invites ≡ false
no_invite r i db (l, s) e = ground (arith, s.invite_room r i)

-- A room that only the host and the host's partner sit in, and that no invite is for.
pub record HasOnly (r : String) (host : ℕ) (partner : Option ℕ) (db : Db) : Type 0 where
  pub seats_of : (m : ℕ) → seated r m db.room_members ≡ true → (m ≡ host) ⊎ (partner ≡ some m)
  pub uninvited : (i : ℕ) → invites_to i r db.invites ≡ false

-- The partner that a host brings is the host's partner.
abbrev pub IsPartner : ℕ → Option ℕ → Db → Type 0
IsPartner host partner db = (p : ℕ) → partner ≡ some p → link host db.accounts ≡ some (some p)

HasOnly-with_room :
    (r name : String) (now host : ℕ) (partner : Option ℕ) (db : Db)
    → KeepsCouples db
    → room_exists r db.rooms ≡ false
    → HasOnly r host partner (with_room r name now db)
HasOnly-with_room r name now host partner db k e = record {
  seats_of = λ m h. absurd (cc (h, no_seat r m db k e));
  uninvited = λ i. no_invite r i db k e;
}

with_room-KeepsCouples :
    (r name : String) (now : ℕ) (db : Db) → KeepsCouples db → KeepsCouples (with_room r name now db)
with_room-KeepsCouples r name now db (l, s) = (
  l,
  Shared-rooms (with_room r name now db).rooms
      (λ q h. ground (
        arith,
        any-append (λ x. x.id == q) db.rooms
            (record { id = r; created_at = now; name = name } ∷ []),
      ))
      s,
)

-- The host and the partner may join such a room.
HasOnly-MayJoin :
    (r : String) (host : ℕ) (partner : Option ℕ) (a : ℕ) (db : Db)
    → HasOnly r host partner db
    → IsPartner host partner db
    → KeepsCouples db
    → (a ≡ host) ⊎ (partner ≡ some a)
    → MayJoin db.accounts db.room_members db.invites r a
HasOnly-MayJoin r host partner a db o p (l, s) w = record {
  with_members = λ m h ne. elim (o.seats_of m h) [
    | inl e ↦ elim w [ inl f ↦ absurd (ne (e ∙ sym f)) | inr f ↦ rw e (p a f) ]
    | inr e ↦ elim w [
      | inl f ↦ rw f ((l.reciprocal host m (p m e)).0)
      | inr f ↦ absurd (ne (ground (arith, e, f)))
    ]
  ];
  with_inviter = λ i h ne. absurd (cc (h, o.uninvited i));
}

HasOnly-with_seat :
    (r : String) (host : ℕ) (partner : Option ℕ) (a now : ℕ) (db : Db)
    → HasOnly r host partner db
    → (a ≡ host) ⊎ (partner ≡ some a)
    → HasOnly r host partner (with_seat r a now db)
HasOnly-with_seat r host partner a now db o w = record {
  seats_of = λ m h. elim (old_or_new r r a m now db.room_members h) [
    | inl old ↦ o.seats_of m old
    | inr (e, f) ↦ rw (← f) w
  ];
  uninvited = o.uninvited;
}

-- What holds while the members of a new room are inserted.
pub record Creating (r : String) (host : ℕ) (partner : Option ℕ) (db : Db) : Type 0 where
  pub keeps : KeepsCouples db
  pub only : HasOnly r host partner db
  pub partners : IsPartner host partner db

insert_member-Creating :
    (r : String) (host : ℕ) (partner : Option ℕ) (a now : ℕ) (db after : Db)
    → insert_member r a now db ≡ ok after
    → (a ≡ host) ⊎ (partner ≡ some a)
    → Creating r host partner db
    → Creating r host partner after
insert_member-Creating r host partner a now db after e w c =
    elim (insert_member_cases r a now db after e) [
      | inl same ↦ rw same c
      | inr (joined, known) ↦ rw joined (record {
        keeps = (
          c.keeps.0,
          Shared-join c.keeps.0 c.keeps.1 r a now
              (HasOnly-MayJoin r host partner a db c.only c.partners c.keeps w) known,
        );
        only = HasOnly-with_seat r host partner a now db c.only w;
        partners = c.partners;
      })
    ]

insert_members-Creating :
    (r : String) (host : ℕ) (partner : Option ℕ) (rest : List ℕ) (now : ℕ) (db after : Db)
    → insert_members r rest now db ≡ ok after
    → All (λ a. (a ≡ host) ⊎ (partner ≡ some a)) rest
    → Creating r host partner db
    → Creating r host partner after
unfolding insert_members
insert_members-Creating r host partner [] now db after e w c =
    subst (Creating r host partner) (cc e) c
insert_members-Creating r host partner (a ∷ rest) now db after e w c =
    elim (Result-cases (insert_member r a now db)) [
      | inr (x, f) ↦ absurd (cc (e, f))
      | inl (next, f) ↦
          insert_members-Creating r host partner rest now next after (cc (e, f)) w.1
            (insert_member-Creating r host partner a now db next f w.0 c)
    ]

seats-All :
    (host : ℕ) (partner : Option ℕ)
    → All (λ a. (a ≡ host) ⊎ (partner ≡ some a)) (seats host partner)
seats-All host none = (inl refl, tt)
seats-All host (some p) = (inl refl, (inr refl, tt))

-- The host alone, or with the partner: the new room keeps couples.
pub create_room_with_members-Creating :
    (r : String) (host : ℕ) (partner : Option ℕ) (name : String) (now : ℕ) (db : Db)
    → (create_room_with_members r host partner name now db).0 ≡ created
    → IsPartner host partner db
    → KeepsCouples db
    → Creating r host partner (create_room_with_members r host partner name now db).1
unfolding create_room_with_members
create_room_with_members-Creating r host partner name now db e p k =
    elim (Result-cases (insert_room r name now db)) [
      | inr (x, f) ↦ absurd (cc (e, f))
      | inl (first, f) ↦ elim (Result-cases (insert_members r (seats host partner) now first)) [
        | inr (x, g) ↦ absurd (cc (e, f, g))
        | inl (both, g) ↦
            let (same, none_yet) = insert_room_cases r name now db first f in
            let start : Creating r host partner first = rw same (record {
              keeps = with_room-KeepsCouples r name now db k;
              only = HasOnly-with_room r name now host partner db k none_yet;
              partners = p;
            }) in
            subst (Creating r host partner) (cc (f, g)) (
              insert_members-Creating r host partner (seats host partner) now first both g
                (seats-All host partner) start)
      ]
    ]

pub create_room_with_members_error :
    (r : String) (host : ℕ) (partner : Option ℕ) (name : String) (now : ℕ) (db : Db)
    → (create_room_with_members r host partner name now db).0 ≢ created
    → (create_room_with_members r host partner name now db).1 ≡ db
unfolding create_room_with_members
create_room_with_members_error r host partner name now db e =
    elim (Result-cases (insert_room r name now db)) [
      | inr (x, f) ↦ cc f
      | inl (first, f) ↦ elim (Result-cases (insert_members r (seats host partner) now first)) [
        | inr (x, g) ↦ cc (f, g)
        | inl (both, g) ↦ absurd (e (cc (f, g)))
      ]
    ]

insert_members-accounts :
    (r : String) (rest : List ℕ) (now : ℕ) (db after : Db)
    → insert_members r rest now db ≡ ok after
    → after.accounts ≡ db.accounts
unfolding insert_members
insert_members-accounts r [] now db after e = cc e
insert_members-accounts r (a ∷ rest) now db after e =
    elim (Result-cases (insert_member r a now db)) [
      | inr (x, f) ↦ absurd (cc (e, f))
      | inl (next, f) ↦ elim (insert_member_cases r a now db next f) [
        | inl same ↦
            insert_members-accounts r rest now next after (cc (e, f)) ∙ ap (λ d. d.accounts) same
        | inr (joined, known) ↦
            insert_members-accounts r rest now next after (cc (e, f)) ∙ ap (λ d. d.accounts) joined
      ]
    ]

pub create_room_with_members-accounts :
    (r : String) (host : ℕ) (partner : Option ℕ) (name : String) (now : ℕ) (db : Db)
    → (create_room_with_members r host partner name now db).1.accounts ≡ db.accounts
unfolding create_room_with_members
create_room_with_members-accounts r host partner name now db =
    elim (Result-cases (insert_room r name now db)) [
      | inr (x, f) ↦ cc f
      | inl (first, f) ↦ elim (Result-cases (insert_members r (seats host partner) now first)) [
        | inr (x, g) ↦ cc (f, g)
        | inl (both, g) ↦
            let same : both.accounts ≡ db.accounts =
              insert_members-accounts r (seats host partner) now first both g
              ∙ ap (λ d. d.accounts) ((insert_room_cases r name now db first f).0) in
            cc (f, g, same)
      ]
    ]
