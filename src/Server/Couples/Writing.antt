-- ===== src/Server/Couples/Writing.antt =====
-- `handle_send` of server/src/ws.rs writes to members of the room only, who are partners.
use little_love.Prelude.{
  ℕ, ◌≡◌, Option-cases, ◌≢◌, refl, sym, inl, inr, true, String, List, [], ◌∷◌, nat_Eq, string_Eq,
  find, retain, All, All-weaken, All-retain_both, All-map, arith, eq_iff,
}
use little_love.Server.Db.{Db, Account, RoomMember}
use little_love.Server.Accounts.{AccountRecord, by_id}
use little_love.Server.Sql.{All-order_by}
use little_love.Server.Store.{insert_many}
use little_love.Server.Rooms.Queries.{
  is_member, members_for_room, join_accounts, in_room, member_of,
}
use little_love.Server.World.{Env}
use little_love.Server.World.Triples.{Keeps, Triple-execute}
use little_love.Server.Ws.Sending.{Bodies, handle_send}
use little_love.Server.Ws.Sending.Storing.{all_rows, all_rows-All, handle_send-Triple}
use little_love.Server.Couples.{KeepsCouples, seated}
use little_love.Server.Couples.Consuming.{same_id}
use little_love.Server.Couples.Messages.{couples_Mail}
use little_love.Server.Couples.Letters.{MayWrite, Private, insert_many-Private}

-- Every row of the table sits where it says.
seated_self : (rows : List RoomMember) → All (λ m. seated m.room_id m.account_id rows ≡ true) rows
seated_self [] = tt
seated_self (m ∷ rows) = (
  ground (arith, eq_iff m.room_id m.room_id),
  All-weaken (λ n. seated n.room_id n.account_id rows ≡ true)
      (λ n. seated n.room_id n.account_id (m ∷ rows) ≡ true) rows (λ n h. ground (arith, h))
      (seated_self rows),
)

-- A join keeps what is said of the ids.
join_accounts-All :
    (P : ℕ → Type 0) (accounts : List Account) (ms : List RoomMember)
    → All (λ m. P m.account_id) ms
    → All (λ a. P a.id) (join_accounts accounts ms)
unfolding join_accounts
join_accounts-All P accounts [] h = tt
join_accounts-All P accounts (m ∷ ms) h =
    let rest = join_accounts-All P accounts ms h.1 in
    elim (Option-cases (find (by_id m.account_id) accounts)) [
      | inl e ↦ rw (e, join_accounts) rest
      | inr (a, e) ↦ rw (e, join_accounts) (rw (same_id m.account_id accounts a e) h.0, rest)
    ]

-- Who is listed as a member sits in the room.
pub members_for_room-seated :
    (room_id : String) (db : Db)
    → All (λ m. seated room_id m.account_id db.room_members ≡ true) (members_for_room room_id db)
unfolding members_for_room
members_for_room-seated room_id db =
    let Sits : ℕ → Type 0 = λ a. seated room_id a db.room_members ≡ true in
    All-map (λ m. Sits m.account_id) member_of (join_accounts db.accounts _)
      (join_accounts-All Sits db.accounts _ (
        All-order_by _ (λ m. Sits m.account_id) (retain (in_room room_id) db.room_members)
          (All-retain_both (λ m. seated m.room_id m.account_id db.room_members ≡ true)
            (λ m. Sits m.account_id) (in_room room_id) db.room_members
            (λ m h e. ground (arith, h, eq_iff m.room_id room_id)) (seated_self db.room_members))))

abbrev pub Sound : Db → Type 0
Sound db = KeepsCouples db × Private db

-- To the other members of a room that one sits in.
members-MayWrite :
    (me : ℕ) (room_id : String) (db : Db)
    → KeepsCouples db
    → is_member room_id me db ≡ true
    → All
        (λ m. m.account_id ≢ me → MayWrite db.accounts me m.account_id)
        (members_for_room room_id db)
unfolding is_member
members-MayWrite me room_id db k here =
    All-weaken (λ m. seated room_id m.account_id db.room_members ≡ true)
      (λ m. m.account_id ≢ me → MayWrite db.accounts me m.account_id) (members_for_room room_id db)
      (λ m there ne. inr (k.1.couples room_id me m.account_id here there (λ e. ne (sym e))))
      (members_for_room-seated room_id db)

pub handle_send-Sound :
    (env : Env) (me : AccountRecord) (room_id : String) (bodies : Bodies) (c : String) (tx : ℕ)
    → Keeps Sound (handle_send env me room_id bodies c tx)
handle_send-Sound env me room_id bodies c tx =
    handle_send-Triple (λ db p. p) env me room_id bodies c tx
      (λ id ts members.
        Triple-execute (insert_many (all_rows env me room_id id ts bodies members))
          (λ db cleared.
            let allowed = members-MayWrite me.id room_id db cleared.holds.0 cleared.here in
            (
              couples_Mail.sends (all_rows env me room_id id ts bodies members) db cleared.holds.0,
              insert_many-Private (all_rows env me room_id id ts bodies members) db
                  (all_rows-All (λ r. MayWrite db.accounts r.from_account_id r.recipient_account_id)
                    env me room_id id ts bodies members
                    (All-weaken
                      (λ m. m.account_id ≢ me.id → MayWrite db.accounts me.id m.account_id)
                      (λ m.
                        m.account_id ≢ me.id
                        → (body : String) → MayWrite db.accounts me.id m.account_id)
                      members (λ m may ne body. may ne) (rw (cleared.listed) allowed))
                    (λ body. inl refl))
                  cleared.holds.1,
            ))
          (λ db cleared. cleared.holds))
