-- ===== src/Server/Couples/Tables.antt =====
-- How changes of single tables act on couples.
use little_love.Prelude.{
  ℕ, ◌≡◌, ◌≢◌, sym, ◌∙◌, String, true, false, ◌&&◌, some, List, [], ◌∷◌, ◌++◌, arith, eq_iff, ◌==◌,
  nat_Eq, string_Eq, any-append, Bool-cases, inl, inr, ◌⊎◌,
}
use little_love.Server.Db.{Account, Invite, Room, RoomMember}
use little_love.Server.Rooms.Links.{link}
use little_love.Server.Couples.{seated, invites_to, room_exists, Linked, Shared, MayJoin}

seat_moved :
    (q r : String) (a : ℕ) (members : List RoomMember)
    → q ≡ r
    → seated q a members ≡ true
    → seated r a members ≡ true
seat_moved q r a members e h = rw (← e) h

invite_moved :
    (q r : String) (i : ℕ) (invites : List Invite)
    → q ≡ r
    → invites_to i q invites ≡ true
    → invites_to i r invites ≡ true
invite_moved q r i invites e h = rw (← e) h

module _ {accounts : List Account} {rooms : List Room} {members : List RoomMember}
    {invites : List Invite} where
  -- Links that stay keep what is shared.
  pub Shared-links :
      (after : List Account)
      → ((a b : ℕ) → link a accounts ≡ some (some b) → link a after ≡ some (some b))
      → Shared accounts rooms members invites
      → Shared after rooms members invites
  Shared-links after keep s = record {
    couples = λ r a b ha hb ne. keep a b (s.couples r a b ha hb ne);
    invited = λ r i a hi ha ne. keep a i (s.invited r i a hi ha ne);
    one_inviter = s.one_inviter;
    member_room = s.member_room;
    invite_room = s.invite_room;
  }

  -- Rooms that stay keep it too.
  pub Shared-rooms :
      (after : List Room)
      → ((r : String) → room_exists r rooms ≡ true → room_exists r after ≡ true)
      → Shared accounts rooms members invites
      → Shared accounts after members invites
  Shared-rooms after keep s = record {
    couples = s.couples;
    invited = s.invited;
    one_inviter = s.one_inviter;
    member_room = λ r a h. keep r (s.member_room r a h);
    invite_room = λ r i h. keep r (s.invite_room r i h);
  }

  -- Fewer seats and fewer invites: no new claims.
  pub Shared-fewer :
      (seats : List RoomMember) (left : List Invite)
      → ((r : String) (a : ℕ) → seated r a seats ≡ true → seated r a members ≡ true)
      → ((r : String) (i : ℕ) → invites_to i r left ≡ true → invites_to i r invites ≡ true)
      → Shared accounts rooms members invites
      → Shared accounts rooms seats left
  Shared-fewer seats left fewer_seats fewer_invites s = record {
    couples = λ r a b ha hb. s.couples r a b (fewer_seats r a ha) (fewer_seats r b hb);
    invited = λ r i a hi ha. s.invited r i a (fewer_invites r i hi) (fewer_seats r a ha);
    one_inviter = λ r i j hi hj. s.one_inviter r i j (fewer_invites r i hi) (fewer_invites r j hj);
    member_room = λ r a h. s.member_room r a (fewer_seats r a h);
    invite_room = λ r i h. s.invite_room r i (fewer_invites r i h);
  }

  -- A room that nobody sits in and no invite is for may go.
  pub Shared-drop_room :
      (r : String) (after : List Room)
      → ((q : String) → q ≢ r → room_exists q rooms ≡ true → room_exists q after ≡ true)
      → ((a : ℕ) → seated r a members ≡ false)
      → ((i : ℕ) → invites_to i r invites ≡ false)
      → Shared accounts rooms members invites
      → Shared accounts after members invites
  Shared-drop_room r after keep no_seat no_invite s = record {
    couples = s.couples;
    invited = s.invited;
    one_inviter = s.one_inviter;
    member_room =
        λ q a h. keep q (λ e. cc (seat_moved q r a members e h, no_seat a)) (s.member_room q a h);
    invite_room = λ q i h.
        keep q (λ e. cc (invite_moved q r i invites e h, no_invite i)) (s.invite_room q i h);
  }

abbrev pub seat : String → ℕ → ℕ → RoomMember
seat r a now = record { room_id = r; account_id = a; joined_at = now }

-- A seat is taken by one account in one room.
pub seated-append :
    (r q : String) (a b now : ℕ) (members : List RoomMember)
    → seated q b (members ++ seat r a now ∷ []) ≡ true
    → seated q b members ≡ false
    → (r ≡ q) × (a ≡ b)
seated-append r q a b now members h e = ground (
  arith,
  any-append (λ m. m.room_id == q && m.account_id == b) members (seat r a now ∷ []),
  eq_iff r q,
)

pub old_or_new :
    (r q : String) (a b now : ℕ) (members : List RoomMember)
    → seated q b (members ++ seat r a now ∷ []) ≡ true
    → (seated q b members ≡ true) ⊎ ((r ≡ q) × (a ≡ b))
old_or_new r q a b now members h = elim (Bool-cases (seated q b members)) [
  | inl e ↦ inl e
  | inr e ↦ inr (seated-append r q a b now members h e)
]

module _ {accounts : List Account} {next : ℕ} {rooms : List Room} {members : List RoomMember}
    {invites : List Invite} (l : Linked accounts next) (s : Shared accounts rooms members invites)
    (r : String) (a now : ℕ) (j : MayJoin accounts members invites r a) where
  joined_couples :
      (q : String) (x y : ℕ)
      → seated q x (members ++ seat r a now ∷ []) ≡ true
      → seated q y (members ++ seat r a now ∷ []) ≡ true
      → x ≢ y
      → link x accounts ≡ some (some y)
  joined_couples q x y hx hy ne = elim (old_or_new r q a x now members hx) [
    | inl ox ↦ elim (old_or_new r q a y now members hy) [
      | inl oy ↦ s.couples q x y ox oy ne
      | inr (e, f) ↦ rw (← f) (j.with_members x (rw e ox) (λ g. ne (g ∙ f)))
    ]
    | inr (e, f) ↦ elim (old_or_new r q a y now members hy) [
      | inl oy ↦
          rw (← f) ((l.reciprocal y a (j.with_members y (rw e oy) (λ g. ne (sym (g ∙ f))))).0)
      | inr (_, g) ↦ absurd (ne (sym f ∙ g))
    ]
  ]

  joined_invited :
      (q : String) (i x : ℕ)
      → invites_to i q invites ≡ true
      → seated q x (members ++ seat r a now ∷ []) ≡ true
      → x ≢ i
      → link x accounts ≡ some (some i)
  joined_invited q i x hi hx ne = elim (old_or_new r q a x now members hx) [
    | inl ox ↦ s.invited q i x hi ox ne
    | inr (e, f) ↦ rw (← f) (j.with_inviter i (rw e hi) (λ g. ne (sym f ∙ g)))
  ]

  joined_room :
      room_exists r rooms ≡ true
      → (q : String) (x : ℕ) → seated q x (members ++ seat r a now ∷ []) ≡ true
      → room_exists q rooms ≡ true
  joined_room known q x hx = elim (old_or_new r q a x now members hx) [
    | inl ox ↦ s.member_room q x ox
    | inr (e, f) ↦ rw (← e) known
  ]

  pub Shared-join :
      room_exists r rooms ≡ true → Shared accounts rooms (members ++ seat r a now ∷ []) invites
  Shared-join known = record {
    couples = joined_couples;
    invited = joined_invited;
    one_inviter = s.one_inviter;
    member_room = joined_room known;
    invite_room = s.invite_room;
  }
