-- ===== src/Server/Couples/Letters.antt =====
-- Whom the stored messages go to: the tables and the statements of server/src/store.rs and rooms.rs.
use little_love.Prelude.{
  ℕ, ◌≡◌, ◌⊎◌, subst, ◌∙◌, refl, ap, inl, inr, Bool, String, Option, none, some, List, [], ◌∷◌,
  nat_Eq, string_Eq, any, All, All-weaken, All-append, All-map, Bool-cases, arith, if◌then◌else◌,
}
use little_love.Server.Db.{Db, Account, StoredMessage, ok, Result-cases}
use little_love.Server.Accounts.{by_username, insert_account, touch_last_seen}
use little_love.Server.Invites.{create_invite_record, mark_consumed}
use little_love.Server.Store.{MessageRow, insert, insert_rows, insert_many, mark_read, flips}
use little_love.Server.Store.Landing.{landed, insert_cases}
use little_love.Server.Ledgers.{
  insert_attachment, upsert_profile, upsert_token, delete_token, delete_token_value,
}
use little_love.Server.Rooms.Links.{link}
use little_love.Server.Rooms.Pairing.{
  set_partner_link, scan_rows, may_pair, link_checked, locked_rows,
}
use little_love.Server.Rooms.Mutations.{create_room_with_members, leave_room}
use little_love.Server.Keeping.{Quiet, Pairs}
use little_love.Server.Keeping.Tables.{
  set_partner_link-leaves, insert_member-leaves, create_room_with_members-leaves,
  rename_room-leaves, leave_room-leaves, insert-leaves, insert_attachment-leaves,
  upsert_profile-leaves, upsert_token-leaves,
}
use little_love.Server.Couples.Accounts.{link-map, seen_at, link-append-stays, link_both-Grown}

-- From oneself, or from one's partner.
abbrev pub MayWrite : List Account → ℕ → ℕ → Type 0
MayWrite accounts from to = (from ≡ to) ⊎ (link from accounts ≡ some (some to))

-- Every stored message goes to its sender or to the sender's partner.
abbrev pub Private : Db → Type 0
Private db = All (λ m. MayWrite db.accounts m.from_account_id m.recipient_account_id) db.messages

-- Partners stay.
abbrev Stays : List Account → List Account → Type 0
Stays before after = (a b : ℕ) → link a before ≡ some (some b) → link a after ≡ some (some b)

same_Private :
    (before after : Db)
    → after.messages ≡ before.messages
    → Stays before.accounts after.accounts
    → Private before
    → Private after
same_Private before after e stays p = rw e (
    All-weaken (λ m. MayWrite before.accounts m.from_account_id m.recipient_account_id)
      (λ m. MayWrite after.accounts m.from_account_id m.recipient_account_id) before.messages
      (λ m may. elim may [
        | inl own ↦ inl own
        | inr partner ↦ inr (stays m.from_account_id m.recipient_account_id partner)
      ])
      p)

-- A statement that leaves the messages and the accounts alone.
idle_Private :
    (before after : Db)
    → (after.messages ≡ before.messages) × (after.accounts ≡ before.accounts)
    → Private before
    → Private after
idle_Private before after same = same_Private before after same.0 (λ a b h. rw same.1 h)

touch_last_seen-Private : (id now : ℕ) (db : Db) → Private db → Private (touch_last_seen id now db)
unfolding touch_last_seen
touch_last_seen-Private id now db =
    same_Private db (touch_last_seen id now db) refl
      (λ a b h. link-map (seen_at id now) (λ x. ground arith) (λ x. ground arith) a db.accounts ∙ h)

mark_read-Private :
    (lt : String → String → Bool) (r : String) (reader : ℕ) (up_to : String) (now : ℕ) (db : Db)
    → Private db
    → Private (mark_read lt r reader up_to now db).1
unfolding mark_read
mark_read-Private lt r reader up_to now db p =
    let flip : StoredMessage → StoredMessage =
      λ m. if flips lt r reader up_to m then record m { read_at = some now } else m in
    All-map (λ m. MayWrite db.accounts m.from_account_id m.recipient_account_id) flip db.messages
      (All-weaken (λ m. MayWrite db.accounts m.from_account_id m.recipient_account_id)
        (λ m. MayWrite db.accounts (flip m).from_account_id (flip m).recipient_account_id)
        db.messages
        (λ m may. elim (Bool-cases (flips lt r reader up_to m)) [
          | inl e ↦ rw e may
          | inr e ↦ rw e may
        ])
        p)

link_checked-Stays :
    (a b : ℕ) (mine theirs : Option (Option ℕ)) (db : Db)
    → Stays db.accounts (link_checked a b mine theirs db).1.accounts
link_checked-Stays a b none theirs db j p h = h
link_checked-Stays a b (some mine) none db j p h = h
link_checked-Stays a b (some mine) (some theirs) db j p h =
    elim (Bool-cases (may_pair a b mine theirs)) [
      | inl e ↦ rw e ((link_both-Grown a b db j).1 p h)
      | inr e ↦ rw e h
    ]

set_partner_link-Private : (a b : ℕ) (db : Db) → Private db → Private (set_partner_link a b db).1
unfolding set_partner_link
set_partner_link-Private a b db =
    let rows = locked_rows a b db.accounts in
    same_Private db (set_partner_link a b db).1 (ap (λ t. t.1) (set_partner_link-leaves a b db))
      (link_checked-Stays a b (scan_rows a none rows) (scan_rows b none rows) db)

insert_account-Stays :
    (username : String) (ed x : List ℕ) (now : ℕ) (db : Db)
    → Stays db.accounts (insert_account username ed x now db).1.accounts
unfolding insert_account
insert_account-Stays username ed x now db a b h =
    elim (Bool-cases (any (by_username username) db.accounts)) [
      | inl e ↦ rw e h
      | inr e ↦ rw e (
          link-append-stays
            (record {
              id = db.next_account_id;
              username = username;
              ed25519_pub = ed;
              x25519_pub = x;
              created_at = now;
              partner_account_id = none;
              last_seen_at = none;
            })
            refl db.accounts a b h)
    ]

insert_account-messages :
    (username : String) (ed x : List ℕ) (now : ℕ) (db : Db)
    → (insert_account username ed x now db).1.messages ≡ db.messages
unfolding insert_account
insert_account-messages username ed x now db = ground arith

create_invite_record-same :
    (inviter : ℕ) (hash : List ℕ) (expires : ℕ) (room : Option String) (db : Db)
    → let after = (create_invite_record inviter hash expires room db).1 in
      (after.messages ≡ db.messages) × (after.accounts ≡ db.accounts)
unfolding create_invite_record
create_invite_record-same inviter hash expires room db = ground arith

pub letters_Quiet : Quiet Private
unfolding delete_token delete_token_value
letters_Quiet = record {
  touches = touch_last_seen-Private;
  marks = mark_read-Private;
  attaches = λ blob_key r uploader size db.
      idle_Private db (insert_attachment blob_key r uploader size db).1
        (insert_attachment-leaves blob_key r uploader size db);
  profiles = λ id envelope avatar now db.
      idle_Private db (upsert_profile id envelope avatar now db).1
        (upsert_profile-leaves id envelope avatar now db);
  tokens = λ id device token environment kind db.
      idle_Private db (upsert_token id device token environment kind db).1
        (upsert_token-leaves id device token environment kind db);
  devices = λ id device db p. p;
  values = λ id token db p. p;
  renames = λ r name db after e.
      let same = rename_room-leaves r name db after e in
      idle_Private db after (ap (λ t. t.1) same.0, same.1);
  leaves = λ r a db.
      let same = leave_room-leaves r a db in idle_Private db (leave_room r a db).1 (same.1, same.2);
}

pub letters_Pairs : Pairs Private
unfolding mark_consumed
letters_Pairs = record {
  invites = λ inviter hash expires room db.
      idle_Private db (create_invite_record inviter hash expires room db).1
        (create_invite_record-same inviter hash expires room db);
  consumes = λ hash now db p. p;
  links = set_partner_link-Private;
  creates = λ r host partner name now db.
      let same = create_room_with_members-leaves r host partner name now db in
      let after = (create_room_with_members r host partner name now db).1 in
      idle_Private db after (ap (λ t. t.1) same.0, same.1);
  seats = λ r id now db after e.
      let same = insert_member-leaves r id now db after e in
      idle_Private db after (ap (λ t. t.1) same.0, same.1);
  signs_up = λ username ed x now db.
      same_Private db (insert_account username ed x now db).1
        (insert_account-messages username ed x now db) (insert_account-Stays username ed x now db);
}

-- The rows that are written stay private.
insert-Private :
    (row : MessageRow) (db after : Db)
    → insert row db ≡ ok after
    → MayWrite db.accounts row.from_account_id row.recipient_account_id
    → Private db
    → Private after
insert-Private row db after e may p = elim (insert_cases row db after e) [
  | inl (f, same) ↦ subst Private same p
  | inr same ↦ subst Private same (
      All-append (λ m. MayWrite db.accounts m.from_account_id m.recipient_account_id) db.messages
        (landed row ∷ []) p (may, tt))
]

abbrev pub AllMayWrite : List Account → List MessageRow → Type 0
AllMayWrite accounts = All (λ r. MayWrite accounts r.from_account_id r.recipient_account_id)

insert_rows-Private :
    (rows : List MessageRow) (db after : Db)
    → insert_rows rows db ≡ ok after
    → AllMayWrite db.accounts rows
    → Private db
    → Private after
unfolding insert_rows
insert_rows-Private [] db after e may p = let same : db ≡ after = cc e in subst Private same p
insert_rows-Private (row ∷ rows) db after e may p = elim (Result-cases (insert row db)) [
  | inr (x, f) ↦ absurd (cc (e, f))
  | inl (next, f) ↦
      insert_rows-Private rows next after (cc (e, f)) (rw (insert-leaves row db next f).1 may.1)
        (insert-Private row db next f may.0 p)
]

pub insert_many-Private :
    (rows : List MessageRow) (db : Db)
    → AllMayWrite db.accounts rows
    → Private db
    → Private (insert_many rows db).1
unfolding insert_many
insert_many-Private rows db may p = elim (Result-cases (insert_rows rows db)) [
  | inr (x, f) ↦ rw (f, insert_many) p
  | inl (after, f) ↦ rw (f, insert_many) (insert_rows-Private rows db after f may p)
]
