-- ===== src/Server/Ledgers.antt =====
-- The small tables: server/src/attachments.rs, server/src/profiles.rs and
-- server/src/push_tokens.rs.
use little_love.Prelude.{
  ℕ, String, Bool, true, not, ◌&&◌, Option, none, some, List, [], ◌∷◌, ◌++◌, map, ◌==◌, nat_Eq,
  string_Eq, any, find, retain, if◌then◌else◌,
}
use little_love.Server.Db.{
  Db, AccountProfile, DevicePushToken, Result, ok, err, unique_violation, foreign_key_violation,
}
use little_love.Server.Accounts.{by_id}

unfoldable pub insert_attachment : String → String → ℕ → ℕ → Db → Result (Unit {0}) × Db
insert_attachment blob_key room_id uploader byte_size db =
    if any (λ a. a.blob_key == blob_key) db.attachments
    then (err unique_violation, db)
    else if any (λ r. r.id == room_id) db.rooms && any (by_id uploader) db.accounts
    then (
      ok tt,
      record db {
        attachments =
            db.attachments
            ++ record {
              blob_key = blob_key;
              room_id = room_id;
              uploader_account_id = uploader;
              byte_size = byte_size;
            }
              ∷ [];
      },
    )
    else (err foreign_key_violation, db)

unfoldable pub attachment_room : String → Db → Option String
attachment_room blob_key db = elim (find (λ a. a.blob_key == blob_key) db.attachments) [
  | none ↦ none
  | some a ↦ some a.room_id
]

pub record StoredProfile : Type 0 where
  pub envelope : List ℕ
  pub avatar_key : Option String
  pub updated_at : ℕ

-- The foreign key of account_profiles.avatar_key.
abbrev pub avatar_known : Option String → Db → Bool
avatar_known none db = true
avatar_known (some k) db = any (λ a. a.blob_key == k) db.attachments

-- INSERT … ON CONFLICT (account_id) DO UPDATE
unfoldable pub upsert_profile : ℕ → List ℕ → Option String → ℕ → Db → Result (Unit {0}) × Db
upsert_profile account_id envelope avatar_key now db =
    let row : AccountProfile = record {
      account_id = account_id;
      envelope = envelope;
      avatar_key = avatar_key;
      updated_at = now;
    } in
    if any (by_id account_id) db.accounts && avatar_known avatar_key db
    then (
      ok tt,
      record db {
        account_profiles =
            if any (λ p. p.account_id == account_id) db.account_profiles
            then map (λ p. if p.account_id == account_id then row else p) db.account_profiles
            else db.account_profiles ++ row ∷ [];
      },
    )
    else (err foreign_key_violation, db)

unfoldable pub profile_for_account : ℕ → Db → Option StoredProfile
profile_for_account account_id db =
    elim (find (λ p. p.account_id == account_id) db.account_profiles) [
      | none ↦ none
      | some p ↦
          some
            (record { envelope = p.envelope; avatar_key = p.avatar_key; updated_at = p.updated_at })
    ]

pub record DeviceToken : Type 0 where
  pub apns_token : String
  pub environment : String

abbrev pub kind_alert : String
kind_alert = "alert"

abbrev pub kind_voip : String
kind_voip = "voip"

abbrev pub same_device : ℕ → String → String → DevicePushToken → Bool
same_device account_id device_id kind t =
    t.account_id == account_id && t.device_id == device_id && t.kind == kind

-- INSERT … ON CONFLICT (account_id, device_id, kind) DO UPDATE
unfoldable pub upsert_token : ℕ → String → String → String → String → Db → Result (Unit {0}) × Db
upsert_token account_id device_id apns_token environment kind db =
    let row : DevicePushToken = record {
      account_id = account_id;
      device_id = device_id;
      apns_token = apns_token;
      environment = environment;
      kind = kind;
    } in
    if any (by_id account_id) db.accounts
    then (
      ok tt,
      record db {
        device_push_tokens =
            if any (same_device account_id device_id kind) db.device_push_tokens
            then map (λ t. if same_device account_id device_id kind t then row else t)
                db.device_push_tokens
            else db.device_push_tokens ++ row ∷ [];
      },
    )
    else (err foreign_key_violation, db)

unfoldable pub delete_token : ℕ → String → Db → Db
delete_token account_id device_id db = record db {
  device_push_tokens =
      retain (λ t. not (t.account_id == account_id && t.device_id == device_id))
        db.device_push_tokens;
}

unfoldable pub delete_token_value : ℕ → String → Db → Db
delete_token_value account_id apns_token db = record db {
  device_push_tokens =
      retain (λ t. not (t.account_id == account_id && t.apns_token == apns_token))
        db.device_push_tokens;
}

unfoldable pub tokens_of_kind : ℕ → String → Db → List DeviceToken
tokens_of_kind account_id kind db =
    map (λ t. record { apns_token = t.apns_token; environment = t.environment })
      (retain (λ t. t.account_id == account_id && t.kind == kind) db.device_push_tokens)

unfoldable pub tokens_for_account : ℕ → Db → List DeviceToken
unfolding tokens_of_kind
tokens_for_account account_id = tokens_of_kind account_id kind_alert

unfoldable pub voip_tokens_for : ℕ → Db → List DeviceToken
unfolding tokens_of_kind
voip_tokens_for account_id = tokens_of_kind account_id kind_voip
