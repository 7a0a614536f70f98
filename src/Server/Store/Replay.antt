-- ===== src/Server/Store/Replay.antt =====
-- What `messages_for_recipient` of server/src/store.rs replays.
use mathlib.Core.List.{Perm}
use mathlib.Core.List.Perm
use little_love.Prelude.{
  ℕ, ◌≡◌, Bool, true, false, ◌&&◌, String, List, ◌++◌, All, ◌==◌, nat_Eq, string_Eq,
}
use little_love.Server.Db.{Db, StoredMessage}
use little_love.Server.Store.{MessageRow}

-- A stored message of the room that is addressed to the recipient.
abbrev pub is_mine : String → ℕ → StoredMessage → Bool
is_mine room_id recipient m = m.room_id == room_id && m.recipient_account_id == recipient

module _ (text_lt : String → String → Bool) (room_id : String) (recipient : ℕ) where
  -- The replay from a watermark against the replay of everything.
  pub record Resumes (since : String) (full rest : List MessageRow) : Type 0 where
    pub seen : List MessageRow
    pub cut : full ≡ seen ++ rest
    pub early : All (λ r. text_lt since r.id ≡ false) seen
    pub late : All (λ r. text_lt since r.id ≡ true) rest
