-- ===== src/Server/Ws/Reading.antt =====
-- server/src/ws.rs: `handle_subscribe` and `handle_mark_read`.
use little_love.Prelude.{
  ℕ, String, true, Option, none, List, [], ◌∷◌, ◌++◌, ◌==◌, nat_Eq, is_empty, if◌then◌else◌,
}
use little_love.Server.Accounts.{AccountRecord, lookup_full_account_by_id}
use little_love.Server.Wire
use little_love.Server.Wire.{RoomServerFrame, message, read_marker}
use little_love.Server.Store.{
  MessageRow, messages_for_recipient, mark_read, read_sent_message_ids, newest_read_incoming_ts,
}
use little_love.Server.Rooms.Queries.{partner_username_for}
use little_love.Server.World.{
  Env, Act, ◌>>=◌, ◌>>◌, match_some, pure, gets, query, returning, send_frame, deliver_to, for_each,
}
use little_love.Server.Ws.Guards.{need_store, need_member, or_internal, result_or, found}

-- The frame of a replayed row.
abbrev pub replay_frame : MessageRow → String → RoomServerFrame
replay_frame row from = message (record {
  id = row.id;
  room_id = row.room_id;
  from = from;
  ts = row.ts;
  body = row.body;
  replayed = true;
  read = row.read;
  client_msg_id = none;
})

unfoldable pub replay_row : ℕ → MessageRow → Act (Unit {0})
unfolding match_some ◌>>=◌ pure query send_frame lookup_full_account_by_id
replay_row tx row = do
  answer ← query (lookup_full_account_by_id row.from_account_id)
  match_some (found answer) (pure tt) (λ a. send_frame tx (replay_frame row a.username))

-- What the partner has read of my messages, as one frame.
unfoldable pub read_backfill : AccountRecord → String → List String → ℕ → Act (Unit {0})
unfolding match_some ◌>>=◌ pure query send_frame partner_username_for
read_backfill me room_id ids tx = if is_empty ids then pure tt else do
  answer ← query (partner_username_for me.id)
  match_some (found answer) (pure tt)
      (λ reader. send_frame tx (Wire.RoomServerFrame.read room_id ids reader))

unfoldable pub handle_subscribe : Env → AccountRecord → String → Option String → ℕ → Act (Unit {0})
unfolding match_some ◌>>=◌ pure query send_frame for_each messages_for_recipient
    read_sent_message_ids newest_read_incoming_ts need_store need_member or_internal replay_row
    read_backfill
handle_subscribe env me room_id since tx = do
  need_store tx
  need_member me room_id tx
  replay ← query (messages_for_recipient env.text_lt room_id me.id since)
  rows ← or_internal tx replay
  for_each rows (replay_row tx)
  sent ← query (read_sent_message_ids env.text_lt room_id me.id)
  read_backfill me room_id (result_or [] sent) tx
  marker ← query (newest_read_incoming_ts room_id me.id)
  match_some (found marker) (pure tt) (λ ts. send_frame tx (read_marker room_id ts))

-- `entry(from).or_default().push(id)`. The map's own order is open; this one is by first arrival.
unfoldable pub push_id : String → ℕ → List (ℕ × List String) → List (ℕ × List String)
push_id id sender [] = (sender, id ∷ []) ∷ []
push_id id sender ((s, ids) ∷ groups) =
    let rest = push_id id sender groups in
    if s == sender then (s, ids ++ id ∷ []) ∷ groups else (s, ids) ∷ rest

unfoldable pub by_sender : List (ℕ × List String) → List (String × ℕ) → List (ℕ × List String)
unfolding push_id
by_sender groups [] = groups
by_sender groups ((id, sender) ∷ flipped) = by_sender (push_id id sender groups) flipped

unfoldable pub relay_read : AccountRecord → String → ℕ × List String → Act (Unit {0})
unfolding match_some ◌>>=◌ pure query deliver_to lookup_full_account_by_id
relay_read me room_id (sender, ids) = do
  answer ← query (lookup_full_account_by_id sender)
  match_some (found answer) (pure tt)
      (λ a. deliver_to a.username (Wire.RoomServerFrame.read room_id ids me.username))

unfoldable pub handle_mark_read : Env → AccountRecord → String → String → ℕ → Act (Unit {0})
unfolding match_some ◌>>=◌ gets returning for_each mark_read need_store need_member or_internal
    by_sender relay_read
handle_mark_read env me room_id up_to tx = do
  need_store tx
  need_member me room_id tx
  now ← gets (λ w. w.now)
  answer ← returning (mark_read env.text_lt room_id me.id up_to now)
  flipped ← or_internal tx answer
  for_each (by_sender [] flipped) (relay_read me room_id)
