-- ===== src/Server/Ws/Uploads.antt =====
-- server/src/ws.rs: `handle_request_upload` and `handle_request_download`.
use little_love.Prelude.{
  ℕ, zero, suc, ◌+◌, ◌*◌, String, false, ◌&&◌, Option, none, some, leb, if◌then◌else◌,
}
use little_love.Server.Accounts.{AccountRecord}
use little_love.Server.Wire.{
  ℤ, pos, negsuc, upload_granted, download_granted, r2_unavailable, blob_too_large, unknown_blob,
}
use little_love.Server.Ledgers.{insert_attachment, attachment_room}
use little_love.Server.Rooms.Queries.{is_member}
use little_love.Server.World.{
  Env, Act, ◌>>=◌, ◌>>◌, pure, gets, query, execute, fail, send_frame, draw_ulid,
}
use little_love.Server.Ws.Guards.{need_member, or_internal, result_or, check}

abbrev pub max_attachment_bytes : ℕ
max_attachment_bytes = 256 * 1024 * 1024

-- Ten minutes, in milliseconds.
abbrev pub presign_ttl : ℕ
presign_ttl = 600000

-- The size of an upload that is allowed, as a natural number.
unfoldable pub upload_size : ℤ → Option ℕ
upload_size (negsuc n) = none
upload_size (pos zero) = none
upload_size (pos (suc n)) = if leb (suc n) max_attachment_bytes then some (suc n) else none

unfoldable pub need_r2 : ℕ → Act (Unit {0})
unfolding ◌>>=◌ gets check
need_r2 tx = do ready ← gets (λ w. w.store && w.r2); check ready tx r2_unavailable ""

unfoldable pub need_size : Option ℕ → ℕ → Act ℕ
unfolding pure fail
need_size (some n) tx = pure n
need_size none tx = fail tx blob_too_large ""

unfoldable pub handle_request_upload :
    Env → AccountRecord → String → String → ℤ → ℕ → Act (Unit {0})
unfolding ◌>>=◌ gets execute send_frame draw_ulid insert_attachment need_member or_internal
    upload_size need_r2 need_size
handle_request_upload env me request_id room_id byte_size tx = do
  need_r2 tx
  size ← need_size (upload_size byte_size) tx
  need_member me room_id tx
  blob_key ← draw_ulid env
  stored ← execute (insert_attachment blob_key room_id me.id size)
  or_internal tx stored
  now ← gets (λ w. w.now)
  send_frame tx (upload_granted request_id blob_key (env.presign_put blob_key) (now + presign_ttl))

unfoldable pub need_blob : Option String → ℕ → Act String
unfolding pure fail
need_blob (some room_id) tx = pure room_id
need_blob none tx = fail tx unknown_blob ""

-- Whoever is not in the blob's room learns nothing about it.
unfoldable pub handle_request_download : Env → AccountRecord → String → ℕ → Act (Unit {0})
unfolding ◌>>=◌ gets query send_frame is_member attachment_room or_internal check need_r2 need_blob
handle_request_download env me blob_key tx = do
  need_r2 tx
  answer ← query (attachment_room blob_key)
  room ← or_internal tx answer
  room_id ← need_blob room tx
  member ← query (is_member room_id me.id)
  check (result_or false member) tx unknown_blob ""
  now ← gets (λ w. w.now)
  send_frame tx (download_granted blob_key (env.presign_get blob_key) (now + presign_ttl))
