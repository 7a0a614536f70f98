-- ===== src/Server/Keeping/Contents.antt =====
-- The handlers of server/src/ws.rs for attachments, profiles, push tokens and names.
use little_love.Prelude.{ℕ, String, Option, none, some, List, nat_Eq, string_Eq}
use little_love.Server.Accounts.{AccountRecord}
use little_love.Server.Ledgers.{insert_attachment, upsert_profile, upsert_token, delete_token}
use little_love.Server.Wire.{ℤ}
use little_love.Server.Rooms.Mutations.{rename_room, leave_room}
use little_love.Server.World.{Env, update, execute, commit}
use little_love.Server.World.Triples.{Keeps-update, Keeps-commit, Keeps-execute, Keeps-pure}
use little_love.Server.Ws.Guards.Keeping.{guard_rules}
use little_love.Server.Ws.Profiles.{
  envelope_bytes, handle_publish_profile, register_push, unregister_push,
}
use little_love.Server.Ws.Uploads.{
  need_r2, need_size, handle_request_upload, need_blob, handle_request_download,
}
use little_love.Server.Ws.Rooms.{handle_rename_room, handle_leave_room}
use little_love.Server.Db.{Db}
use little_love.Server.World.Triples.{Keeps}
use little_love.Server.Keeping.{Quiet}

module _ {P : Db → Type 0} (q : Quiet P) where
  insert_attachment-Keeps :
      (blob_key room_id : String) (uploader size : ℕ)
      → Keeps P (execute (insert_attachment blob_key room_id uploader size))
  insert_attachment-Keeps blob_key room_id uploader size =
      Keeps-execute (insert_attachment blob_key room_id uploader size)
        (q.attaches blob_key room_id uploader size)

  need_r2-Keeps : (tx : ℕ) → Keeps P (need_r2 tx)
  unfolding need_r2
  need_r2-Keeps tx = search guard_rules depth 20

  need_size-Keeps : (o : Option ℕ) (tx : ℕ) → Keeps P (need_size o tx)
  unfolding need_size
  need_size-Keeps (some n) tx = Keeps-pure n
  need_size-Keeps none tx = search guard_rules

  need_blob-Keeps : (o : Option String) (tx : ℕ) → Keeps P (need_blob o tx)
  unfolding need_blob
  need_blob-Keeps (some r) tx = Keeps-pure r
  need_blob-Keeps none tx = search guard_rules

  pub handle_request_upload-Keeps :
      (env : Env) (me : AccountRecord) (request_id room_id : String) (size : ℤ) (tx : ℕ)
      → Keeps P (handle_request_upload env me request_id room_id size tx)
  unfolding handle_request_upload
  handle_request_upload-Keeps env me request_id room_id size tx =
      search (guard_rules, insert_attachment-Keeps, need_r2-Keeps, need_size-Keeps) depth 20

  pub handle_request_download-Keeps :
      (env : Env) (me : AccountRecord) (blob_key : String) (tx : ℕ)
      → Keeps P (handle_request_download env me blob_key tx)
  unfolding handle_request_download
  handle_request_download-Keeps env me blob_key tx =
      search (guard_rules, need_r2-Keeps, need_blob-Keeps) depth 20

  upsert_profile-Keeps :
      (id : ℕ) (envelope : List ℕ) (avatar : Option String) (now : ℕ)
      → Keeps P (execute (upsert_profile id envelope avatar now))
  upsert_profile-Keeps id envelope avatar now =
      Keeps-execute (upsert_profile id envelope avatar now) (q.profiles id envelope avatar now)

  envelope_bytes-Keeps : (o : Option (List ℕ)) (tx : ℕ) → Keeps P (envelope_bytes o tx)
  unfolding envelope_bytes
  envelope_bytes-Keeps (some b) tx = Keeps-pure b
  envelope_bytes-Keeps none tx = search guard_rules

  pub handle_publish_profile-Keeps :
      (env : Env) (me : AccountRecord) (envelope : String) (avatar : Option String) (tx : ℕ)
      → Keeps P (handle_publish_profile env me envelope avatar tx)
  unfolding handle_publish_profile
  handle_publish_profile-Keeps env me envelope avatar tx =
      search (guard_rules, upsert_profile-Keeps, envelope_bytes-Keeps) depth 20

  upsert_token-Keeps :
      (id : ℕ) (device token environment kind : String)
      → Keeps P (execute (upsert_token id device token environment kind))
  upsert_token-Keeps id device token environment kind =
      Keeps-execute (upsert_token id device token environment kind)
        (q.tokens id device token environment kind)

  pub register_push-Keeps :
      (me : AccountRecord) (device token environment kind : String)
      → Keeps P (register_push me device token environment kind)
  unfolding register_push
  register_push-Keeps me device token environment kind =
      search (guard_rules, upsert_token-Keeps) depth 20

  delete_token-Keeps : (id : ℕ) (device : String) → Keeps P (update (delete_token id device))
  delete_token-Keeps id device = Keeps-update (delete_token id device) (q.devices id device)

  pub unregister_push-Keeps :
      (me : AccountRecord) (device : String) → Keeps P (unregister_push me device)
  unfolding unregister_push
  unregister_push-Keeps me device = search (guard_rules, delete_token-Keeps) depth 20

  rename-Keeps : (room_id name : String) → Keeps P (commit (rename_room room_id name))
  rename-Keeps room_id name = Keeps-commit (rename_room room_id name) (q.renames room_id name)

  pub handle_rename_room-Keeps :
      (me : AccountRecord) (room_id name : String) (tx : ℕ)
      → Keeps P (handle_rename_room me room_id name tx)
  unfolding handle_rename_room
  handle_rename_room-Keeps me room_id name tx = search (guard_rules, rename-Keeps) depth 20

  leave-Keeps : (room_id : String) (a : ℕ) → Keeps P (execute (leave_room room_id a))
  leave-Keeps room_id a = Keeps-execute (leave_room room_id a) (q.leaves room_id a)

  pub handle_leave_room-Keeps :
      (me : AccountRecord) (room_id : String) (tx : ℕ) → Keeps P (handle_leave_room me room_id tx)
  unfolding handle_leave_room
  handle_leave_room-Keeps me room_id tx = search (guard_rules, leave-Keeps) depth 20
