-- ===== src/Server/Ws/Profiles.antt =====
-- server/src/ws.rs: `handle_publish_profile`, and the two frames that keep push tokens.
use little_love.Prelude.{ℕ, String, Option, none, some, List}
use little_love.Server.Accounts.{AccountRecord}
use little_love.Server.Wire.{profile, bad_code}
use little_love.Server.Ledgers.{upsert_profile, upsert_token, delete_token}
use little_love.Server.Rooms.Queries.{partner_username_for}
use little_love.Server.World.{
  Env, Act, ◌>>=◌, ◌>>◌, pure, gets, query, execute, update, fail, deliver_to,
}
use little_love.Server.Ws.Guards.{need_store_quietly, or_internal, some_or_stop, found}

unfoldable pub envelope_bytes : Option (List ℕ) → ℕ → Act (List ℕ)
unfolding pure fail
envelope_bytes (some bytes) tx = pure bytes
envelope_bytes none tx = fail tx bad_code ""

unfoldable pub handle_publish_profile :
    Env → AccountRecord → String → Option String → ℕ → Act (Unit {0})
unfolding ◌>>=◌ gets query execute deliver_to upsert_profile partner_username_for need_store_quietly
    or_internal some_or_stop envelope_bytes
handle_publish_profile env me envelope_b64 avatar_key tx = do
  need_store_quietly
  envelope ← envelope_bytes (env.b64_decode envelope_b64) tx
  now ← gets (λ w. w.now)
  stored ← execute (upsert_profile me.id envelope avatar_key now)
  or_internal tx stored
  answer ← query (partner_username_for me.id)
  partner ← some_or_stop (found answer)
  deliver_to partner (profile me.username envelope_b64 avatar_key)

unfoldable pub register_push : AccountRecord → String → String → String → String → Act (Unit {0})
unfolding ◌>>=◌ pure execute upsert_token need_store_quietly
register_push me device_id apns_token environment token_kind = do
  need_store_quietly
  execute (upsert_token me.id device_id apns_token environment token_kind)
  pure tt

unfoldable pub unregister_push : AccountRecord → String → Act (Unit {0})
unfolding ◌>>=◌ pure update delete_token need_store_quietly
unregister_push me device_id = do need_store_quietly; update (delete_token me.id device_id); pure tt
