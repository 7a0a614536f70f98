-- ===== src/Server/Ws/Handshake.antt =====
-- server/src/ws.rs: `handshake`. A first message that is no identify frame is `none`; the answer `stop`
-- is the close with code 4001. The nonce is the challenge that was sent.
pub mod Verified
use little_love.Prelude.{ℕ, String, Bool, true, false, Option, none, some, List, if◌then◌else◌}
use little_love.Crypto.Sig.{verify_signature}
use little_love.Server.Db.{Db, Result, ok, err}
use little_love.Server.Accounts.{AccountRecord, lookup_ed25519_pub, lookup_full_account}
use little_love.Server.World.{World, Env, Act, ◌>>=◌, ◌>>◌, pure, stop, query}
use little_love.Server.Ws.Guards.{need_store_quietly, some_or_stop, found}
use little_love.Server.Ws.Pairing.{is_verified}

pub record IdentifyPayload : Type 0 where
  pub username : String
  pub signature : String

unfoldable pub handshake : Env → List ℕ → Option IdentifyPayload → Act AccountRecord
unfolding ◌>>=◌ pure stop query lookup_ed25519_pub lookup_full_account verify_signature
    need_store_quietly some_or_stop
handshake env nonce first = do
  identify ← some_or_stop first
  need_store_quietly
  key_answer ← query (lookup_ed25519_pub identify.username)
  pub_key ← some_or_stop (found key_answer)
  sig_bytes ← some_or_stop (env.b64_decode identify.signature)
  if is_verified (verify_signature env.ed25519 pub_key nonce sig_bytes)
      then (do answer ← query (lookup_full_account identify.username); some_or_stop (found answer))
      else stop
