-- ===== src/Server/World.antt =====
-- What a handler of server/src/ws.rs reads and changes: the shared `AppState`, the tables behind it,
-- the frames queued for each session, the clock, and what chance and the outside decide. The code that
-- is not the repository's is `Env`.
pub mod Triples
use little_love.Prelude.{
  ℕ, suc, ◌+◌, String, Bool, true, false, ◌&&◌, Option, none, some, List, [], ◌∷◌, ◌++◌,
  if◌then◌else◌,
}
use little_love.Crypto.Invite.{UnicodeText, generate_invite}
use little_love.Crypto.Sig.{Ed25519}
use little_love.Server.Db.{Db, Result, ok, err, io}
use little_love.Server.Wire.{RoomServerFrame, ErrorCode, error, IceServers}
use little_love.Server.Calls.{PendingCalls}
use little_love.Server.Routing.{Routing, deliver}

pub data PushKind : Type 0 where
  alert voip : PushKind

pub record PushMessage : Type 0 where
  pub token : String
  pub environment : String
  pub room_id : String
  pub badge : ℕ
  pub push_type : PushKind
  pub call_id : Option String
  pub video : Bool

pub data SendOutcome : Type 0 where
  delivered drop_token transient : SendOutcome

-- Third-party code and the outside world.
pub record Env : Type 0 where
  -- the database's order of texts
  pub text_lt : String → String → Bool
  -- the base64 crate, standard alphabet
  pub b64_encode : List ℕ → String
  pub b64_decode : String → Option (List ℕ)
  -- Rust's Unicode tables, the hash and the curve
  pub unicode : UnicodeText
  pub sha256 : List ℕ → List ℕ
  pub ed25519 : Ed25519
  -- the n-th ULID, and the eight random bytes of the n-th invite
  pub ulid : ℕ → String
  pub random : ℕ → List ℕ
  pub qr_png_base64 : List ℕ → Option String
  pub presign_put : String → String
  pub presign_get : String → String
  -- APNs' answer to the n-th push, and the TURN provider's to the n-th request
  pub push_outcome : ℕ → PushMessage → SendOutcome
  pub ice_servers : ℕ → Option IceServers

-- A task that a handler spawned: `notify_recipient` for an account and a room.
pub record Task : Type 0 where
  pub recipient_account_id : ℕ
  pub room_id : String

pub record World : Type 0 where
  pub db : Db
  -- `state.store`, `state.r2`, `state.push`, `state.turn`: whether each is configured
  pub store : Bool
  pub r2 : Bool
  pub push : Bool
  pub turn : Bool
  pub routing : Routing
  pub pending_calls : PendingCalls
  -- the channels whose receiver is still there
  pub open_rx : ℕ → Bool
  -- every frame queued so far and its channel, oldest first
  pub queued : List (ℕ × RoomServerFrame)
  pub tasks : List Task
  pub pushes : List PushMessage
  pub now : ℕ
  -- how many ULIDs, invites and TURN answers have been drawn
  pub ulids : ℕ
  pub invites_drawn : ℕ
  pub turn_requests : ℕ
  -- the failures to come: whether each next database call fails; none fails once it is used up
  pub faults : List Bool

-- A handler's action. `none` is an early return.
abbrev pub Act : Type 0 → Type 0
Act A = World → Option A × World

module _ {A B : Type 0} where
  abbrev pub continue : Option A → (A → Act B) → Act B
  continue none f w = (none, w)
  continue (some a) f w = f a w

  infixl 5 ◌>>=◌ ◌>>◌
  unfoldable pub ◌>>=◌ : Act A → (A → Act B) → Act B
  ◌>>=◌ m f w = let (r, w') = m w in continue r f w'

  abbrev pub ◌>>◌ : Act A → Act B → Act B
  m >> n = m >>= λ _. n

  -- `if let Some(a) = …`, with what happens otherwise.
  unfoldable pub match_some : Option A → Act B → (A → Act B) → Act B
  match_some none otherwise f = otherwise
  match_some (some a) otherwise f = f a

module _ {A : Type 0} where
  unfoldable pub pure : A → Act A
  pure a w = (some a, w)

  -- `return` from the handler
  unfoldable pub stop : Act A
  stop w = (none, w)

  unfoldable pub gets : (World → A) → Act A
  gets f w = (some (f w), w)

  -- A query or a transaction as the handlers call it. When the database fails it has no effect.
  unfoldable pub call_db : List Bool → (Db → Result A × Db) → Act (Result A)
  call_db [] f w = (some (f w.db).0, record w { db = (f w.db).1 })
  call_db (true ∷ later) f w = (some (err io), record w { faults = later })
  call_db (false ∷ later) f w = (some (f w.db).0, record w { db = (f w.db).1; faults = later })

  unfoldable pub execute : (Db → Result A × Db) → Act (Result A)
  unfolding call_db
  execute f w = call_db w.faults f w

  unfoldable pub query : (Db → A) → Act (Result A)
  unfolding execute
  query f = execute (λ db. (ok (f db), db))

  -- A statement with `RETURNING`, and a transaction with errors of its own.
  unfoldable pub returning : (Db → A × Db) → Act (Result A)
  unfolding execute
  returning f = execute (λ db. (ok (f db).0, (f db).1))

unfoldable pub update : (Db → Db) → Act (Result (Unit {0}))
unfolding execute
update f = execute (λ db. (ok tt, f db))

abbrev pub committed : Result Db → Db → Result (Unit {0}) × Db
committed (ok after) db = (ok tt, after)
committed (err e) db = (err e, db)

unfoldable pub commit : (Db → Result Db) → Act (Result (Unit {0}))
unfolding execute
commit f = execute (λ db. committed (f db) db)

-- `let _ = tx.send(frame)`
unfoldable pub send_frame : ℕ → RoomServerFrame → Act (Unit {0})
send_frame tx frame w =
    (some tt, record w { queued = w.queued ++ (if w.open_rx tx then (tx, frame) ∷ [] else []) })

unfoldable pub send_error : ℕ → ErrorCode → String → Act (Unit {0})
unfolding send_frame
send_error tx code message = send_frame tx (error code message)

-- `state.routing.deliver(username, frame)`
unfoldable pub deliver_to : String → RoomServerFrame → Act (Unit {0})
deliver_to username frame w =
    (some tt, record w { queued = w.queued ++ (deliver w.routing w.open_rx username frame).1 })

-- An error frame, then `return`.
unfoldable pub fail : {A : Type 0} → ℕ → ErrorCode → String → Act A
unfolding send_error ◌>>=◌ stop
fail tx code message = do send_error tx code message; stop

unfoldable pub draw_ulid : Env → Act String
draw_ulid env w = (some (env.ulid w.ulids), record w { ulids = suc w.ulids })

-- `generate_invite()`: the canonical token, its code and its hash.
unfoldable pub draw_invite : Env → Act (List ℕ × List ℕ × List ℕ)
draw_invite env w = (
  some (generate_invite (env.random w.invites_drawn) env.sha256),
  record w { invites_drawn = suc w.invites_drawn },
)

-- The rest of a loop's body is skipped by `continue`, which ends that round only.
unfoldable pub for_each {ℓ} : {A : Type ℓ} → List A → (A → Act (Unit {0})) → Act (Unit {0})
unfolding pure ◌>>=◌
for_each [] f = pure tt
for_each (a ∷ rest) f = do f a; for_each rest f
