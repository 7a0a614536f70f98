-- ===== src/Server/Routing.antt =====
-- server/src/routing.rs: the open sessions of each user. A session's channel is a number
-- (`same_channel` compares the numbers), and `open` says which channels still have their receiver.
pub mod Sessions
use little_love.Prelude.{
  ℕ, suc, String, Bool, not, Option, none, some, List, [], ◌∷◌, ◌++◌, nat_eq, string_Eq, retain,
  is_empty, if◌then◌else◌,
}
use little_love.Server.HashMap
use little_love.Server.HashMap.{HashMap, or_default}

abbrev pub Routing : Type 0
Routing = HashMap String (List ℕ)

abbrev pub new : Routing
new = HashMap.empty

unfoldable pub register : Routing → String → ℕ → Routing
register r username sender = HashMap.insert r username (or_default (r username) ++ sender ∷ [])

unfoldable pub unregister : Routing → String → ℕ → Routing
unregister r username sender = elim (r username) [
  | some senders ↦
      let left = retain (λ s. not (nat_eq s sender)) senders in
      if is_empty left then HashMap.remove r username else HashMap.insert r username left
  | none ↦ r
]

unfoldable pub is_online : Routing → String → Bool
is_online r username = HashMap.contains_key r username

module _ {ℓ} {Frame : Type ℓ} where
  -- The frames that the open channels among `senders` accept, and their number.
  unfoldable pub send_all : (ℕ → Bool) → List ℕ → Frame → ℕ × List (ℕ × Frame)
  send_all open_rx [] frame = (0, [])
  send_all open_rx (tx ∷ senders) frame =
      let (delivered, queued) = send_all open_rx senders frame in
      if open_rx tx then (suc delivered, (tx, frame) ∷ queued) else (delivered, queued)

  unfoldable pub deliver : Routing → (ℕ → Bool) → String → Frame → ℕ × List (ℕ × Frame)
  unfolding send_all
  deliver r open_rx username frame = elim (r username) [
    | none ↦ (0, [])
    | some senders ↦ send_all open_rx senders frame
  ]
