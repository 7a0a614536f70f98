-- ===== src/Server/Routing/Sessions.antt =====
-- The routing table against the list of open sessions: after any registrations and removals a user is
-- online exactly when a session of theirs is open, and a frame reaches each of their sessions once.
use little_love.Prelude.{
  ℕ, String, ◌≡◌, refl, Bool, not, ◌&&◌, Option, none, some, List, [], ◌∷◌, ◌++◌, arith, nat_eq,
  ◌==◌, string_Eq, eq_iff, retain, any, length, is_empty, map, if◌then◌else◌,
}
use little_love.Server.Routing.{Routing, new, register, unregister, is_online, send_all, deliver}

pub data Op : Type 0 where
  registers : String → ℕ → Op
  unregisters : String → ℕ → Op

pub step : Routing → Op → Routing
step r (registers username sender) = register r username sender
step r (unregisters username sender) = unregister r username sender

pub run : Routing → List Op → Routing
run r [] = r
run r (op ∷ ops) = run (step r op) ops

-- The specification: the open sessions, oldest first, each with its user.
abbrev pub Sessions : Type 0
Sessions = List (String × ℕ)

pub spec_step : Sessions → Op → Sessions
spec_step ss (registers username sender) = ss ++ (username, sender) ∷ []
spec_step ss (unregisters username sender) =
    retain (λ s. not (s.0 == username && nat_eq s.1 sender)) ss

pub spec_run : Sessions → List Op → Sessions
spec_run ss [] = ss
spec_run ss (op ∷ ops) = spec_run (spec_step ss op) ops

-- The channels of one user's sessions.
abbrev pub sessions_of : Sessions → String → List ℕ
sessions_of ss user = map (λ s. s.1) (retain (λ s. s.0 == user) ss)

-- The table holds each user's sessions, and no entry for a user who has none.
abbrev entry_of : List ℕ → Option (List ℕ)
entry_of senders = if is_empty senders then none else some senders

abbrev pub Refines : Routing → Sessions → Type 0
Refines r ss = (user : String) → r user ≡ entry_of (sessions_of ss user)

sessions_of-append :
    (ss : Sessions) (username user : String) (sender : ℕ)
    → sessions_of (ss ++ (username, sender) ∷ []) user
      ≡ (if username == user then sessions_of ss user ++ sender ∷ [] else sessions_of ss user)
sessions_of-append [] username user sender = ground arith
sessions_of-append (s ∷ ss) username user sender =
    ground (arith, sessions_of-append ss username user sender)

sessions_of-unregister :
    (ss : Sessions) (username user : String) (sender : ℕ)
    → sessions_of (retain (λ s. not (s.0 == username && nat_eq s.1 sender)) ss) user ≡ (
        if username == user
        then retain (λ s. not (nat_eq s sender)) (sessions_of ss user)
        else sessions_of ss user)
sessions_of-unregister [] username user sender = ground arith
sessions_of-unregister (s ∷ ss) username user sender = ground (
  arith,
  eq_iff username user,
  eq_iff s.0 user,
  eq_iff s.0 username,
  sessions_of-unregister ss username user sender,
)

step-Refines :
    (r : Routing) (ss : Sessions) (op : Op) → Refines r ss → Refines (step r op) (spec_step ss op)
unfolding step spec_step register unregister
step-Refines r ss (registers username sender) h user =
    ground
      (arith, h username, h user, eq_iff username user, sessions_of-append ss username user sender)
step-Refines r ss (unregisters username sender) h user = ground (
  arith,
  h username,
  h user,
  eq_iff username user,
  sessions_of-unregister ss username user sender,
)

run-Refines :
    (r : Routing) (ss : Sessions) (ops : List Op)
    → Refines r ss
    → Refines (run r ops) (spec_run ss ops)
unfolding run spec_run
run-Refines r ss [] h = h
run-Refines r ss (op ∷ ops) h =
    run-Refines (step r op) (spec_step ss op) ops (step-Refines r ss op h)

any-eq-not-is_empty :
    (ss : Sessions) (user : String)
    → any (λ s. s.0 == user) ss ≡ not (is_empty (sessions_of ss user))
any-eq-not-is_empty [] user = refl
any-eq-not-is_empty (s ∷ ss) user = ground (arith, any-eq-not-is_empty ss user)

-- After any registrations and removals a user is online exactly when the list of open sessions has
-- one of theirs.
pub is_online-run :
    (ops : List Op) (user : String)
    → is_online (run new ops) user ≡ any (λ s. s.0 == user) (spec_run [] ops)
unfolding is_online
is_online-run ops user =
    ground
      (arith, run-Refines new [] ops (λ u. refl) user, any-eq-not-is_empty (spec_run [] ops) user)

module _ {ℓ} {Frame : Type ℓ} where
  send_all-eq-map :
      (open_rx : ℕ → Bool) (senders : List ℕ) (frame : Frame)
      → send_all open_rx senders frame
        ≡ (length (retain open_rx senders), map (λ tx. (tx, frame)) (retain open_rx senders))
  unfolding send_all
  send_all-eq-map open_rx [] frame = refl
  send_all-eq-map open_rx (tx ∷ senders) frame =
      ground (arith, send_all-eq-map open_rx senders frame)

  -- After any registrations and removals, a frame for a user is queued once for each of their open
  -- sessions whose receiver lives, in order, for nobody else, and the count returned is their number.
  pub deliver-run :
      (ops : List Op) (open_rx : ℕ → Bool) (user : String) (frame : Frame)
      → deliver (run new ops) open_rx user frame ≡ (
        length (retain open_rx (sessions_of (spec_run [] ops) user)),
        map (λ tx. (tx, frame)) (retain open_rx (sessions_of (spec_run [] ops) user)),
      )
  unfolding deliver
  deliver-run ops open_rx user frame = ground (
    arith,
    run-Refines new [] ops (λ u. refl) user,
    send_all-eq-map open_rx (sessions_of (spec_run [] ops) user) frame,
  )
