-- ===== src/Server/Tests.antt =====
-- Examples: each theorem applied where its hypotheses hold.
mod Operations
mod Sending
use little_love.Prelude.{
  String, Bool, ltb, Has, Has-append_left, Has-append_right, none, All, ℕ, ◌+◌, ◌≡◌, ◌≢◌, ◌≤◌, ◌↔◌,
  refl, true, false, List, [], ◌∷◌, ◌++◌, some, any, map, retain, length, ◌==◌, nat_Eq, string_Eq,
  arith, if◌then◌else◌,
}
use little_love.Crypto.Wordlist.{bip39_en}
use little_love.Crypto.Invite.{generate_invite, canonical_token_from_n44}
use little_love.Crypto.Sig.{verified, verify_signature, challenge_domain_tag}
use little_love.Server.Db.{Db, DbError, ok, err, foreign_key_violation}
use little_love.Server.Accounts.{lookup_ed25519_pub, lookup_full_account}
use little_love.Server.Calls
use little_love.Server.Calls.{Pending, take_for, expire_due, insert}
use little_love.Server.Calls.Refinement.{run-eq-spec_run}
use little_love.Server.Calls.Sweep.{run-expire_due}
use little_love.Server.Calls.Refinement as Registry
use little_love.Server.RateLimit.{new}
use little_love.Server.RateLimit.Window.{
  decisions, spec_decisions, decisions-eq-spec, in_window, accepted_times, window_bound,
}
use little_love.Server.Routing
use little_love.Server.Routing.{is_online, deliver}
use little_love.Server.Routing.Sessions as Sessions
use little_love.Server.Routing.Sessions.{
  registers, unregisters, sessions_of, spec_run, is_online-run, deliver-run,
}
use little_love.Server.Rooms.Queries.{is_member, partner_account_id_for}
use little_love.Server.Rooms.Links.{IsMonogamous}
use little_love.Server.Rooms.Pairing.{paired, set_partner_link}
use little_love.Server.Rooms.Monogamy.{
  MayPair, set_partner_link_iff, set_partner_link_effect, set_partner_link-IsMonogamous,
}
use little_love.Server.Rooms.Mutations.{LeaveOutcome, leave_room}
use little_love.Server.Rooms.Leaving.{IsAlone, HoldsMessage, leave_room_cases}
use little_love.Server.Store.{messages_for_recipient, mark_read, unread_count}
use little_love.Server.Invites.{create_invite_record}
use little_love.Server.Invites.Revocation.{
  row, open_invite_of, of_others, create_invite_record_effect,
}
use little_love.Server.Store.Marks.{mark_read_again, unread_count-mark_read}
use little_love.Server.Couples.Reachable.{reached-IsMonogamous, room_members_are_partners}
use little_love.Server.Couples.Privacy.{IsFromPartner, replay_is_private}
use little_love.Server.Ws.Handshake.{handshake}
use little_love.Server.Ws.Handshake.Verified.{handshake-verified}
use little_love.Server.Accounts.{AccountRecord}
use little_love.Server.Wire
use little_love.Server.World.{World}
use little_love.Server.Ws.Calls.{handle_call_invite, deliver_pending_calls}
use little_love.Server.Ws.Calls.Delivery.{call_invite_arrives}
use little_love.Server.Store.{insert_many}
use little_love.Server.Rooms.Queries.{members_for_room}
use little_love.Server.Ws.Sending.Storing.{all_rows}
use little_love.Server.System.{run, reached}
use little_love.Server.Scenario.{env, world, pairing, writing, full_room, ana}

room_members_are_partners_example : partner_account_id_for 1 (reached env pairing world) ≡ some 2
unfolding is_member run bip39_en generate_invite canonical_token_from_n44
room_members_are_partners_example =
    room_members_are_partners env pairing world "room" 1 2 refl refl (λ e. cc e)

reached-IsMonogamous_example : IsMonogamous (reached env pairing world)
reached-IsMonogamous_example = reached-IsMonogamous env pairing world

set_partner_link_iff_example :
    ((set_partner_link 1 2 (reached env pairing world)).0 ≡ paired)
    ↔ MayPair 1 2 (reached env pairing world)
set_partner_link_iff_example =
    set_partner_link_iff 1 2 (reached env pairing world) (reached-IsMonogamous env pairing world)

set_partner_link_effect_example :
    ((set_partner_link 1 2 (reached env pairing world)).0 ≡ paired
      → (j : ℕ)
      → partner_account_id_for j (set_partner_link 1 2 (reached env pairing world)).1 ≡ (
          if 1 == j
          then some 2
          else if 2 == j
          then some 1
          else partner_account_id_for j (reached env pairing world)))
    × ((set_partner_link 1 2 (reached env pairing world)).0 ≢ paired
        → (set_partner_link 1 2 (reached env pairing world)).1 ≡ reached env pairing world)
set_partner_link_effect_example =
    set_partner_link_effect 1 2 (reached env pairing world) (reached-IsMonogamous env pairing world)

set_partner_link-IsMonogamous_example :
    IsMonogamous (set_partner_link 1 2 (reached env pairing world)).1
set_partner_link-IsMonogamous_example =
    set_partner_link-IsMonogamous 1 2 (reached env pairing world)
      (reached-IsMonogamous env pairing world)

leave_room_cases_example :
    (((leave_room "room" 1 full_room).0 ≡ err foreign_key_violation)
      ↔ (IsAlone "room" 1 full_room × HoldsMessage "room" full_room))
    × ((e : DbError)
        → (leave_room "room" 1 full_room).0 ≡ err e
        → leave_room "room" 1 full_room ≡ (err foreign_key_violation, full_room))
    × ((o : LeaveOutcome)
        → (leave_room "room" 1 full_room).0 ≡ ok o
        → is_member "room" 1 (leave_room "room" 1 full_room).1 ≡ false)
leave_room_cases_example = leave_room_cases "room" 1 full_room

mark_read_again_example :
    mark_read env.text_lt "room" 2 "m1" 9 (mark_read env.text_lt "room" 2 "m1" 8 full_room).1
    ≡ ([], (mark_read env.text_lt "room" 2 "m1" 8 full_room).1)
mark_read_again_example = mark_read_again env.text_lt "room" 2 "m1" 8 9 full_room

unread_count-mark_read_example :
    unread_count 2 (mark_read env.text_lt "room" 2 "m1" 8 full_room).1
      + length (mark_read env.text_lt "room" 2 "m1" 8 full_room).0
    ≡ unread_count 2 full_room
unread_count-mark_read_example = unread_count-mark_read env.text_lt "room" 2 "m1" 8 full_room

handshake-verified_example :
    (key sig : List ℕ) × (lookup_ed25519_pub "ana" full_room ≡ some key)
    × (env.b64_decode "sig" ≡ some sig)
    × (verify_signature env.ed25519 key [] sig ≡ verified)
    × (lookup_full_account "ana" full_room ≡ some ana)
    × (length key ≡ 32)
    × (length sig ≡ 64)
    × (env.ed25519.valid_key key ≡ true)
    × (env.ed25519.verify_strict key (challenge_domain_tag ++ (0 ∷ [])) sig ≡ true)
unfolding handshake
handshake-verified_example =
    handshake-verified env [] (record { username = "ana"; signature = "sig" })
      (record world { db = full_room }) ana refl refl

run-eq-spec_run_example :
    Registry.run Calls.new (Registry.expires 3 ∷ Registry.takes 1 4 ∷ [])
    ≡ Registry.spec_run [] (Registry.expires 3 ∷ Registry.takes 1 4 ∷ [])
run-eq-spec_run_example =
    run-eq-spec_run Calls.new [] (Registry.expires 3 ∷ Registry.takes 1 4 ∷ []) (λ j. refl)

abbrev ringing : Pending
ringing = record {
  call_id = "c";
  room_id = "room";
  from = "ana";
  offer = "o";
  video = false;
  expires_at = 45000;
}

run-expire_due_example :
    Registry.run
      (expire_due (insert Calls.new 2 ringing) 5)
      (Registry.takes 2 9 ∷ Registry.takes 2 10 ∷ [])
    ≡ Registry.run (insert Calls.new 2 ringing) (Registry.takes 2 9 ∷ Registry.takes 2 10 ∷ [])
run-expire_due_example =
    run-expire_due (insert Calls.new 2 ringing) 5 (Registry.takes 2 9 ∷ Registry.takes 2 10 ∷ [])
      (omega arith, (omega arith, tt))

decisions-eq-spec_example :
    decisions (new 10 2) (1 ∷ 2 ∷ 3 ∷ 20 ∷ []) ≡ spec_decisions 10 2 [] (1 ∷ 2 ∷ 3 ∷ 20 ∷ [])
decisions-eq-spec_example =
    decisions-eq-spec 10 2 (1 ∷ 2 ∷ 3 ∷ 20 ∷ [])
      (omega arith, (omega arith, (omega arith, (omega arith, tt))))

window_bound_example : in_window 1 10 (accepted_times (new 10 2) (1 ∷ 2 ∷ 3 ∷ 20 ∷ [])) ≤ 2
window_bound_example =
    window_bound 1 10 2 (1 ∷ 2 ∷ 3 ∷ 20 ∷ [])
      (omega arith, (omega arith, (omega arith, (omega arith, tt))))

abbrev sessions : List Sessions.Op
sessions = registers "ana" 1 ∷ registers "ana" 2 ∷ unregisters "ana" 1 ∷ []

is_online-run_example :
    is_online (Sessions.run Routing.new sessions) "ana"
    ≡ any (λ s. s.0 == "ana") (spec_run [] sessions)
is_online-run_example = is_online-run sessions "ana"

deliver-run_example : deliver (Sessions.run Routing.new sessions) (λ c. true) "ana" true ≡ (
  length (retain (λ c. true) (sessions_of (spec_run [] sessions) "ana")),
  map (λ tx. (tx, true)) (retain (λ c. true) (sessions_of (spec_run [] sessions) "ana")),
)
deliver-run_example = deliver-run sessions (λ c. true) "ana" true

create_invite_record_effect_example :
    let (answer, after) = create_invite_record 1 [] 9 none full_room in
    (answer ≡ ok tt
      → (retain (open_invite_of 1) after.invites ≡ row 1 [] 9 none ∷ [])
        × (retain (of_others 1) after.invites ≡ retain (of_others 1) full_room.invites))
    × (answer ≢ ok tt → after ≡ full_room)
create_invite_record_effect_example = create_invite_record_effect 1 [] 9 none full_room

-- An order of texts that puts m1 before m2 and all others before both.
abbrev rank : String → ℕ
rank s = if s == "m1" then 1 else if s == "m2" then 2 else 0

abbrev by_rank : String → String → Bool
by_rank a b = ltb (rank a) (rank b)

abbrev two_messages : Db
two_messages = record full_room {
  messages =
      record {
        id = "m2";
        room_id = "room";
        from_account_id = 1;
        recipient_account_id = 2;
        body = "you";
        ts = 6;
        read_at = none;
      }
      ∷ full_room.messages;
}

replay_is_private_example :
    All
      (λ row. IsFromPartner (reached env writing world) 2 row.from_account_id)
      (messages_for_recipient env.text_lt "room" 2 none (reached env writing world))
replay_is_private_example = replay_is_private env writing world "room" 2 none

-- Ana rings, the registry is swept, and Ben connects a second later.
abbrev ringing_world : World
ringing_world = record world { db = reached env pairing world }

abbrev later : World
later = record world {
  pending_calls =
      expire_due (handle_call_invite env ana "room" "c" "o" false ringing_world).1.pending_calls
        500;
  open_rx = λ c. true;
  now = 1000;
}

abbrev ben : AccountRecord
ben = record ana { id = 2; username = "ben" }

call_invite_arrives_example :
    Has
      (2, Wire.RoomServerFrame.call_invite "room" "c" "ana" "o" false)
      (deliver_pending_calls ben 2 later).1.queued
unfolding is_member run bip39_en generate_invite canonical_token_from_n44 Registry.step
call_invite_arrives_example =
    call_invite_arrives env ana ben "room" "c" "o" "ben" false ringing_world later
      (Registry.expires 500 ∷ []) 2 refl refl refl refl refl (omega arith, tt) refl (omega arith)
      refl
