-- ===== src/Server/Ws/Calls/Holding.antt =====
-- What `handle_call_invite` of server/src/ws.rs leaves in the registry of held calls.
use little_love.Prelude.{
  ℕ, ◌+◌, ◌≡◌, ◌∙◌, refl, ap, inl, inr, String, Bool, true, false, some, List, [], ◌∷◌,
  Option-cases, if◌then◌else◌,
}
use little_love.Server.Accounts.{AccountRecord}
use little_love.Server.Calls.{Pending, pending_ttl, insert, expire_due}
use little_love.Server.Ledgers.{voip_tokens_for, delete_token_value}
use little_love.Server.Db.{Db, Result, ok, err}
use little_love.Server.Wire
use little_love.Server.Wire.{RoomServerFrame}
use little_love.Server.Rooms.Queries.{is_member, partner_account_id_for, partner_username_for}
use little_love.Server.World.{
  World, Env, Act, PushMessage, SendOutcome, delivered, drop_token, transient, ◌>>=◌, ◌>>◌, pure,
  stop, gets, query, execute, call_db, update, deliver_to, for_each,
}
use little_love.Server.Ws.Guards.{need_store_quietly, or_stop, some_or_stop}
use little_love.Server.Ws.Calls.{
  check_room, hold_call, send_push, on_outcome, push_to, notify_call, handle_call_invite,
}
use little_love.Server.Ws.Guards.Runs.{
  Runs, bind-Runs, query-Runs, some_or_stop-Runs, need_store-Runs,
}

-- An action that leaves the held calls alone.
abbrev LeavesCalls : {A : Type 0} → Act A → Type 0
LeavesCalls m = (w : World) → (m w).1.pending_calls ≡ w.pending_calls

bind-calls :
    {A B : Type 0} (m : Act A) (f : A → Act B)
    → LeavesCalls m
    → ((a : A) → LeavesCalls (f a))
    → LeavesCalls (m >>= f)
unfolding ◌>>=◌
bind-calls m f hm hf w = elim (Option-cases (m w).0) [
  | inl e ↦ rw e (hm w)
  | inr (a, e) ↦ rw e (hf a (m w).1 ∙ hm w)
]

call_db-calls :
    {A : Type 0} (faults : List Bool) (f : Db → Result A × Db) → LeavesCalls (call_db faults f)
unfolding call_db
call_db-calls [] f w = refl
call_db-calls (true ∷ later) f w = refl
call_db-calls (false ∷ later) f w = refl

execute-calls : {A : Type 0} (f : Db → Result A × Db) → LeavesCalls (execute f)
unfolding execute
execute-calls f w = call_db-calls w.faults f w

or_stop-calls : {A : Type 0} (r : Result A) → LeavesCalls (or_stop r)
unfolding or_stop pure stop
or_stop-calls (ok a) w = refl
or_stop-calls (err e) w = refl

-- Pushing changes no held call.
on_outcome-calls : (id : ℕ) (token : String) (o : SendOutcome) → LeavesCalls (on_outcome id token o)
unfolding on_outcome pure update
on_outcome-calls id token delivered w = refl
on_outcome-calls id token transient w = refl
on_outcome-calls id token drop_token w =
    bind-calls (update (delete_token_value id token)) (λ _. pure tt)
      (execute-calls (λ db. (ok tt, delete_token_value id token db))) (λ _ w. refl) w

push_to-calls : (env : Env) (id : ℕ) (msg : PushMessage) → LeavesCalls (push_to env id msg)
unfolding push_to send_push
push_to-calls env id msg =
    bind-calls (send_push env msg) (on_outcome id msg.token) (λ w. refl)
      (λ o. on_outcome-calls id msg.token o)

each-calls :
    {A : Type 0} (f : A → Act (Unit {0})) (xs : List A)
    → ((a : A) → LeavesCalls (f a))
    → LeavesCalls (for_each xs f)
unfolding for_each pure
each-calls f [] h w = refl
each-calls f (a ∷ xs) h w = bind-calls (f a) (λ _. for_each xs f) (h a) (λ _. each-calls f xs h) w

notify_call-calls :
    (env : Env) (callee : ℕ) (room_id call_id : String) (video : Bool)
    → LeavesCalls (notify_call env callee room_id call_id video)
unfolding notify_call query
notify_call-calls env callee room_id call_id video =
    bind-calls (query (voip_tokens_for callee)) _
      (execute-calls (λ db. (ok (voip_tokens_for callee db), db)))
      (λ answer.
        bind-calls (or_stop answer) _ (or_stop-calls answer)
          (λ tokens. each-calls _ tokens (λ t. push_to-calls env callee _)))

rung-calls :
    (env : Env) (push : Bool) (callee : ℕ) (room_id call_id : String) (video : Bool)
    → LeavesCalls (if push then notify_call env callee room_id call_id video else pure tt)
unfolding pure
rung-calls env true callee room_id call_id video w =
    notify_call-calls env callee room_id call_id video w
rung-calls env false callee room_id call_id video w = refl

abbrev pub ringing : AccountRecord → String → String → String → Bool → ℕ → Pending
ringing me room_id call_id offer video now = record {
  call_id = call_id;
  room_id = room_id;
  from = me.username;
  offer = offer;
  video = video;
  expires_at = now + pending_ttl;
}

check_room-Runs :
    (me : AccountRecord) (room_id : String) (w : World)
    → w.faults ≡ []
    → is_member room_id me.id w.db ≡ true
    → Runs (check_room me (some room_id)) w tt w
unfolding check_room pure
check_room-Runs me room_id w nf e =
    bind-Runs (query (is_member room_id me.id)) _ w w (ok (is_member room_id me.id w.db))
      (query-Runs (is_member room_id me.id) w nf)
    ∙ rw e refl

-- The frames that a callee's session is sent for the held calls.
abbrev pub invite_frame : Pending → RoomServerFrame
invite_frame p = Wire.RoomServerFrame.call_invite p.room_id p.call_id p.from p.offer p.video

-- The world once the call is held and the partner's sessions have been told.
abbrev told : AccountRecord → String → String → String → Bool → ℕ → String → World → World
told me room_id call_id offer video callee name w =
    let p = ringing me room_id call_id offer video w.now in
    let holding = record w { pending_calls = insert (expire_due w.pending_calls w.now) callee p } in
    (deliver_to name (invite_frame p) holding).1

ring_runs :
    (env : Env) (me : AccountRecord) (room_id call_id offer : String) (video : Bool) (w : World)
    (callee : ℕ) (name : String)
    → (do
      now ← gets (λ w. w.now)
      hold_call callee (ringing me room_id call_id offer video now)
      deliver_to name (Wire.RoomServerFrame.call_invite room_id call_id me.username offer video)
      push ← gets (λ w. w.push)
      if push then notify_call env callee room_id call_id video else pure tt)
        w
      ≡ (if w.push then notify_call env callee room_id call_id video else pure tt)
          (told me room_id call_id offer video callee name w)
unfolding ◌>>=◌ gets hold_call deliver_to
ring_runs env me room_id call_id offer video w callee name = refl

pub handle_call_invite-calls :
    (env : Env) (me : AccountRecord) (room_id call_id offer : String) (video : Bool) (w : World)
    (callee : ℕ) (name : String)
    → w.faults ≡ []
    → w.store ≡ true
    → is_member room_id me.id w.db ≡ true
    → partner_account_id_for me.id w.db ≡ some callee
    → partner_username_for me.id w.db ≡ some name
    → (handle_call_invite env me room_id call_id offer video w).1.pending_calls
      ≡ insert
          (expire_due w.pending_calls w.now)
          callee
          (ringing me room_id call_id offer video w.now)
unfolding handle_call_invite deliver_to
handle_call_invite-calls env me room_id call_id offer video w callee name hf hs hm hp hn =
    let ids = partner_account_id_for me.id in
    let names = partner_username_for me.id in
    let ran : handle_call_invite env me room_id call_id offer video w
        ≡ (if w.push then notify_call env callee room_id call_id video else pure tt)
            (told me room_id call_id offer video callee name w) =
      bind-Runs need_store_quietly _ w w tt (need_store-Runs w hs)
      ∙ bind-Runs (check_room me (some room_id)) _ w w tt (check_room-Runs me room_id w hf hm)
      ∙ bind-Runs (query ids) _ w w (ok (ids w.db)) (query-Runs ids w hf)
      ∙ bind-Runs (some_or_stop (ids w.db)) _ w w callee (some_or_stop-Runs (ids w.db) callee w hp)
      ∙ bind-Runs (query names) _ w w (ok (names w.db)) (query-Runs names w hf)
      ∙ bind-Runs (some_or_stop (names w.db)) _ w w name (some_or_stop-Runs (names w.db) name w hn)
      ∙ ring_runs env me room_id call_id offer video w callee name in
    ap (λ r. r.1.pending_calls) ran
    ∙ rung-calls env w.push callee room_id call_id video
        (told me room_id call_id offer video callee name w)
